-- ===== src/DependencyGates/Entries.antt =====
-- The entries of gates.json: their validity, and which gates have passed after one is set.
use text.Mathlib.TextEquality.{eq_iff}
use devmate.Prelude.{
  String, List, [], ◌∷◌, Bool, true, false, not, ◌&&◌, Option, none, some, ◌≡◌, refl, inl, inr, ◌↔◌,
  arith, if◌then◌else◌, is_empty, keep, All, Bool-cases,
}
use devmate.Prelude.Text.{str_eq, includes}
use devmate.Json.{Json, obj, Fields, end, field, get, set}
use devmate.Json.Laws.{get-set}
use devmate.DependencyGates.{
  dep_gates, valid_statuses, prerequisites, check_prerequisites, has_passed, GatesError,
  check_entry, check_entries, first_error, gates, accept, Host, entry_of,
}

pub entry_of-valid :
    (host : Host) (name status : String)
    → includes dep_gates name ≡ true
    → includes valid_statuses status ≡ true
    → check_entry name (entry_of host name status) ≡ none
unfolding check_entry get
entry_of-valid host name status known is_status = ground (arith, known, is_status)

first_error-eq-none_iff :
    (a b : Option GatesError) → (first_error a b ≡ none) ↔ ((a ≡ none) × (b ≡ none))
first_error-eq-none_iff none b = ground arith
first_error-eq-none_iff (some e) b = ground arith

pub check_entries-set :
    (fs : Fields) (name : String) (entry : Json)
    → check_entries fs ≡ none
    → check_entry name entry ≡ none
    → check_entries (set fs name entry) ≡ none
unfolding check_entries set
check_entries-set end name entry h e = (first_error-eq-none_iff _ _).1 (e, refl)
check_entries-set (field k w fs) name entry h e =
    let (a, b) = (first_error-eq-none_iff (check_entry k w) (check_entries fs)).0 h in
    ground (arith, eq_iff k name, check_entries-set fs name entry b e)

pub has_passed-set :
    (host : Host) (fs : Fields) (name status p : String)
    → has_passed (set fs name (entry_of host name status)) p
      ≡ (if str_eq name p then str_eq status "pass" else has_passed fs p)
unfolding has_passed get
has_passed-set host fs name status p =
    rw (get-set fs name p (entry_of host name status))
      elim (Bool-cases (str_eq name p)) [ inl same ↦ rw same refl | inr other ↦ rw other refl ]

All-keep :
    (test : String → Bool) (names : List String)
    → keep (λ p. not (test p)) names ≡ []
    → All (λ p. test p ≡ true) names
All-keep test [] h = tt
All-keep test (p ∷ names) h = elim (Bool-cases (test p)) [
  | inl passed ↦ (passed, All-keep test names (rw passed at h))
  | inr lost ↦ let h' = rw lost at h in cc h'
]

-- Every prerequisite of a gate has passed exactly where the check finds none missing.
pub All-passed :
    (name : String) (fs : Fields)
    → check_prerequisites name fs ≡ []
    → All (λ p. has_passed fs p ≡ true) (prerequisites name)
unfolding check_prerequisites
All-passed name fs h = All-keep (has_passed fs) (prerequisites name) h

pub All-set :
    (host : Host) (fs : Fields) (name : String) (names : List String)
    → All (λ p. has_passed fs p ≡ true) names
    → All (λ p. has_passed (set fs name (entry_of host name "pass")) p ≡ true) names
All-set host fs name [] passed = tt
All-set host fs name (p ∷ names) (passed, rest) =
    (rw (has_passed-set host fs name "pass" p) (ground arith), All-set host fs name names rest)

pub accept-eq-gates :
    (raw : Json) (e : Option GatesError) (fs : Fields)
    → accept raw e ≡ gates fs
    → (raw ≡ obj fs) × (e ≡ none)
unfolding accept
accept-eq-gates raw (some e) fs h = cc
accept-eq-gates raw none fs h = ground arith

pub ordered_of :
    (status : String) (missing : List String)
    → (str_eq status "pass" && not (is_empty missing)) ≡ false
    → status ≡ "pass"
    → missing ≡ []
ordered_of status [] h e = refl
ordered_of status (m ∷ missing) h e = ground (arith, eq_iff status "pass")
