-- ===== src/LoopGuard/Halts.antt =====
-- When the loop guard lets an attempt through.
use text.Mathlib.TextEquality.{eq_iff}
use mathlib.Core.Path.{subst}
use devmate.Prelude.{
  ℕ, ◌+◌, ◌<◌, String, List, [], ◌∷◌, Bool, true, false, Option, none, some, ◌≡◌, ◌≢◌, refl, ◌↔◌,
  ◌⊎◌, arith, any, All, Bool-cases, inl, inr, ap, ◌∙◌,
}
use devmate.Prelude.Text.{str_eq}
use devmate.LoopGuard.{
  HaltReason, LoopEvent, loop_attempt, loop_halt, other_event, GuardOptions, allowed, is_repeat,
  digests_equal, detect_no_progress, repeated, sum_cumulative_cost, cap_exceeded, later_checks,
  below_max, run_loop_guard,
}

detect_no_progress-none_iff :
    (same_bytes : String → String → Bool) (current digest : String) (events : List LoopEvent)
    → (detect_no_progress same_bytes current digest events ≡ none)
      ↔ (any (is_repeat same_bytes current digest) events ≡ false)
unfolding detect_no_progress
detect_no_progress-none_iff same_bytes current digest [] = ((λ _. refl), λ _. refl)
detect_no_progress-none_iff same_bytes current digest (e ∷ events) =
    let (f, g) = detect_no_progress-none_iff same_bytes current digest events in
    elim (Bool-cases (is_repeat same_bytes current digest e)) [
      | inl again ↦ rw again ((λ h. cc), λ h. cc)
      | inr fresh ↦ rw fresh (f, g)
    ]

-- An event that is no attempt, is the given attempt, or has another digest.
abbrev pub Differs : (String → String → Bool) → String → String → LoopEvent → Type 0
Differs same_bytes current digest (loop_attempt id (some output) tokens) =
    (id ≡ current) ⊎ (digests_equal same_bytes (some output) digest ≡ false)
Differs same_bytes current digest _ = Unit

-- What the attempts of a trace have cost, as far as they say.
pub data Spends : List LoopEvent → ℕ → Type 0 where
  no_events : Spends [] 0
  estimated :
      {id : String} {output : Option String} {tokens total : ℕ} {events : List LoopEvent}
      → Spends events total
      → Spends (loop_attempt id output (some tokens) ∷ events) (tokens + total)
  unestimated :
      {id : String} {output : Option String} {total : ℕ} {events : List LoopEvent}
      → Spends events total
      → Spends (loop_attempt id output none ∷ events) total
  halts :
      {id task : String} {reason : HaltReason} {prior : Option String} {total : ℕ}
      {events : List LoopEvent}
      → Spends events total
      → Spends (loop_halt id task reason prior ∷ events) total
  others :
      {total : ℕ} {events : List LoopEvent}
      → Spends events total
      → Spends (other_event ∷ events) total

zero_plus : (n : ℕ) → n ≡ 0 + n
zero_plus n = omega arith

sum-Spends : (events : List LoopEvent) → Spends events (sum_cumulative_cost events)
unfolding sum_cumulative_cost
sum-Spends [] = no_events
sum-Spends (loop_attempt id output (some n) ∷ events) = estimated (sum-Spends events)
sum-Spends (loop_attempt id output none ∷ events) =
    subst (Spends (loop_attempt id output none ∷ events)) (zero_plus (sum_cumulative_cost events))
      (unestimated (sum-Spends events))
sum-Spends (loop_halt id task reason prior ∷ events) =
    subst (Spends (loop_halt id task reason prior ∷ events))
      (zero_plus (sum_cumulative_cost events)) (halts (sum-Spends events))
sum-Spends (other_event ∷ events) =
    subst (Spends (other_event ∷ events)) (zero_plus (sum_cumulative_cost events))
      (others (sum-Spends events))

Spends-sum :
    {events : List LoopEvent} {total : ℕ} → Spends events total → total ≡ sum_cumulative_cost events
unfolding sum_cumulative_cost
Spends-sum no_events = refl
Spends-sum (estimated {tokens} s) = ap (λ n. tokens + n) (Spends-sum s)
Spends-sum (unestimated s) = Spends-sum s ∙ zero_plus _
Spends-sum (halts s) = Spends-sum s ∙ zero_plus _
Spends-sum (others s) = Spends-sum s ∙ zero_plus _

-- A total below the cap, where there is one.
abbrev pub BelowCap : Option ℕ → ℕ → Type 0
BelowCap none total = Unit
BelowCap (some cap) total = total < cap

cap_iff :
    (cap : Option ℕ) (events : List LoopEvent)
    → (cap_exceeded cap events ≡ false) ↔ ((total : ℕ) × Spends events total × BelowCap cap total)
unfolding cap_exceeded
cap_iff none events = (λ _. (sum_cumulative_cost events, sum-Spends events, tt), λ _. refl)
cap_iff (some cap) events = (
  λ h. (sum_cumulative_cost events, sum-Spends events, ground arith),
  λ (total, s, below). let e = Spends-sum s in ground arith,
)

is_repeat-Differs_iff :
    (same_bytes : String → String → Bool) (current digest : String) (e : LoopEvent)
    → (is_repeat same_bytes current digest e ≡ false) ↔ Differs same_bytes current digest e
unfolding digests_equal
is_repeat-Differs_iff same_bytes current digest (loop_attempt id (some output) tokens) =
    elim (Bool-cases (str_eq id current)) [
      | inl same ↦ rw same ((λ _. inl ((eq_iff id current).0 same)), λ _. refl)
      | inr other ↦
          rw other (λ h. inr h, λ d. elim d [ inl e ↦ absurd (clash other e) | inr f ↦ f ])
    ]
  where
    clash : str_eq id current ≡ false → id ≢ current
    clash other e = ground (arith, eq_iff id current, other, e)
is_repeat-Differs_iff same_bytes current digest (loop_attempt id none tokens) =
    elim (Bool-cases (str_eq id current)) [
      | inl same ↦ rw same ((λ _. tt), λ _. refl)
      | inr other ↦ rw other ((λ _. tt), λ _. refl)
    ]
is_repeat-Differs_iff same_bytes current digest (loop_halt id task reason prior) =
    ((λ _. tt), λ _. refl)
is_repeat-Differs_iff same_bytes current digest other_event = ((λ _. tt), λ _. refl)

any-Differs_iff :
    (same_bytes : String → String → Bool) (current digest : String) (events : List LoopEvent)
    → (any (is_repeat same_bytes current digest) events ≡ false)
      ↔ All (Differs same_bytes current digest) events
any-Differs_iff same_bytes current digest [] = ((λ _. tt), λ _. refl)
any-Differs_iff same_bytes current digest (e ∷ events) =
    let (f, g) = any-Differs_iff same_bytes current digest events in
    let (f', g') = is_repeat-Differs_iff same_bytes current digest e in
    elim (Bool-cases (is_repeat same_bytes current digest e)) [
      | inl again ↦ rw again ((λ h. cc), λ (d, _). cc (g' d, again))
      | inr fresh ↦ rw fresh ((λ h. (f' fresh, f h)), λ (_, rest). g rest)
    ]

-- A digest is not given, or no other attempt has it.
abbrev pub IsProgress : (String → String → Bool) → GuardOptions → List LoopEvent → Type 0
IsProgress same_bytes opts events =
    (opts.current_digest ≡ "") ⊎ All (Differs same_bytes opts.attempt_id opts.current_digest) events

repeated-IsProgress_iff :
    (same_bytes : String → String → Bool) (opts : GuardOptions) (events : List LoopEvent)
    → (repeated same_bytes opts events ≡ none) ↔ IsProgress same_bytes opts events
unfolding repeated
repeated-IsProgress_iff same_bytes opts events =
    let (f, g) =
      detect_no_progress-none_iff same_bytes opts.attempt_id opts.current_digest events in
    let (f', g') = any-Differs_iff same_bytes opts.attempt_id opts.current_digest events in
    elim (Bool-cases (str_eq opts.current_digest "")) [
      | inl blank ↦ rw blank ((λ _. inl ((eq_iff opts.current_digest "").0 blank)), λ _. refl)
      | inr given ↦
          rw given
            (λ h. inr (f' (f h)), λ p. elim p [ inl e ↦ absurd (clash given e) | inr d ↦ g (g' d) ])
    ]
  where
    clash : str_eq opts.current_digest "" ≡ false → opts.current_digest ≢ ""
    clash given e = ground (arith, eq_iff opts.current_digest "", given, e)

later_checks-allowed_iff :
    (opts : GuardOptions) (prior : Option String) (over : Bool) (events : List LoopEvent)
    → ((later_checks opts prior over events).0 ≡ allowed) ↔ ((prior ≡ none) × (over ≡ false))
later_checks-allowed_iff opts (some p) over events = ground arith
later_checks-allowed_iff opts none true events = ground arith
later_checks-allowed_iff opts none false events = ground arith

-- The loop guard lets an attempt through exactly where fewer files than the limit have changed, no other
-- attempt of the trace has the given digest, where one is given, and what the attempts of the trace
-- have cost is below the cap, where there is one.
pub run_loop_guard-allowed_iff :
    (same_bytes : String → String → Bool) (opts : GuardOptions) (count : ℕ)
    (events : List LoopEvent)
    → ((run_loop_guard same_bytes opts count events).0 ≡ allowed) ↔ (
        (count < opts.max_files)
        × IsProgress same_bytes opts events
        × ((total : ℕ) × Spends events total × BelowCap opts.max_loop_tokens total))
unfolding run_loop_guard
run_loop_guard-allowed_iff same_bytes opts count events =
    let (f, g) = repeated-IsProgress_iff same_bytes opts events in
    let (c, d) = cap_iff opts.max_loop_tokens events in
    let (f', g') =
      later_checks-allowed_iff opts (repeated same_bytes opts events)
        (cap_exceeded opts.max_loop_tokens events) events in
    elim (Bool-cases (below_max count opts.max_files)) [
      | inl below ↦
          rw below
            ((λ h. let (a, b) = f' h in (ground arith, f a, c b)), λ (_, a, b). g' (g a, d b))
      | inr above ↦ rw above ((λ h. cc), λ (a, _, _). ground arith)
    ]
