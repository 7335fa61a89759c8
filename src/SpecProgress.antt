-- ===== src/SpecProgress.antt =====
-- lib/spec-progress.mjs: which acceptance criteria are complete, and which is next. The lines of the
-- spec and the steps of the trace are read by other functions. A criterion's number is a natural
-- number. The percentage, a division of floating-point numbers, is left out.
pub mod Bounds
use devmate.Prelude.{
  ℕ, zero, suc, ◌-◌, String, List, [], ◌∷◌, Bool, true, false, not, Option, none, some,
  if◌then◌else◌, ltb, ◌==◌, any, keep, length, is_empty,
}

-- `AcceptanceCriterion`, without its step.
pub record Criterion : Type 0 where
  pub id : ℕ
  pub text : String

-- `completedIds.has(n)`.
abbrev pub has : List ℕ → ℕ → Bool
has ids n = any (λ m. m == n) ids

-- `byId`: the first criterion of each number. The numbers that have been met are given.
unfoldable pub by_id : List ℕ → List Criterion → List Criterion
by_id seen [] = []
by_id seen (c ∷ cs) = elim (has seen c.id) [
  | true ↦ by_id seen cs
  | false ↦ c ∷ by_id (c.id ∷ seen) cs
]

-- `.sort((a, b) => a.id - b.id)`.
unfoldable pub insert : Criterion → List Criterion → List Criterion
insert c [] = c ∷ []
insert c (d ∷ cs) = let rest = insert c cs in if ltb d.id c.id then d ∷ rest else c ∷ d ∷ cs

unfoldable pub sort : List Criterion → List Criterion
sort [] = []
sort (c ∷ cs) = insert c (sort cs)

-- `AcCoverage`.
pub record AcCoverage : Type 0 where
  pub ok : Bool
  pub total : ℕ
  pub completed : ℕ
  pub missing : List Criterion

unfoldable pub compute_ac_coverage : List Criterion → List ℕ → AcCoverage
compute_ac_coverage criteria completed_ids =
    let ordered = sort (by_id [] criteria) in
    let missing = keep (λ c. not (has completed_ids c.id)) ordered in
    record {
      ok = is_empty missing;
      total = length ordered;
      completed = length ordered - length missing;
      missing = missing;
    }

-- The loop of `nextAcNumber`, with the rounds that are left and the number that is tried.
unfoldable pub next_from : ℕ → ℕ → List ℕ → Option ℕ
next_from zero n ids = none
next_from (suc rounds) n ids =
    let later = next_from rounds (suc n) ids in if has ids n then later else some n

unfoldable pub next_ac_number : List ℕ → ℕ → Option ℕ
next_ac_number ids total = next_from total 1 ids
