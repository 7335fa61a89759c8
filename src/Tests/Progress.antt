-- ===== src/Tests/Progress.antt =====
-- The progress of a spec.
use devmate.Prelude.{◌+◌, ◌≤◌, List, [], ◌∷◌, some, ◌≡◌, refl, all, length}
use devmate.SpecProgress.{
  Criterion, has, by_id, insert, sort, compute_ac_coverage, next_from, next_ac_number,
}
use devmate.SpecProgress.Bounds.{compute_ac_coverage-bounds}

abbrev criteria : List Criterion
criteria =
    record { id = 2; text = "b" }
    ∷ record { id = 1; text = "a" }
    ∷ record { id = 2; text = "c" }
    ∷ record { id = 3; text = "d" }
    ∷ []

two_open :
    (compute_ac_coverage criteria (3 ∷ [])).missing
    ≡ record { id = 1; text = "a" } ∷ record { id = 2; text = "b" } ∷ []
unfolding compute_ac_coverage by_id insert sort
two_open = refl

third_is_next : next_ac_number (2 ∷ 1 ∷ []) 4 ≡ some 3
unfolding next_ac_number next_from
third_is_next = refl

compute_ac_coverage-bounds_example :
    ((compute_ac_coverage criteria (3 ∷ [])).ok ≡ all (λ c. has (3 ∷ []) c.id) criteria)
    × ((compute_ac_coverage criteria (3 ∷ [])).completed
          + length (compute_ac_coverage criteria (3 ∷ [])).missing
        ≡ (compute_ac_coverage criteria (3 ∷ [])).total)
    × ((compute_ac_coverage criteria (3 ∷ [])).total ≤ 4)
compute_ac_coverage-bounds_example = compute_ac_coverage-bounds criteria (3 ∷ [])
