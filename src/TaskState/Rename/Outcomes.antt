-- ===== src/TaskState/Rename/Outcomes.antt =====
-- What `commitRenameWithRetry` ends with.
use devmate.Prelude.{
  ◌⊎◌, ℕ, zero, suc, String, Bool, true, false, Option, ◌≡◌, refl, ◌↔◌, Bool-cases, inl, inr,
}
use devmate.Json.{Number}
use devmate.TaskState.Retry.{attempts_or}
use devmate.TaskState.Rename.{
  Outcome, renamed, refused, Renamed, done, not_tried, is_transient, after_attempt, rename_loop,
  commit_rename_with_retry,
}

-- Within the attempts that are left, some rename succeeds, and all before it are refused with a
-- transient code.
abbrev pub IsReached : (ℕ → Outcome) → (attempt left : ℕ) → Type 0
IsReached rename attempt zero = ⊥
IsReached rename attempt (suc left) =
    (rename attempt ≡ renamed)
    ⊎ ((code : Option String) × (rename attempt ≡ refused code)
        × (is_transient code ≡ true)
        × IsReached rename (suc attempt) left)

after_attempt-done_iff :
    (o : Outcome) (is_last : Bool) (rest : Renamed)
    → (after_attempt o is_last rest ≡ done) ↔ (
        (o ≡ renamed)
        ⊎ ((code : Option String) × (o ≡ refused code)
            × (is_transient code ≡ true)
            × (is_last ≡ false)
            × (rest ≡ done)))
after_attempt-done_iff renamed is_last rest = ((λ _. inl refl), λ _. refl)
after_attempt-done_iff (refused code) true rest =
    ((λ h. cc), λ e. elim e [ inl a ↦ cc a | inr (c, a, b, d, f) ↦ cc d ])
after_attempt-done_iff (refused code) false rest = elim (Bool-cases (is_transient code)) [
  | inl yes_again ↦ rw yes_again (
    (λ h. inr (code, refl, yes_again, refl, h)),
    λ e. elim e [ inl a ↦ cc a | inr (c, a, b, d, f) ↦ f ],
  )
  | inr never ↦ rw never (
    (λ h. cc),
    λ e. elim e [
      | inl a ↦ cc a
      | inr (c, a, b, d, f) ↦ let same : code ≡ c = cc a in cc (never, same, b)
    ],
  )
]

rename_loop-done_iff :
    (rename : ℕ → Outcome) (attempt left : ℕ)
    → (rename_loop rename attempt left ≡ done) ↔ IsReached rename attempt left
unfolding rename_loop
rename_loop-done_iff rename attempt zero = ((λ h. cc), λ r. absurd r)
rename_loop-done_iff rename attempt (suc zero) =
    let (f, g) = after_attempt-done_iff (rename attempt) true not_tried in
    (
      (λ h. elim (f h) [ inl a ↦ inl a | inr (c, a, b, d, e) ↦ cc d ]),
      λ r. elim r [ inl a ↦ g (inl a) | inr (c, a, b, never) ↦ absurd never ],
    )
rename_loop-done_iff rename attempt (suc (suc left)) =
    let (f, g) =
      after_attempt-done_iff (rename attempt) false (rename_loop rename (suc attempt) (suc left)) in
    let (f', g') = rename_loop-done_iff rename (suc attempt) (suc left) in
    (
      (λ h. elim (f h) [ inl a ↦ inl a | inr (c, a, b, d, e) ↦ inr (c, a, b, f' e) ]),
      λ r. elim r [ inl a ↦ g (inl a) | inr (c, a, b, e) ↦ g (inr (c, a, b, refl, g' e)) ],
    )

-- The rename ends well exactly where, within the normalized number of attempts, one succeeds after
-- transient refusals only.
pub commit_rename_with_retry-done_iff :
    (rename : ℕ → Outcome) (attempts : Option Number)
    → (commit_rename_with_retry rename attempts ≡ done)
      ↔ IsReached rename 0 (attempts_or 5 attempts)
unfolding commit_rename_with_retry
commit_rename_with_retry-done_iff rename attempts =
    rename_loop-done_iff rename 0 (attempts_or 5 attempts)
