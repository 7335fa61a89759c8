-- ===== src/Prelude/Search.antt =====
-- What a search of a list finds.
use mathlib.Core.Bool.{Bool, true, false}
use mathlib.Core.List.{List, [], ◌∷◌}
use mathlib.Core.Logic.{◌≢◌, ◌↔◌, inl, inr}
use mathlib.Core.Path.{◌≡◌, refl}
use devmate.Prelude.Tests.{Bool-cases}
use devmate.Prelude.Lists.{any, Any, here, there}

pub any-Any_iff :
    {A : Type 0} (p : A → Bool) (P : A → Type 0) (xs : List A)
    → ((x : A) → (p x ≡ true) ↔ P x)
    → (any p xs ≡ true) ↔ Any P xs
any-Any_iff p P [] f = (λ h. cc, λ h. absurd (nowhere h))
  where
    nowhere : Any P [] → ⊥
    nowhere h = elim h [ ]
any-Any_iff p P (x ∷ xs) f =
    let (to, from) = any-Any_iff p P xs f in
    elim (Bool-cases (p x)) [
      | inl yes_x ↦ rw yes_x ((λ _. here ((f x).0 yes_x)), λ _. refl)
      | inr no_x ↦
          rw no_x
            (λ h. there (to h), λ h. elim h [ here q ↦ cc ((f x).1 q, no_x) | there r ↦ from r ])
    ]

-- A test that fails is one whose property does not hold.
pub not_iff : {P : Type 0} (b : Bool) → (b ≡ true) ↔ P → (b ≡ false) ↔ ¬ P
not_iff true (f, g) = (λ h. cc, λ n. absurd (n (f refl)))
not_iff false (f, g) = (λ _ p. clash (g p), λ _. refl)
  where
    clash : false ≢ true
    clash e = cc
