-- ===== src/EditGuard/Shell/Writes.antt =====
-- A write is not hidden by the commands around it.
use mathlib.Core.List.{append_assoc}
use devmate.Prelude.{
  List, [], ◌∷◌, ◌++◌, Bool, true, false, not, ◌&&◌, ◌||◌, ◌≡◌, refl, sym, ap, ◌∙◌, arith, inl, inr,
  if◌then◌else◌, any, is_empty, ◌⊎◌,
}
use devmate.Glob.{Code}
use devmate.EditGuard.Segments.{split_shell_segments}
use devmate.EditGuard.Shell.{concat, redirects, writes_source, shell_writes_source}
use devmate.EditGuard.Segments.Chains.{
  IsClosed, split_shell_segments-closed, split_shell_segments-balanced,
}

module _ {ℓ} {A : Type ℓ} (p : A → Bool) where
  any-left : (xs ys : List A) → any p xs ≡ true → any p (xs ++ ys) ≡ true
  any-left [] ys h = cc
  any-left (x ∷ xs) ys h = ground (arith, h, any-left xs ys)

  any-right : (xs ys : List A) → any p ys ≡ true → any p (xs ++ ys) ≡ true
  any-right [] ys h = h
  any-right (x ∷ xs) ys h = ground (arith, any-right xs ys h)

concat-append : (xs ys : List (List Code)) → concat (xs ++ ys) ≡ concat xs ++ concat ys
concat-append [] ys = refl
concat-append (x ∷ xs) ys =
    ap (λ t. x ++ t) (concat-append xs ys) ∙ sym (append_assoc x (concat xs) (concat ys))

module _ (to_lower_case : Code → Code) where
  redirects-left :
      (xs ys : List Code)
      → redirects to_lower_case xs ≡ true
      → redirects to_lower_case (xs ++ ys) ≡ true
  unfolding redirects
  redirects-left [] ys h = cc
  redirects-left (x ∷ []) ys h = ground (arith, h)
  redirects-left (x ∷ w ∷ xs) ys h = ground (arith, h, redirects-left (w ∷ xs) ys)

  redirects-right :
      (xs ys : List Code)
      → redirects to_lower_case ys ≡ true
      → redirects to_lower_case (xs ++ ys) ≡ true
  unfolding redirects
  redirects-right [] ys h = h
  redirects-right (x ∷ xs) ys h = ground (arith, redirects-right xs ys h)

  -- The five tests of a command line are kept where each is.
  kept :
      {a b c d e f u a' b' c' d' e' f' u' : Bool}
      → (a ≡ true → a' ≡ true)
      → (b ≡ true → b' ≡ true)
      → (c ≡ true → c' ≡ true)
      → (d ≡ true → d' ≡ true)
      → (e ≡ true → e' ≡ true)
      → (u ≡ true → u' ≡ true)
      → (f ≡ true → f' ≡ true)
      → (a || b || c || d || ((e || u) && f)) ≡ true
      → (a' || b' || c' || d' || ((e' || u') && f')) ≡ true
  kept ka kb kc kd ke ku kf h = ground (arith, h, ka, kb, kc, kd, ke, ku, kf)

  -- More segments around a write leave it a write; an open quote only adds to what counts as one.
  writes_source-left :
      (xs ys : List (List Code)) (unbalanced : Bool)
      → writes_source to_lower_case xs false ≡ true
      → writes_source to_lower_case (xs ++ ys) unbalanced ≡ true
  unfolding writes_source
  writes_source-left xs ys unbalanced =
      let words = concat xs in
      let more = concat ys in
      rw (concat-append xs ys) (
        kept (redirects-left words more) (any-left _ words more) (any-left _ words more)
          (any-left _ xs ys) (any-left _ xs ys) (λ e. cc) (any-left _ words more))

  writes_source-right :
      (xs ys : List (List Code)) (unbalanced : Bool)
      → writes_source to_lower_case ys unbalanced ≡ true
      → writes_source to_lower_case (xs ++ ys) unbalanced ≡ true
  unfolding writes_source
  writes_source-right xs ys unbalanced =
      let words = concat ys in
      let before = concat xs in
      rw (concat-append xs ys) (
        kept (redirects-right before words) (any-right _ before words) (any-right _ before words)
          (any-right _ xs ys) (any-right _ xs ys) (λ e. e) (any-right _ before words))

  by_words : (empty found : Bool) → (if empty then false else found) ≡ (not empty && found)
  by_words true found = refl
  by_words false found = refl

  both : (x y : Bool) → (x && y) ≡ true → (x ≡ true) × (y ≡ true)
  both true true h = (refl, refl)
  both true false h = cc
  both false y h = cc

  words-left :
      (xs ys : List (List Code))
      → not (is_empty (concat xs)) ≡ true
      → not (is_empty (concat (xs ++ ys))) ≡ true
  words-left xs ys h = rw (concat-append xs ys) (go (concat xs) h)
    where
      go : (ws : List Code) → not (is_empty ws) ≡ true → not (is_empty (ws ++ concat ys)) ≡ true
      go [] e = cc
      go (w ∷ ws) e = refl

  words-right :
      (xs ys : List (List Code))
      → not (is_empty (concat ys)) ≡ true
      → not (is_empty (concat (xs ++ ys))) ≡ true
  words-right xs ys h = rw (concat-append xs ys) (go (concat xs))
    where
      go : (ws : List Code) → not (is_empty (ws ++ concat ys)) ≡ true
      go [] = h
      go (w ∷ ws) = refl

  -- What `shellWritesSource` finds is found in words, of which there are none where it is false.
  found_in_words :
      (a : Code)
      → shell_writes_source to_lower_case a ≡ (
          not (is_empty (concat (split_shell_segments a).0))
          && writes_source to_lower_case (split_shell_segments a).0 (split_shell_segments a).1)
  unfolding shell_writes_source
  found_in_words a = by_words (is_empty (concat (split_shell_segments a).0)) _

  -- Let a command end outside quotes and with no backslash, and let it or another command write
  -- source. Then the two, joined by a semicolon, write source: no command before or after a write
  -- hides it.
  pub shell_writes_source-joined :
      (a b : Code)
      → IsClosed a
      → (shell_writes_source to_lower_case (a ++ b';' ∷ []) ≡ true)
        ⊎ (shell_writes_source to_lower_case b ≡ true)
      → shell_writes_source to_lower_case (a ++ b';' ∷ b) ≡ true
  shell_writes_source-joined a b closed h =
      let (first, _) = split_shell_segments (a ++ b';' ∷ []) in
      let (second, unbalanced) = split_shell_segments b in
      found_in_words (a ++ b';' ∷ b)
      ∙ ap {A = List (List Code) × Bool} {B = Bool}
          (λ r. not (is_empty (concat r.0)) && writes_source to_lower_case r.0 r.1)
          (split_shell_segments-closed a b closed)
      ∙ elim h [
        | inl left ↦
            let (words, found) = both _ _ (sym (found_in_words (a ++ b';' ∷ [])) ∙ left) in
            rw
              (
                words-left first second words,
                writes_source-left first second unbalanced
                    (rw (sym (split_shell_segments-balanced a closed)) found),
              )
              refl
        | inr right ↦
            let (words, found) = both _ _ (sym (found_in_words b) ∙ right) in
            rw (words-right first second words, writes_source-right first second unbalanced found)
              refl
      ]
