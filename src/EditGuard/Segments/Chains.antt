-- ===== src/EditGuard/Segments/Chains.antt =====
-- Commands joined by a semicolon are split, and judged, one by one.
use mathlib.Core.List.{append_assoc, append-nil}
use devmate.Prelude.{
  ℕ, List, [], ◌∷◌, ◌++◌, Bool, true, false, ◌&&◌, ◌||◌, Option, none, some, ◌≡◌, refl, sym, ap,
  ◌∙◌, inl, inr, Bool-cases, if◌then◌else◌, ◌==◌,
}
use devmate.Prelude.Text.{is_space}
use devmate.Glob.{Code}
use devmate.EditGuard.Segments.{
  Scan, add_char, end_segment, close_word, close_segment, is_char, add_next, is_some, in_single,
  in_double, outside, scan_char, head?, scan_from, scan_start, split_shell_segments,
}

-- The scan of a part of a command, of which the character after the part is given.
abbrev pub or_next : Option ℕ → Option ℕ → Option ℕ
or_next none next = next
or_next (some c) next = some c

unfoldable pub scan_to : Scan × Bool → Code → Option ℕ → Scan × Bool
scan_to p [] next = p
scan_to (s, consumed) (c ∷ cs) next =
    scan_to (if consumed then (s, false) else scan_char s c (or_next (head? cs) next)) cs next

-- A command that ends outside quotes, with nothing of what follows consumed.
abbrev pub IsClosed : Code → Type 0
IsClosed a =
    ((scan_to (scan_start, false) a (some b';')).1 ≡ false)
    × ((scan_to (scan_start, false) a (some b';')).0.quote ≡ none)

head?-append : (a b : Code) → head? (a ++ b) ≡ or_next (head? a) (head? b)
head?-append [] b = refl
head?-append (c ∷ a) b = refl

scan_from-append :
    (p : Scan × Bool) (a b : Code) → scan_from p (a ++ b) ≡ scan_from (scan_to p a (head? b)) b
unfolding scan_from scan_to
scan_from-append p [] b = refl
scan_from-append (s, consumed) (c ∷ a) b = rw (head?-append a b) (
    scan_from-append (if consumed then (s, false) else scan_char s c (or_next (head? a) (head? b)))
      a b)

-- A scan with segments before its own.
abbrev pub behind : List (List Code) → Scan → Scan
behind pre s = record {
  segments = pre ++ s.segments;
  segment = s.segment;
  word = s.word;
  quote = s.quote;
}

abbrev behind_step : List (List Code) → Scan × Bool → Scan × Bool
behind_step pre (s, consumed) = (behind pre s, consumed)

module _ (pre : List (List Code)) where
  end_segment-behind : (s : Scan) → end_segment (behind pre s) ≡ behind pre (end_segment s)
  end_segment-behind s =
      ap (λ segments. record { segments = segments; segment = []; word = []; quote = s.quote })
        (append_assoc pre s.segments (close_segment (close_word s.word s.segment)))

  if_behind :
      (b : Bool) (p q : Scan × Bool) {p' q' : Scan × Bool}
      → p' ≡ behind_step pre p
      → q' ≡ behind_step pre q
      → (if b then p' else q') ≡ behind_step pre (if b then p else q)
  if_behind true p q h k = h
  if_behind false p q h k = k

  outside-behind :
      (s : Scan) (c : ℕ) (next : Option ℕ)
      → outside (behind pre s) c next ≡ behind_step pre (outside s c next)
  unfolding outside
  outside-behind s c next =
      let ended =
        λ (flag : Bool). ap {A = Scan} {B = Scan × Bool} (λ t. (t, flag)) (end_segment-behind s) in
      if_behind (c == b'\'' || c == b'"') _ _ refl (
        if_behind (is_space c) _ _ refl (
          if_behind (c == b';') _ _ (ended false) (
            if_behind (c == b'|') _ _ (ended (is_char next b'|'))
              (if_behind (c == b'&' && is_char next b'&') _ _ (ended true) refl))))

  in_single-behind :
      (s : Scan) (c : ℕ) → in_single (behind pre s) c ≡ behind_step pre (in_single s c)
  unfolding in_single
  in_single-behind s c = elim (Bool-cases (c == b'\'')) [ inl h ↦ rw h refl | inr h ↦ rw h refl ]

  in_double-behind :
      (s : Scan) (c : ℕ) → in_double (behind pre s) c ≡ behind_step pre (in_double s c)
  unfolding in_double
  in_double-behind s c = elim (Bool-cases (c == b'"')) [ inl h ↦ rw h refl | inr h ↦ rw h refl ]

  add_next-behind :
      (s : Scan) (next : Option ℕ) → add_next (behind pre s) next ≡ behind pre (add_next s next)
  add_next-behind s none = refl
  add_next-behind s (some c) = refl

  scan_char-behind :
      (s : Scan) (c : ℕ) (next : Option ℕ)
      → scan_char (behind pre s) c next ≡ behind_step pre (scan_char s c next)
  unfolding scan_char
  scan_char-behind s c next = if_behind (is_char s.quote b'\'') _ _ (in_single-behind s c) (
      if_behind (c == 92) _ _
        (ap {A = Scan} {B = Scan × Bool} (λ t. (t, is_some next))
          (add_next-behind (add_char s c) next))
        (if_behind (is_char s.quote b'"') _ _ (in_double-behind s c) (outside-behind s c next)))

  scan_from-behind :
      (p : Scan × Bool) (b : Code) → scan_from (behind_step pre p) b ≡ behind pre (scan_from p b)
  unfolding scan_from
  scan_from-behind (s, consumed) [] = refl
  scan_from-behind (s, consumed) (c ∷ b) =
      ap (λ p. scan_from p b) (if_behind consumed _ _ refl (scan_char-behind s c (head? b)))
      ∙ scan_from-behind (if consumed then (s, false) else scan_char s c (head? b)) b

-- The separator ends the open segment of a scan that is outside quotes.
scan_char-semicolon :
    (s : Scan) (next : Option ℕ) → s.quote ≡ none → scan_char s b';' next ≡ (end_segment s, false)
unfolding scan_char outside
scan_char-semicolon s next h = rw h refl

ended_behind :
    (s : Scan) → s.quote ≡ none → end_segment s ≡ behind (end_segment s).segments scan_start
ended_behind s h =
    ap {A = Option ℕ} {B = Scan}
      (λ quote. record {
        segments = (end_segment s).segments;
        segment = [];
        word = [];
        quote = quote;
      })
      h
    ∙ ap {A = List (List Code)} {B = Scan}
        (λ segments. record { segments = segments; segment = []; word = []; quote = none })
        (sym (append-nil (end_segment s).segments))

-- A closed command and what follows its semicolon.
scan_from-closed :
    (a b : Code)
    → IsClosed a
    → scan_from (scan_start, false) (a ++ b';' ∷ b)
      ≡ behind
          (end_segment (scan_to (scan_start, false) a (some b';')).0).segments
          (scan_from (scan_start, false) b)
unfolding scan_from
scan_from-closed a b (free, outside_quotes) =
    let s = (scan_to (scan_start, false) a (some b';')).0 in
    let segments = (end_segment s).segments in
    scan_from-append (scan_start, false) a (b';' ∷ b)
    ∙ ap {A = Bool} {B = Scan} (λ flag. scan_from (s, flag) (b';' ∷ b)) free
    ∙ ap {A = Scan × Bool} {B = Scan} (λ p. scan_from p b)
        (scan_char-semicolon s (head? b) outside_quotes)
    ∙ ap {A = Scan} {B = Scan} (λ t. scan_from (t, false) b) (ended_behind s outside_quotes)
    ∙ scan_from-behind segments (scan_start, false) b

segments_of : Code → List (List Code)
segments_of a = (end_segment (scan_to (scan_start, false) a (some b';')).0).segments

split-closed_from :
    (a b : Code)
    → IsClosed a
    → split_shell_segments (a ++ b';' ∷ b)
      ≡ (segments_of a ++ (split_shell_segments b).0, (split_shell_segments b).1)
unfolding split_shell_segments segments_of
split-closed_from a b closed =
    let t = scan_from (scan_start, false) b in
    ap {A = Scan} {B = List (List Code) × Bool} (λ s. ((end_segment s).segments, is_some s.quote))
      (scan_from-closed a b closed)
    ∙ ap {A = Scan} {B = List (List Code) × Bool} (λ s. (s.segments, is_some t.quote))
        (end_segment-behind (segments_of a) t)

split-closed_alone :
    (a : Code) → IsClosed a → split_shell_segments (a ++ b';' ∷ []) ≡ (segments_of a, false)
unfolding split_shell_segments scan_from
split-closed_alone a closed =
    split-closed_from a [] closed
    ∙ ap {A = List (List Code)} {B = List (List Code) × Bool} (λ segments. (segments, false))
        (append-nil (segments_of a))

-- Let a command end outside quotes and with no backslash. Then what is split from it, a semicolon
-- and another command are its segments, followed by those of the other command, and a quote stays
-- open exactly where it does in the other command.
pub split_shell_segments-closed :
    (a b : Code)
    → IsClosed a
    → split_shell_segments (a ++ b';' ∷ b) ≡ (
      (split_shell_segments (a ++ b';' ∷ [])).0 ++ (split_shell_segments b).0,
      (split_shell_segments b).1,
    )
split_shell_segments-closed a b closed =
    split-closed_from a b closed
    ∙ ap {A = List (List Code) × Bool} {B = List (List Code) × Bool}
        (λ alone. (alone.0 ++ (split_shell_segments b).0, (split_shell_segments b).1))
        (sym (split-closed_alone a closed))

-- A closed command leaves no quote open.
pub split_shell_segments-balanced :
    (a : Code) → IsClosed a → (split_shell_segments (a ++ b';' ∷ [])).1 ≡ false
split_shell_segments-balanced a closed = ap (λ r. r.1) (split-closed_alone a closed)
