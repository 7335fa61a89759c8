-- ===== src/EditGuard/Segments.antt =====
-- `splitShellSegments` of lib/gate-guard-core.mjs: the segments of a command line. A command is the list
-- of its UTF-16 code units; `\s` is the white space of `trim`.
pub mod Chains
use devmate.Prelude.{
  ℕ, String, List, [], ◌∷◌, ◌++◌, Bool, true, false, not, ◌&&◌, ◌||◌, Option, none, some,
  if◌then◌else◌, ◌==◌, leb, any, is_empty,
}
use devmate.Prelude.Text.{is_space}
use devmate.Prelude.Codes.{codes, starts_with, code_eq, includes_code}
use devmate.Glob.{Code}
use devmate.EditGuard.Tools.{is_write_target_token}

-- Where the scan stands: the segments that are closed, the words of the open one, the open word and
-- the open quote. The lists are in the order of the source.
pub record Scan : Type 0 where
  pub segments : List (List Code)
  pub segment : List Code
  pub word : Code
  pub quote : Option ℕ

abbrev pub add_char : Scan → ℕ → Scan
add_char s c = record {
  segments = s.segments;
  segment = s.segment;
  word = s.word ++ c ∷ [];
  quote = s.quote;
}

abbrev pub set_quote : Scan → Option ℕ → Scan
set_quote s quote = record {
  segments = s.segments;
  segment = s.segment;
  word = s.word;
  quote = quote;
}

abbrev pub close_word : Code → List Code → List Code
close_word [] segment = segment
close_word (c ∷ cs) segment = segment ++ (c ∷ cs) ∷ []

abbrev pub end_word : Scan → Scan
end_word s = record {
  segments = s.segments;
  segment = close_word s.word s.segment;
  word = [];
  quote = s.quote;
}

abbrev pub close_segment : List Code → List (List Code)
close_segment [] = []
close_segment (w ∷ ws) = (w ∷ ws) ∷ []

abbrev pub end_segment : Scan → Scan
end_segment s = record {
  segments = s.segments ++ close_segment (close_word s.word s.segment);
  segment = [];
  word = [];
  quote = s.quote;
}

abbrev pub is_char : Option ℕ → ℕ → Bool
is_char none c = false
is_char (some d) c = d == c

abbrev pub add_next : Scan → Option ℕ → Scan
add_next s none = s
add_next s (some c) = add_char s c

abbrev pub is_some : Option ℕ → Bool
is_some none = false
is_some (some _) = true

-- One character, inside single quotes, inside double quotes, or outside; and whether the one after
-- it, which is given, is consumed too.
unfoldable pub in_single : Scan → ℕ → Scan × Bool
in_single s ch = (if ch == b'\'' then set_quote (add_char s ch) none else add_char s ch, false)

unfoldable pub in_double : Scan → ℕ → Scan × Bool
in_double s ch = (if ch == b'"' then set_quote (add_char s ch) none else add_char s ch, false)

unfoldable pub outside : Scan → ℕ → Option ℕ → Scan × Bool
outside s ch next =
    if ch == b'\'' || ch == b'"'
    then (add_char (set_quote s (some ch)) ch, false)
    else if is_space ch
    then (end_word s, false)
    else if ch == b';'
    then (end_segment s, false)
    else if ch == b'|'
    then (end_segment s, is_char next b'|')
    else if ch == b'&' && is_char next b'&'
    then (end_segment s, true)
    else (add_char s ch, false)

-- The body of the loop.
unfoldable pub scan_char : Scan → ℕ → Option ℕ → Scan × Bool
scan_char s ch next =
    if is_char s.quote b'\''
    then in_single s ch
    else if ch == 92
    then (add_next (add_char s ch) next, is_some next)
    else if is_char s.quote b'"'
    then in_double s ch
    else outside s ch next

abbrev pub head? : Code → Option ℕ
head? [] = none
head? (c ∷ cs) = some c

-- The loop; the flag says that the next character is already consumed.
unfoldable pub scan_from : Scan × Bool → Code → Scan
scan_from (s, consumed) [] = s
scan_from (s, consumed) (c ∷ cs) =
    scan_from (if consumed then (s, false) else scan_char s c (head? cs)) cs

abbrev pub scan_start : Scan
scan_start = record { segments = []; segment = []; word = []; quote = none }

-- The segments, and whether a quote stays open.
unfoldable pub split_shell_segments : Code → List (List Code) × Bool
split_shell_segments command =
    let s = scan_from (scan_start, false) command in ((end_segment s).segments, is_some s.quote)
