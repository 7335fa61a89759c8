-- ===== src/Prelude/Codes.antt =====
-- Texts as lists of UTF-16 code units: the string methods that the guard calls on them.
use Prim.Native.Nat.{ℕ, ◌+◌}
use Prim.Native.Char.{code}
use Prim.Native.String.{String}
use mathlib.Core.Bool.{Bool, true, false, ◌&&◌, ◌||◌}
use mathlib.Core.List.{List, [], ◌∷◌}
use devmate.Prelude.Tests.{◌==◌, leb, if◌then◌else◌}
use devmate.Prelude.Lists.{any}

-- A constant of the source, which has no character beyond ASCII.
abbrev pub codes : String → List ℕ
codes String.[] = []
codes (String.◌∷◌ c s) = code c ∷ codes s

abbrev pub starts_with : List ℕ → List ℕ → Bool
starts_with [] s = true
starts_with (p ∷ ps) [] = false
starts_with (p ∷ ps) (c ∷ s) = p == c && starts_with ps s

abbrev pub code_eq : List ℕ → List ℕ → Bool
code_eq [] [] = true
code_eq (a ∷ as') (b ∷ bs) = a == b && code_eq as' bs
code_eq _ _ = false

-- `s.includes(part)`.
abbrev pub contains : List ℕ → List ℕ → Bool
contains part [] = code_eq part []
contains part (c ∷ s) = starts_with part (c ∷ s) || contains part s

-- `s.endsWith(part)`.
abbrev pub ends_with : List ℕ → List ℕ → Bool
ends_with part [] = code_eq part []
ends_with part (c ∷ s) = code_eq part (c ∷ s) || ends_with part s

-- `s.replace(/^\.\//, '')`.
abbrev pub strip_dot_slash : List ℕ → List ℕ
strip_dot_slash [] = []
strip_dot_slash (c ∷ []) = c ∷ []
strip_dot_slash (c ∷ d ∷ s) = if c == b'.' && d == b'/' then s else c ∷ d ∷ s

abbrev pub includes_code : List (List ℕ) → List ℕ → Bool
includes_code names s = any (λ n. code_eq n s) names

-- A letter without its case, as a pattern with the flag `i` reads it.
abbrev pub fold_case : ℕ → ℕ
fold_case c = if leb b'A' c && leb c b'Z' then c + 32 else c
