-- ===== src/Prelude/Text.antt =====
-- Strings that the program compares whole: equality, `trim() === ''`, membership in a list.
use Prim.Native.Nat.{ℕ}
use Prim.Native.Char.{code}
use Prim.Native.String.{String}
use mathlib.Core.Bool.{Bool, true, ◌&&◌, ◌||◌}
use mathlib.Core.Path.{◌≡◌}
use mathlib.Core.List.{List, [], ◌∷◌}
use native.Mathlib.Omega.{arith}
use text.Mathlib.Text.{◌==◌ as text_eq}
use text.Mathlib.TextEquality.{eq_iff}
use devmate.Prelude.Tests.{◌==◌, leb}
use devmate.Prelude.Lists.{all, any}

abbrev pub str_eq : String → String → Bool
str_eq = text_eq

-- The white space that `String.prototype.trim` removes, by code point.
abbrev pub is_space : ℕ → Bool
is_space c =
    (leb 9 c && leb c 13)
    || c == 32
    || c == 160
    || c == 0x1680
    || (leb 0x2000 c && leb c 0x200a)
    || c == 0x2028
    || c == 0x2029
    || c == 0x202f
    || c == 0x205f
    || c == 0x3000
    || c == 0xfeff

-- `s.trim() === ''`.
unfoldable pub is_blank : String → Bool
is_blank String.[] = true
is_blank (String.◌∷◌ c s) = is_space (code c) && is_blank s

-- `names.includes(k)`.
abbrev pub includes : List String → String → Bool
includes names k = any (λ n. str_eq n k) names

-- What a test finds true of every name is true of a name that the list includes.
pub includes-all :
    (test : String → Bool) (names : List String) (k : String)
    → includes names k ≡ true
    → all test names ≡ true
    → test k ≡ true
includes-all test [] k found checked = ground arith
includes-all test (n ∷ names) k found checked =
    ground (arith, eq_iff n k, includes-all test names k)
