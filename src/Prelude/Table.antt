-- ===== src/Prelude/Table.antt =====
-- Own-property lookup tables (lib/object-utils.mjs `getOwn`): an object literal is the list of its
-- entries, in the order of the source.
use Prim.Native.String.{String}
use mathlib.Core.Path.{◌≡◌}
use mathlib.Core.Bool.{Bool, true}
use mathlib.Core.Option.{Option, none, some}
use mathlib.Core.List.{List, [], ◌∷◌}
use native.Mathlib.Omega.{arith}
use text.Mathlib.TextEquality.{eq_iff}
use devmate.Prelude.Tests.{if◌then◌else◌}
use devmate.Prelude.Lists.{all}
use devmate.Prelude.Text.{str_eq}

abbrev pub Table {ℓ} : Type ℓ → Type ℓ
Table V = List (String × V)

module _ {ℓ} {V : Type ℓ} where
  unfoldable pub get_own : Table V → String → Option V
  get_own [] key = none
  get_own ((k, v) ∷ table) key = if str_eq k key then some v else get_own table key

  -- `Object.values`, `Object.keys`.
  abbrev pub values : Table V → List V
  values [] = []
  values ((_, v) ∷ table) = v ∷ values table

  abbrev pub keys : Table V → List String
  keys [] = []
  keys ((k, _) ∷ table) = k ∷ keys table

  -- What a test finds true of every entry is true of the entry that a lookup finds.
  pub get_own-all :
      (test : String → V → Bool) (table : Table V) (key : String) (v : V)
      → get_own table key ≡ some v
      → all (λ e. test e.0 e.1) table ≡ true
      → test key v ≡ true
  unfolding get_own
  get_own-all test [] key v found checked = ground arith
  get_own-all test ((k, w) ∷ table) key v found checked =
      ground (arith, eq_iff k key, get_own-all test table key v)
