-- ===== src/Json/Laws.antt =====
-- Reading a property after writing one.
use text.Mathlib.TextEquality.{eq_iff}
use devmate.Prelude.{◌≡◌, refl, String, some, if◌then◌else◌, arith}
use devmate.Prelude.Text.{str_eq}
use devmate.Json.{Json, Fields, end, field, get, set}

pub get-set :
    (fs : Fields) (k j : String) (v : Json)
    → get (set fs k v) j ≡ (if str_eq k j then some v else get fs j)
unfolding get set
get-set end k j v = refl
get-set (field i w fs) k j v = ground (arith, eq_iff k j, eq_iff i k, eq_iff i j, get-set fs k j v)
