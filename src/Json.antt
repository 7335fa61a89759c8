-- ===== src/Json.antt =====
-- Values of `JSON.parse` and what the program reads off them: own properties, `typeof`, the
-- integer tests, and lib/object-utils.mjs. A number is a natural number (with -0 read as 0), a
-- negative integer, or one of the numbers that are no integer.
pub mod Laws
use devmate.Prelude.{
  ℕ, String, List, [], ◌∷◌, Bool, true, false, not, Option, none, some, if◌then◌else◌,
}
use devmate.Prelude.Text.{str_eq, is_blank}

pub data Number : Type 0 where
  nat : ℕ → Number
  negsuc : ℕ → Number
  fraction : ℕ → Number

mutual
  pub data Json : Type 0 where
    null : Json
    bool : Bool → Json
    num : Number → Json
    str : String → Json
    arr : Items → Json
    obj : Fields → Json

  pub data Items : Type 0 where
    nil : Items
    cons : Json → Items → Items

  pub data Fields : Type 0 where
    end : Fields
    field : String → Json → Fields → Fields

-- `obj[key]`, where an absent key reads as `undefined`.
unfoldable pub get : Fields → String → Option Json
get end key = none
get (field k v fs) key = if str_eq k key then some v else get fs key

-- `{ ...obj, [key]: value }`.
unfoldable pub set : Fields → String → Json → Fields
set end key v = field key v end
set (field k w fs) key v = if str_eq k key then field k v fs else field k w (set fs key v)

abbrev pub items : Items → List Json
items nil = []
items (cons v vs) = v ∷ items vs

-- Own properties of an object or an array; an array has none of the names that the program reads.
abbrev pub look : Json → String → Option Json
look (obj fs) key = get fs key
look _ key = none

-- `typeof value === 'string'`, `isNonEmptyString`, `isPlainRecord` of lib/object-utils.mjs, also at
-- `undefined`.
abbrev pub is_string : Option Json → Bool
is_string (some (str _)) = true
is_string _ = false

abbrev pub is_non_empty_string : Option Json → Bool
is_non_empty_string (some (str s)) = not (is_blank s)
is_non_empty_string _ = false

abbrev pub is_boolean : Option Json → Bool
is_boolean (some (bool _)) = true
is_boolean _ = false

abbrev pub is_plain_record : Option Json → Bool
is_plain_record (some (obj _)) = true
is_plain_record _ = false

-- `typeof v === 'number' && Number.isInteger(v) && v >= 0`.
abbrev pub is_count : Option Json → Bool
is_count (some (num (nat _))) = true
is_count _ = false

-- A property that the program's types declare a string. A value that breaks the declaration
-- reads as the empty text, which no table of the program has as a key.
abbrev pub text_of : Option Json → String
text_of (some (str s)) = s
text_of _ = ""
