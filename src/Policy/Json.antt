-- ===== src/Policy/Json.antt =====
-- The values that policy configurations hold (`unknown`, read from a `jsonb` column), and the
-- conversions of JavaScript that modules/policy/engine applies to them.
use expentra.Prelude.{
  ℕ, String, Bool, true, false, Option, none, some, List, [], ◌∷◌, ◌&&◌, ◌||◌, ◌==◌, ltb, same_text,
  ◌<>◌, if◌then◌else◌,
}
use expentra.Prelude.Int.{ℤ, pos, negsuc, pos_part, neg_part}

-- A finite number: the greatest integer that is not above it, and what is left, counted in units of
-- 2 ^ -1074, of which every double is a multiple.
pub record Number : Type 0 where
  pub floor : ℤ
  pub part : ℕ

abbrev pub nat : ℕ → Number
nat n = record { floor = pos n; part = 0 }

abbrev same_int : ℤ → ℤ → Bool
same_int a b = pos_part a == pos_part b && neg_part a == neg_part b

abbrev int_lt : ℤ → ℤ → Bool
int_lt (pos a) (pos b) = ltb a b
int_lt (pos a) (negsuc b) = false
int_lt (negsuc a) (pos b) = true
int_lt (negsuc a) (negsuc b) = ltb b a

-- `a === b` and `a < b` on numbers.
abbrev pub same_number : Number → Number → Bool
same_number a b = same_int a.floor b.floor && a.part == b.part

abbrev pub number_lt : Number → Number → Bool
number_lt a b = int_lt a.floor b.floor || (same_int a.floor b.floor && ltb a.part b.part)

abbrev pub is_positive : ℤ → Bool
is_positive (pos n) = ltb 0 n
is_positive (negsuc n) = false

-- Arrays and objects of values; a key that is undefined is absent.
mutual
  pub data Json : Type 0 where
    null : Json
    bool : Bool → Json
    num : Number → Json
    text : String → Json
    arr : Items → Json
    obj : Fields → Json

  pub data Items : Type 0 where
    nil : Items
    cons : Json → Items → Items

  pub data Fields : Type 0 where
    end : Fields
    field : String → Json → Fields → Fields

-- `o[key]`
abbrev pub get : String → Fields → Option Json
get key end = none
get key (field k v fs) = if same_text k key then some v else get key fs

-- `{ [key]: value, ...fields }`, where the value may be undefined.
abbrev pub put : String → Option Json → Fields → Fields
put key none fs = fs
put key (some v) fs = field key v fs

abbrev pub items : Items → List Json
items nil = []
items (cons x xs) = x ∷ items xs

abbrev pub array : List Json → Items
array [] = nil
array (x ∷ xs) = cons x (array xs)

abbrev pub bool_text : Bool → String
bool_text true = "true"
bool_text false = "false"

-- `a === b`; arrays and objects that are read at different places are different.
abbrev pub same_value : Json → Json → Bool
same_value null null = true
same_value (bool true) (bool b) = b
same_value (bool false) (bool true) = false
same_value (bool false) (bool false) = true
same_value (num a) (num b) = same_number a b
same_value (text a) (text b) = same_text a b
same_value _ _ = false

-- `typeof v === 'string'`
abbrev pub as_text : Json → Option String
as_text (text s) = some s
as_text _ = none

-- `Number.isInteger(v)`
abbrev pub is_integer : Json → Bool
is_integer (num n) = n.part == 0
is_integer _ = false

-- Conversions of the JavaScript runtime.
pub record Js : Type 0 where
  pub number_text : Number → String  -- `String(n)`
  pub number_of_text : String → Option Number  -- `Number(s)`, or `none` where that is not finite
  pub to_fixed : Number → String  -- `(n / 100).toFixed(2)`
  pub to_upper : String → String  -- `toUpperCase`

module _ (js : Js) where
  -- `String(v)`; in an array, null is printed as nothing.
  mutual
    to_text : Json → String
    to_text null = "null"
    to_text (bool b) = bool_text b
    to_text (num n) = js.number_text n
    to_text (text s) = s
    to_text (arr xs) = items_text true xs
    to_text (obj fs) = "[object Object]"

    items_text : Bool → Items → String
    items_text first nil = ""
    items_text first (cons null xs) = (if first then "" else ",") <> items_text false xs
    items_text first (cons x xs) = (if first then "" else ",") <> (to_text x <> items_text false xs)

  unfoldable pub string_of : Json → String
  unfolding to_text
  string_of v = to_text v

  -- `Number(v)`, or `none` where that is not finite.
  unfoldable pub number_of : Json → Option Number
  number_of null = some (nat 0)
  number_of (bool true) = some (nat 1)
  number_of (bool false) = some (nat 0)
  number_of (num n) = some n
  number_of (text s) = js.number_of_text s
  number_of (arr xs) = js.number_of_text (string_of (arr xs))
  number_of (obj fs) = none
