-- ===== src/Samples/Strings.antt =====
-- Strings in the order of the numbers of their characters.
use expentra.Prelude.{
  String, Bool, true, false, ◌==◌, ltb, if◌then◌else◌, ◌≡◌, refl, arith, eq_iff, ◌<>◌,
}
use mathlib.Core.Path.{ap₂}
use Prim.Native.Char.{code}
use text.Mathlib.TextEquality.{codes_equal}
use expentra.Policy.Json.{Json, obj, Fields, field, end}
use expentra.Idempotency.Key.{HashRuntime, IsStrictOrder}

unfoldable pub text_before : String → String → Bool
text_before String.[] String.[] = false
text_before String.[] (String.◌∷◌ d t) = true
text_before (String.◌∷◌ c s) String.[] = false
text_before (String.◌∷◌ c s) (String.◌∷◌ d t) =
    let rest = text_before s t in
    if ltb (code c) (code d) then true else if code c == code d then rest else false

text_before-one_way : (s t : String) → text_before s t ≡ true → text_before t s ≡ false
unfolding text_before
text_before-one_way String.[] String.[] h = cc
text_before-one_way String.[] (String.◌∷◌ d t) h = refl
text_before-one_way (String.◌∷◌ c s) String.[] h = cc
text_before-one_way (String.◌∷◌ c s) (String.◌∷◌ d t) h = ground (arith, text_before-one_way s t)

text_before-through :
    (r s t : String) → text_before r s ≡ true → text_before s t ≡ true → text_before r t ≡ true
unfolding text_before
text_before-through String.[] String.[] t h g = cc
text_before-through String.[] (String.◌∷◌ d s) String.[] h g = cc
text_before-through String.[] (String.◌∷◌ d s) (String.◌∷◌ e t) h g = refl
text_before-through (String.◌∷◌ c r) String.[] t h g = cc
text_before-through (String.◌∷◌ c r) (String.◌∷◌ d s) String.[] h g = cc
text_before-through (String.◌∷◌ c r) (String.◌∷◌ d s) (String.◌∷◌ e t) h g =
    ground (arith, text_before-through r s t)

text_before-compares : (s t : String) → text_before s t ≡ false → text_before t s ≡ false → s ≡ t
unfolding text_before
text_before-compares String.[] String.[] h g = refl
text_before-compares String.[] (String.◌∷◌ d t) h g = cc
text_before-compares (String.◌∷◌ c s) String.[] h g = cc
text_before-compares (String.◌∷◌ c s) (String.◌∷◌ d t) h g =
    ap₂ String.◌∷◌ (codes_equal c d (ground arith))
      (text_before-compares s t (ground arith) (ground arith))

-- A printer that prints an object by its keys.
abbrev keys_of : Fields → String
keys_of end = ""
keys_of (field k v fs) = k <> "," <> keys_of fs

abbrev print : Json → String
print (obj fs) = keys_of fs
print _ = ""

abbrev pub by_codes : HashRuntime
by_codes = record { before = text_before; stringify = print; sha256_hex = λ s. s }

pub by_codes-IsStrictOrder : IsStrictOrder by_codes
by_codes-IsStrictOrder = record {
  one_way = text_before-one_way;
  through = text_before-through;
  compares = λ s t h g. (eq_iff s t).1 (text_before-compares s t h g);
}
