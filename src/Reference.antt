-- ===== src/Reference.antt =====
-- database/helpers/entity-reference.util.ts and core/utils/entity-reference.repository.ts: external
-- references, and the search of a table by one.
use Prim.Native.Char.{code}
use expentra.Prelude.{
  ℕ, String, Bool, true, false, none, some, List, [], ◌∷◌, ◌&&◌, ◌||◌, leb, trim, find?, same_text,
}
use expentra.Prelude.Result.{Result, ok, err, not_found}

-- A class of characters in `ENTITY_REFERENCE_PATTERN`.
pub data CharClass : Type 0 where
  letter digit alphanumeric : CharClass

abbrev is_letter : ℕ → Bool
is_letter c = leb 65 c && leb c 90

abbrev is_digit : ℕ → Bool
is_digit c = leb 48 c && leb c 57

in_class : CharClass → ℕ → Bool
in_class letter c = is_letter c
in_class digit c = is_digit c
in_class alphanumeric c = is_letter c || is_digit c

-- The string has one character of each class, in order, and no more.
fits_classes : List CharClass → String → Bool
unfolding in_class
fits_classes [] String.[] = true
fits_classes [] (String.◌∷◌ c s) = false
fits_classes (k ∷ ks) String.[] = false
fits_classes (k ∷ ks) (String.◌∷◌ c s) = in_class k (code c) && fits_classes ks s

-- `ENTITY_REFERENCE_PATTERN`, whose matches have `ENTITY_REFERENCE_MAX_LENGTH` characters.
abbrev entity_reference_pattern : List CharClass
entity_reference_pattern =
    letter ∷ letter ∷ letter ∷ digit ∷ digit ∷ digit ∷ digit ∷ digit ∷ digit ∷ digit ∷ digit ∷ digit
    ∷ digit ∷ digit ∷ digit ∷ digit ∷ alphanumeric ∷ alphanumeric ∷ alphanumeric ∷ alphanumeric
    ∷ alphanumeric ∷ alphanumeric ∷ []

-- `to_upper` is `String.prototype.toUpperCase`.
module _ (to_upper : String → String) where
  -- `normalizeEntityReference`
  unfoldable pub normalize_entity_reference : String → String
  normalize_entity_reference value = to_upper (trim value)

  -- `isEntityReference`
  unfoldable pub is_entity_reference : String → Bool
  unfolding fits_classes
  is_entity_reference value =
      fits_classes entity_reference_pattern (normalize_entity_reference value)

  -- `findEntityByReference`, in a table whose rows have the given references.
  unfoldable pub find_entity_by_reference {ℓ} :
      {A : Type ℓ} → (A → String) → List A → String → String → Result A
  find_entity_by_reference reference_of rows reference message =
      let normalized = normalize_entity_reference reference in
      elim (is_entity_reference normalized) [
        | false ↦ err (not_found message)
        | true ↦ elim (find? (λ a. same_text (reference_of a) normalized) rows) [
          | none ↦ err (not_found message)
          | some a ↦ ok a
        ]
      ]
