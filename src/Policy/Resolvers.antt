-- ===== src/Policy/Resolvers.antt =====
-- modules/policy/engine/field-resolvers: the fields of an expense that a condition may test, the
-- checks of a condition on each (field-resolver.utils.ts and the classes of
-- policy-field-resolvers.ts), and the registry that finds a field by its key.
use expentra.Prelude.{
  ℕ, suc, String, Bool, true, false, Option, none, some, List, [], ◌∷◌, ◌&&◌, not, ◌==◌, any, all,
  is_empty, is_some, same_text, ◌<>◌, if◌then◌else◌,
}
use expentra.Prelude.Result.{Result, err, bad_request, throw_if, ◌>>◌}
use expentra.Policy.Json.{
  Number, nat, is_positive, Json, bool, num, text, arr, Items, items, is_integer, Js, number_of,
}
use expentra.Policy.Types.{
  PolicyConditionOperator, same_operator, operator_text, ConditionParams, PolicyCondition,
  category_of,
}

-- The resolvers that the registry is built with.
pub data PolicyField : Type 0 where
  amount category attachment_count : PolicyField
  submitted_day_of_week monthly_category_spend has_duplicate_expense : PolicyField

-- `PolicyFieldResolverRegistry.get`
unfoldable pub get_field : String → Option PolicyField
get_field key =
    if same_text key "amount"
    then some amount
    else if same_text key "category"
    then some category
    else if same_text key "attachment_count"
    then some attachment_count
    else if same_text key "submitted_day_of_week"
    then some submitted_day_of_week
    else if same_text key "monthly_category_spend"
    then some monthly_category_spend
    else if same_text key "has_duplicate_expense"
    then some has_duplicate_expense
    else none

-- `operators` of each resolver.
abbrev pub operators : PolicyField → List PolicyConditionOperator
operators amount =
    PolicyConditionOperator.eq ∷ PolicyConditionOperator.neq ∷ PolicyConditionOperator.gt
    ∷ PolicyConditionOperator.gte ∷ PolicyConditionOperator.lt ∷ PolicyConditionOperator.lte ∷ []
operators category =
    PolicyConditionOperator.eq ∷ PolicyConditionOperator.neq ∷ PolicyConditionOperator.in_list
    ∷ PolicyConditionOperator.not_in_list ∷ []
operators attachment_count =
    PolicyConditionOperator.eq ∷ PolicyConditionOperator.neq ∷ PolicyConditionOperator.gt
    ∷ PolicyConditionOperator.gte ∷ PolicyConditionOperator.lt ∷ PolicyConditionOperator.lte ∷ []
operators submitted_day_of_week =
    PolicyConditionOperator.eq ∷ PolicyConditionOperator.in_list
    ∷ PolicyConditionOperator.not_in_list ∷ []
operators monthly_category_spend =
    PolicyConditionOperator.gt ∷ PolicyConditionOperator.gte ∷ PolicyConditionOperator.lt
    ∷ PolicyConditionOperator.lte ∷ PolicyConditionOperator.eq ∷ []
operators has_duplicate_expense = PolicyConditionOperator.eq ∷ []

abbrev pub tests_list : PolicyConditionOperator → Bool
tests_list PolicyConditionOperator.in_list = true
tests_list PolicyConditionOperator.not_in_list = true
tests_list _ = false

abbrev is_positive_integer : Json → Bool
is_positive_integer (num n) = n.part == 0 && is_positive n.floor
is_positive_integer _ = false

abbrev is_category : Json → Bool
is_category (text s) = is_some (category_of s)
is_category _ = false

abbrev is_bool : Json → Bool
is_bool (bool b) = true
is_bool _ = false

-- An array that is not empty, and whose items all pass.
abbrev is_list_of : (Json → Bool) → Json → Bool
is_list_of p (arr Items.nil) = false
is_list_of p (arr (Items.cons x xs)) = all p (x ∷ items xs)
is_list_of p _ = false

abbrev is_whole : Option Number → Bool
is_whole none = false
is_whole (some n) = n.part == 0

abbrev pub param_category : Option ConditionParams → Option String
param_category none = none
param_category (some p) = p.category

-- `Number(condition.params?.windowDays)`
abbrev pub param_window_days : Option ConditionParams → Option Number
param_window_days none = none
param_window_days (some p) = elim p.window_days [ none ↦ none | some n ↦ n ]

abbrev lacks_category : Option String → Bool
lacks_category none = true
lacks_category (some s) = is_empty s

abbrev is_positive_whole : Option Number → Bool
is_positive_whole none = false
is_positive_whole (some n) = n.part == 0 && is_positive n.floor

module _ (js : Js) where
  -- `Condition ${index + 1} ...`
  abbrev pub about_condition : ℕ → String → String
  about_condition index rest = "Condition " <> (js.number_text (nat (suc index)) <> rest)

  -- `assertPositiveKobo`
  pub assert_positive_kobo : PolicyCondition → ℕ → String → Result (Unit {0})
  assert_positive_kobo c index label =
      throw_if (not (is_positive_integer c.value)) (
        bad_request
          (about_condition index (" " <> (label <> " must be a positive amount in kobo"))))

  -- `assertIntegerValue`
  pub assert_integer_value : PolicyCondition → ℕ → Result (Unit {0})
  assert_integer_value c index =
      throw_if (not (is_integer c.value))
        (bad_request (about_condition index " requires a numeric value"))

  -- `assertCategoryValue`
  pub assert_category_value : PolicyCondition → ℕ → Result (Unit {0})
  assert_category_value c index =
      if tests_list c.operator
      then throw_if (not (is_list_of is_category c.value))
          (bad_request (about_condition index " category list is invalid"))
      else throw_if (not (is_category c.value))
          (bad_request (about_condition index " category value is invalid"))

  -- `assertWeekdayValue`
  pub assert_weekday_value : PolicyCondition → ℕ → Result (Unit {0})
  assert_weekday_value c index =
      if tests_list c.operator
      then throw_if (not (is_list_of (λ x. is_whole (number_of js x)) c.value))
          (bad_request (about_condition index " weekday list is invalid"))
      else throw_if (not (is_integer c.value))
          (bad_request (about_condition index " requires a numeric weekday"))

  -- `assertRequiredParam` of `category`
  pub assert_category_param : PolicyCondition → ℕ → Result (Unit {0})
  assert_category_param c index =
      throw_if (lacks_category (param_category c.params))
        (bad_request (about_condition index " requires a category param"))

  -- `assertRequiredParam` of `windowDays`
  pub assert_window_days_param : PolicyCondition → ℕ → Result (Unit {0})
  assert_window_days_param c index =
      throw_if (not (is_positive_whole (param_window_days c.params)))
        (bad_request (about_condition index " requires a positive windowDays param"))

  -- `validateCondition` of each resolver.
  unfoldable pub validate_value : PolicyField → PolicyCondition → ℕ → Result (Unit {0})
  unfolding assert_positive_kobo assert_category_value assert_integer_value assert_weekday_value
      assert_category_param assert_window_days_param
  validate_value amount c index = assert_positive_kobo c index "amount"
  validate_value category c index = assert_category_value c index
  validate_value attachment_count c index = assert_integer_value c index
  validate_value submitted_day_of_week c index = assert_weekday_value c index
  validate_value monthly_category_spend c index = do
    assert_category_param c index
    assert_positive_kobo c index "spend cap"
  validate_value has_duplicate_expense c index = do
    throw_if (not (is_bool c.value))
        (bad_request (about_condition index " duplicate value must be true or false"))
    assert_window_days_param c index

  -- `PolicyFieldResolverRegistry.validateCondition`
  unfoldable pub validate_condition : PolicyCondition → ℕ → Result (Unit {0})
  validate_condition c index = elim (get_field c.key) [
    | none ↦
        err (bad_request (about_condition index (" uses unsupported field \"" <> (c.key <> "\""))))
    | some f ↦ do
      throw_if (not (any (same_operator c.operator) (operators f))) (
          bad_request (
            about_condition index
              (" operator \"" <> (operator_text c.operator <> ("\" is invalid for " <> c.key)))))
      validate_value f c index
  ]
