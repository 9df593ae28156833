-- ===== src/Policy/Evaluator.antt =====
-- modules/policy/engine/condition-evaluator.ts: whether an expense violates the conditions of a
-- policy, with the values that the resolvers of policy-field-resolvers.ts read.
use expentra.Prelude.{
  ℕ, ◌+◌, ◌/◌, ◌%◌, String, Bool, true, false, Option, none, some, List, ◌||◌, not, any, all,
  same_text, if◌then◌else◌,
}
use expentra.Prelude.Int.{pos_part}
use expentra.Store.{Db}
use expentra.Runtime.{Runtime}
use expentra.Expense.Support.{PolicyEvaluationContext}
use expentra.Policy.Json.{
  Number, nat, number_lt, Json, bool, num, text, arr, items, same_value, Js, string_of, number_of,
}
use expentra.Policy.Types.{
  PolicyConditionOperator, ConditionParams, PolicyCondition, Match, ConditionalPolicyConfig,
  category_text,
}
use expentra.Policy.Resolvers.{PolicyField, get_field, param_category, param_window_days}
use expentra.Policy.History.{load_monthly_category_spend, load_duplicate_expense}

-- `getUTCDay`: the first of January 1970 was a Thursday.
abbrev pub utc_day : ℕ → ℕ
utc_day t = (t / 86400000 + 4) % 7

-- The whole days of the window, which validation found to be a positive whole number.
abbrev window_days_of : Option ConditionParams → ℕ
window_days_of params = elim (param_window_days params) [ none ↦ 0 | some n ↦ pos_part n.floor ]

abbrev category_or_blank : Option String → String
category_or_blank none = ""
category_or_blank (some s) = s

-- `resolve` of each resolver.
unfoldable pub resolve :
    Runtime → PolicyEvaluationContext → Db → PolicyField → Option ConditionParams → Json
resolve rt context db PolicyField.amount params = num (nat context.amount)
resolve rt context db PolicyField.category params = text (category_text context.category)
resolve rt context db PolicyField.attachment_count params = num (nat context.attachment_count)
resolve rt context db PolicyField.submitted_day_of_week params =
    num (nat (utc_day context.submitted_at))
resolve rt context db PolicyField.monthly_category_spend params =
    num
      (nat (load_monthly_category_spend rt context (category_or_blank (param_category params)) db))
resolve rt context db PolicyField.has_duplicate_expense params =
    bool (load_duplicate_expense context (window_days_of params) db)

abbrev names_category : PolicyEvaluationContext → Option String → Bool
names_category context none = false
names_category context (some s) = same_text (category_text context.category) s

-- `conditionAppliesToExpense`
unfoldable pub condition_applies_to_expense : PolicyCondition → PolicyEvaluationContext → Bool
condition_applies_to_expense c context =
    if not (same_text c.key "monthly_category_spend")
    then true
    else names_category context (param_category c.params)

-- A comparison with a value that is no number does not hold.
abbrev on_numbers : (Number → Number → Bool) → Option Number → Option Number → Bool
on_numbers test none b = false
on_numbers test (some a) none = false
on_numbers test (some a) (some b) = test a b

abbrev list_items : Json → Option (List Json)
list_items (arr xs) = some (items xs)
list_items _ = none

module _ (js : Js) where
  abbrev matches_item : Json → Json → Bool
  matches_item actual item =
      same_value item actual || same_text (string_of js item) (string_of js actual)

  -- `compare`
  unfoldable pub compare_values : Json → PolicyConditionOperator → Json → Bool
  compare_values actual PolicyConditionOperator.eq expected = same_value actual expected
  compare_values actual PolicyConditionOperator.neq expected = not (same_value actual expected)
  compare_values actual PolicyConditionOperator.gt expected =
      on_numbers (λ a b. number_lt b a) (number_of js actual) (number_of js expected)
  compare_values actual PolicyConditionOperator.gte expected =
      on_numbers (λ a b. not (number_lt a b)) (number_of js actual) (number_of js expected)
  compare_values actual PolicyConditionOperator.lt expected =
      on_numbers (λ a b. number_lt a b) (number_of js actual) (number_of js expected)
  compare_values actual PolicyConditionOperator.lte expected =
      on_numbers (λ a b. not (number_lt b a)) (number_of js actual) (number_of js expected)
  compare_values actual PolicyConditionOperator.in_list expected = elim (list_items expected) [
    | none ↦ false
    | some xs ↦ any (matches_item actual) xs
  ]
  compare_values actual PolicyConditionOperator.not_in_list expected = elim (list_items expected) [
    | none ↦ false
    | some xs ↦ not (any (matches_item actual) xs)
  ]

  -- `evaluateCondition`; `unknown` is `treatUnknownFieldsAsViolated`.
  unfoldable pub evaluate_condition :
      Runtime → PolicyEvaluationContext → Db → Bool → PolicyCondition → Bool
  evaluate_condition rt context db unknown c = elim (get_field c.key) [
    | none ↦ unknown
    | some f ↦
        if not (condition_applies_to_expense c context)
        then false
        else compare_values (resolve rt context db f c.params) c.operator c.value
  ]

  -- `isViolated`
  unfoldable pub is_violated :
      Runtime → PolicyEvaluationContext → Db → Bool → ConditionalPolicyConfig → Bool
  is_violated rt context db unknown config = elim config.mode [
    | Match.all ↦ all (evaluate_condition rt context db unknown) config.conditions
    | Match.any ↦ any (evaluate_condition rt context db unknown) config.conditions
  ]
