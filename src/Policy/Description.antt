-- ===== src/Policy/Description.antt =====
-- The default message of a policy: `describe` of each resolver in policy-field-resolvers.ts,
-- condition-description.utils.ts, and `buildDefaultMessage` of condition-evaluator.ts.
use expentra.Prelude.{
  ℕ, String, Bool, false, Option, none, some, List, [], ◌∷◌, map, not, ◌<>◌, if◌then◌else◌,
}
use expentra.Entities.{ExpenseCategory}
use expentra.Policy.Json.{
  Number, nat, same_number, number_lt, Json, bool, arr, items, Js, string_of, number_of,
}
use expentra.Policy.Types.{
  PolicyConditionOperator, PolicyCondition, Match, ConditionalPolicyConfig, category_of,
}
use expentra.Policy.Resolvers.{PolicyField, get_field, param_category, param_window_days}

-- `CATEGORY_LABELS`
abbrev category_label : ExpenseCategory → String
category_label ExpenseCategory.travel = "Travel"
category_label ExpenseCategory.meals = "Meals"
category_label ExpenseCategory.supplies = "Supplies"
category_label ExpenseCategory.others = "Others"

-- `formatCategoryLabel`
pub format_category_label : String → String
format_category_label s = elim (category_of s) [ none ↦ s | some c ↦ category_label c ]

-- `WEEKDAY_NAMES`
abbrev weekday_names : List (ℕ × String)
weekday_names =
    (0, "Sunday")
    ∷ (1, "Monday")
    ∷ (2, "Tuesday")
    ∷ (3, "Wednesday")
    ∷ (4, "Thursday")
    ∷ (5, "Friday")
    ∷ (6, "Saturday")
    ∷ []

abbrev name_of_day : List (ℕ × String) → Number → Option String
name_of_day [] n = none
name_of_day ((d, s) ∷ ds) n = if same_number (nat d) n then some s else name_of_day ds n

-- `items.join(', ')`
join_comma : List String → String
join_comma [] = ""
join_comma (s ∷ []) = s
join_comma (s ∷ t ∷ ts) = s <> (", " <> join_comma (t ∷ ts))

-- All but the last of three items or more, and then the last.
join_last : String → List String → String
join_last conjunction [] = ""
join_last conjunction (s ∷ []) = ", " <> (conjunction <> (" " <> s))
join_last conjunction (s ∷ t ∷ ts) = ", " <> (s <> join_last conjunction (t ∷ ts))

-- `joinNaturalLanguage`
pub join_natural_language : List String → String → String
unfolding join_last
join_natural_language [] conjunction = ""
join_natural_language (s ∷ []) conjunction = s
join_natural_language (s ∷ t ∷ []) conjunction = s <> (" " <> (conjunction <> (" " <> t)))
join_natural_language (s ∷ t ∷ u ∷ ts) conjunction = s <> join_last conjunction (t ∷ u ∷ ts)

abbrev or_this_category : Option String → String
or_this_category none = "this category"
or_this_category (some s) = s

abbrev is_true : Json → Bool
is_true (bool b) = b
is_true _ = false

-- `Number.isFinite(days) && days > 0`
abbrev positive_days : Option Number → Option Number
positive_days none = none
positive_days (some n) = if number_lt (nat 0) n then some n else none

module _ (js : Js) where
  abbrev number_text_of : Option Number → String
  number_text_of none = "NaN"
  number_text_of (some n) = js.number_text n

  -- `capitalizeFirst`
  pub capitalize_first : String → String
  capitalize_first String.[] = ""
  capitalize_first (String.◌∷◌ c s) = js.to_upper (String.◌∷◌ c "") <> s

  -- `formatKobo(Number(v))`
  format_kobo : Json → String
  format_kobo v = "₦" <> (elim (number_of js v) [ none ↦ "NaN" | some n ↦ js.to_fixed n ])

  -- `formatWeekday(Number(v))`
  format_weekday : Json → String
  format_weekday v = elim (number_of js v) [
    | none ↦ "NaN"
    | some n ↦ elim (name_of_day weekday_names n) [ none ↦ js.number_text n | some s ↦ s ]
  ]

  -- A value, or the items of an array with commas.
  format_each : (Json → String) → Json → String
  unfolding join_comma
  format_each f (arr xs) = join_comma (map f (items xs))
  format_each f v = f v

  -- The endings of the descriptions of an amount.
  format_range : PolicyConditionOperator → String → String
  format_range PolicyConditionOperator.gte amount = "at least " <> amount
  format_range PolicyConditionOperator.gt amount = "more than " <> amount
  format_range PolicyConditionOperator.lte amount = amount <> " or less"
  format_range PolicyConditionOperator.lt amount = "less than " <> amount
  format_range PolicyConditionOperator.eq amount = "exactly " <> amount
  format_range _ amount = amount

  -- `describe` of `AmountFieldResolver`
  describe_amount : PolicyCondition → String
  unfolding format_range
  describe_amount c =
      let amount = format_kobo c.value in
      let ending : String = elim c.operator [
        | PolicyConditionOperator.neq ↦ "not " <> amount
        | other ↦ format_range other amount
      ] in
      "the expense amount is " <> ending

  -- `describe` of `CategoryFieldResolver`
  describe_category : PolicyCondition → String
  describe_category c =
      let label = λ (v : Json). format_category_label (string_of js v) in
      let ending : String = elim c.operator [
        | PolicyConditionOperator.neq ↦ "not " <> label c.value
        | PolicyConditionOperator.in_list ↦ format_each label c.value
        | PolicyConditionOperator.not_in_list ↦ "not " <> format_each label c.value
        | _ ↦ label c.value
      ] in
      "the category is " <> ending

  abbrev is_number : ℕ → Option Number → Bool
  is_number k none = false
  is_number k (some n) = same_number n (nat k)

  abbrev at_most_one : Option Number → Bool
  at_most_one none = false
  at_most_one (some n) = not (number_lt (nat 1) n)

  -- `describe` of `AttachmentCountFieldResolver`, for a count that is a whole number.
  describe_attachment_count : PolicyCondition → String
  describe_attachment_count c =
      let n = number_of js c.value in
      let count = number_text_of n in
      let s = if is_number 1 n then "" else "s" in
      elim c.operator [
        | PolicyConditionOperator.eq ↦
            if is_number 0 n
            then "no receipts are attached"
            else "exactly "
              <> (count
                  <> (" receipt"
                      <> (s <> ((if is_number 1 n then " is" else " are") <> " attached"))))
        | PolicyConditionOperator.neq ↦
            if is_number 0 n
            then "at least one receipt is attached"
            else "the number of receipts is not " <> count
        | PolicyConditionOperator.gte ↦
            if at_most_one n
            then "at least one receipt is required"
            else "at least " <> (count <> " receipts are required")
        | PolicyConditionOperator.gt ↦
            "more than "
            <> (count
                <> (" receipt"
                    <> (s <> ((if is_number 0 n then " are" else " is") <> " required"))))
        | PolicyConditionOperator.lte ↦
            if is_number 0 n
            then "no receipts should be attached"
            else "no more than " <> (count <> (" receipt" <> (s <> " should be attached")))
        | PolicyConditionOperator.lt ↦
            "fewer than " <> (count <> (" receipt" <> (s <> " are attached")))
        | _ ↦ "the receipt count is " <> count
      ]

  -- `describe` of `SubmittedDayFieldResolver`
  describe_submitted_day : PolicyCondition → String
  describe_submitted_day c = elim c.operator [
    | PolicyConditionOperator.in_list ↦
        "the expense was submitted on " <> format_each format_weekday c.value
    | PolicyConditionOperator.not_in_list ↦
        "the expense was not submitted on " <> format_each format_weekday c.value
    | _ ↦ "the expense was submitted on " <> format_weekday c.value
  ]

  -- `describe` of `MonthlyCategorySpendFieldResolver`
  describe_monthly_category_spend : PolicyCondition → String
  unfolding format_range
  describe_monthly_category_spend c =
      format_category_label (or_this_category (param_category c.params))
      <> (" monthly spend is " <> format_range c.operator (format_kobo c.value))

  within_days : Option Number → String → String → String → String
  within_days none before after otherwise = otherwise
  within_days (some n) before after otherwise =
      before <> (js.number_text n <> ((if same_number n (nat 1) then " day" else " days") <> after))

  -- `describe` of `DuplicateExpenseFieldResolver`
  describe_duplicate : PolicyCondition → String
  unfolding within_days
  describe_duplicate c =
      let days = positive_days (param_window_days c.params) in
      if is_true c.value
      then within_days days "a similar expense was submitted within the last " ""
          "a similar expense was submitted recently"
      else within_days days "no similar expense exists within the last " ""
          "no similar expense exists recently"

  describe : PolicyField → PolicyCondition → String
  describe PolicyField.amount c = describe_amount c
  describe PolicyField.category c = describe_category c
  describe PolicyField.attachment_count c = describe_attachment_count c
  describe PolicyField.submitted_day_of_week c = describe_submitted_day c
  describe PolicyField.monthly_category_spend c = describe_monthly_category_spend c
  describe PolicyField.has_duplicate_expense c = describe_duplicate c

  -- `PolicyFieldResolverRegistry.describeCondition`
  pub describe_condition : PolicyCondition → String
  unfolding describe
  describe_condition c = elim (get_field c.key) [ none ↦ c.key | some f ↦ describe f c ]

  -- `buildDefaultMessage`
  pub build_default_message : ConditionalPolicyConfig → String
  build_default_message config =
      let conjunction : String = elim config.mode [ Match.any ↦ "or" | Match.all ↦ "and" ] in
      let summaries = map describe_condition config.conditions in
      capitalize_first (join_natural_language summaries conjunction) <> "."
