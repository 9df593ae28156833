-- ===== src/Policy/Validator.antt =====
-- modules/policy/engine/policy-config.validator.ts
use expentra.Prelude.{
  ℕ, suc, String, Bool, true, false, Option, none, some, List, [], ◌∷◌, is_empty, trim, same_text,
  if◌then◌else◌,
}
use expentra.Prelude.Result.{Exception, Result, ok, err, bad_request, throw_if, ◌>>=◌, ◌>>◌}
use expentra.Policy.Json.{
  Number, nat, Json, null, bool, num, text, arr, obj, nil, cons, Fields, end, field, get, put,
  items, array, Js, string_of, number_of,
}
use expentra.Policy.Types.{
  ExpensePolicyRuleType, PolicyConditionOperator, operator_of, ConditionParams, PolicyCondition,
  Match, ConditionalPolicyConfig,
}
use expentra.Policy.Resolvers.{about_condition, validate_condition}

-- The match mode that a value names.
abbrev pub match_of : Option Json → Option Match
match_of (some (text s)) =
    if same_text s "all" then some Match.all else if same_text s "any" then some Match.any else none
match_of _ = none

-- The items of an array that is not empty.
abbrev pub conditions_of : Option Json → Option (List Json)
conditions_of (some (arr (cons x xs))) = some (x ∷ items xs)
conditions_of _ = none

-- The value that a check found, or what it throws.
abbrev pub require {ℓ} : {A : Type ℓ} → Option A → Exception → Result A
require none x = err x
require (some a) x = ok a

abbrev pub blank_message : Option Json → Bool
blank_message none = false
blank_message (some (text s)) = is_empty (trim s)
blank_message (some _) = true

abbrev named_operator : Option Json → Option PolicyConditionOperator
named_operator (some (text s)) = operator_of s
named_operator _ = none

-- The message of a rule, where it is a string.
abbrev message_of : Fields → Option Json
message_of config = elim (get "message" config) [ some (text s) ↦ some (text s) | _ ↦ none ]

-- An object of a condition, whose value and parameters may be undefined.
abbrev raw_condition : String → String → Option Json → Option Json → Json
raw_condition key operator value params = obj (
    field "field" (text key)
      (field "operator" (text operator) (put "value" value (put "params" params end))))

-- A rule whose conditions must all hold.
abbrev raw_rule : Option Json → List Json → Fields
raw_rule message conditions =
    field "match" (text "all")
      (put "message" message (field "conditions" (arr (array conditions)) end))

abbrev categories_or_travel : Option Json → Json
categories_or_travel none = arr (cons (text "TRAVEL") nil)
categories_or_travel (some null) = arr (cons (text "TRAVEL") nil)
categories_or_travel (some v) = v

-- `legacyToConditional`; a conditional rule is not given to it.
unfoldable pub legacy_to_conditional : ExpensePolicyRuleType → Fields → Fields
legacy_to_conditional ExpensePolicyRuleType.conditional config = config
legacy_to_conditional ExpensePolicyRuleType.receipt_required config = raw_rule (message_of config) (
    raw_condition "amount" "gte" (get "minAmountKobo" config) none
    ∷ raw_condition "attachment_count" "eq" (some (num (nat 0))) none
    ∷ [])
legacy_to_conditional ExpensePolicyRuleType.category_monthly_cap config =
    let category = get "category" config in
    raw_rule (message_of config) (
      raw_condition "category" "eq" category none
      ∷ raw_condition "monthly_category_spend" "gt" (get "capKobo" config)
          (some (obj (put "category" category end)))
      ∷ [])
legacy_to_conditional ExpensePolicyRuleType.weekend_travel_justification config =
    raw_rule (message_of config) (
      raw_condition "category" "in" (some (categories_or_travel (get "categories" config))) none
      ∷ raw_condition "submitted_day_of_week" "in"
          (some (arr (cons (num (nat 0)) (cons (num (nat 6)) nil)))) none
      ∷ [])
legacy_to_conditional ExpensePolicyRuleType.duplicate_detection config =
    raw_rule (message_of config) (
      raw_condition "has_duplicate_expense" "eq" (some (bool true))
        (some (obj (put "windowDays" (get "windowDays" config) end)))
      ∷ [])

module _ (js : Js) where
  read_category : Option Json → Option String
  read_category none = none
  read_category (some v) = some (string_of js v)

  read_window_days : Option Json → Option (Option Number)
  read_window_days none = none
  read_window_days (some v) = some (number_of js v)

  -- The `params` of `parseCondition`. An array is an object with none of the two keys.
  unfoldable pub parse_params : Option Json → ℕ → Result (Option ConditionParams)
  unfolding read_category read_window_days
  parse_params none index = ok none
  parse_params (some (obj fs)) index = ok (
      some (record {
        category = read_category (get "category" fs);
        window_days = read_window_days (get "windowDays" fs);
      }))
  parse_params (some (arr xs)) index = ok (some (record { category = none; window_days = none }))
  parse_params (some _) index =
      err (bad_request (about_condition js index " params must be an object"))

  -- `parseCondition` on the keys of an object.
  unfoldable pub parse_fields : Fields → ℕ → Result PolicyCondition
  parse_fields raw index = elim (get "field" raw) [
    | some (text key) ↦ elim (named_operator (get "operator" raw)) [
      | none ↦ err (bad_request (about_condition js index " has an invalid operator"))
      | some operator ↦ elim (get "value" raw) [
        | none ↦ err (bad_request (about_condition js index " requires a value"))
        | some value ↦ do
          params ← parse_params (get "params" raw) index
          let condition : PolicyCondition = record {
            key = key;
            operator = operator;
            value = value;
            params = params;
          }
          validate_condition js condition index
          ok condition
      ]
    ]
    | _ ↦ err (bad_request (about_condition js index " has an invalid field"))
  ]

  -- `parseCondition`
  unfoldable pub parse_condition : Json → ℕ → Result PolicyCondition
  parse_condition (obj raw) index = parse_fields raw index
  parse_condition _ index = err (bad_request (about_condition js index " must be an object"))

  -- `config.conditions.map(...)`, from an index on.
  unfoldable pub parse_conditions : List Json → ℕ → Result (List PolicyCondition)
  parse_conditions [] index = ok []
  parse_conditions (v ∷ vs) index = do
    c ← parse_condition v index
    cs ← parse_conditions vs (suc index)
    ok (c ∷ cs)

  -- `PolicyConfigValidator.validate`
  unfoldable pub validate : Fields → Result ConditionalPolicyConfig
  validate config = do
    throw_if (blank_message (get "message" config))
        (bad_request "Policy message must be a non-empty string when provided")
    mode ←
        require (match_of (get "match" config))
          (bad_request "Policy match mode must be \"all\" or \"any\"")
    raw ←
        require (conditions_of (get "conditions" config))
          (bad_request "Policy requires at least one condition")
    conditions ← parse_conditions raw 0
    ok (record { mode = mode; conditions = conditions })

  -- `normalizeRuleConfig`
  unfoldable pub normalize_rule_config :
      ExpensePolicyRuleType → Fields → Result ConditionalPolicyConfig
  unfolding legacy_to_conditional
  normalize_rule_config rule_type config = validate (legacy_to_conditional rule_type config)
