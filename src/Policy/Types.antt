-- ===== src/Policy/Types.antt =====
-- modules/policy/types/policy.types.ts, engine/policy.constants.ts and the enums and the entity of
-- an expense policy in database/entities.
use expentra.Prelude.{ℕ, String, Bool, Option, none, some, List, ◌==◌, same_text, if◌then◌else◌}
use expentra.Entities.{ExpenseCategory}
use expentra.Policy.Json.{Number, Json, Fields}

pub data ExpensePolicyRuleType : Type 0 where
  conditional receipt_required category_monthly_cap : ExpensePolicyRuleType
  weekend_travel_justification duplicate_detection : ExpensePolicyRuleType

pub data ExpensePolicySeverity : Type 0 where
  block warn : ExpensePolicySeverity

abbrev pub severity_code : ExpensePolicySeverity → ℕ
severity_code block = 0
severity_code warn = 1

abbrev pub same_severity : ExpensePolicySeverity → ExpensePolicySeverity → Bool
same_severity a b = severity_code a == severity_code b

pub record ExpensePolicy : Type 0 where
  pub id : ℕ
  pub reference : String
  pub name : String
  pub rule_type : ExpensePolicyRuleType
  pub severity : ExpensePolicySeverity
  pub is_active : Bool
  pub config : Fields
  pub created_at : ℕ

pub data PolicyConditionOperator : Type 0 where
  eq neq gt gte lt lte in_list not_in_list : PolicyConditionOperator

abbrev pub operator_code : PolicyConditionOperator → ℕ
operator_code eq = 0
operator_code neq = 1
operator_code gt = 2
operator_code gte = 3
operator_code lt = 4
operator_code lte = 5
operator_code in_list = 6
operator_code not_in_list = 7

abbrev pub same_operator : PolicyConditionOperator → PolicyConditionOperator → Bool
same_operator a b = operator_code a == operator_code b

abbrev pub operator_text : PolicyConditionOperator → String
operator_text eq = "eq"
operator_text neq = "neq"
operator_text gt = "gt"
operator_text gte = "gte"
operator_text lt = "lt"
operator_text lte = "lte"
operator_text in_list = "in"
operator_text not_in_list = "not_in"

-- The operator of `POLICY_CONDITION_OPERATORS` that a string names.
unfoldable pub operator_of : String → Option PolicyConditionOperator
operator_of s =
    if same_text s "eq"
    then some eq
    else if same_text s "neq"
    then some neq
    else if same_text s "gt"
    then some gt
    else if same_text s "gte"
    then some gte
    else if same_text s "lt"
    then some lt
    else if same_text s "lte"
    then some lte
    else if same_text s "in"
    then some in_list
    else if same_text s "not_in"
    then some not_in_list
    else none

-- `window_days` is `none` inside where `Number` gave no finite number.
pub record ConditionParams : Type 0 where
  pub category : Option String
  pub window_days : Option (Option Number)

pub record PolicyCondition : Type 0 where
  pub key : String  -- `field`
  pub operator : PolicyConditionOperator
  pub value : Json
  pub params : Option ConditionParams

pub data Match : Type 0 where
  all any : Match

-- `validate` returns no message.
pub record ConditionalPolicyConfig : Type 0 where
  pub mode : Match  -- `match`
  pub conditions : List PolicyCondition

pub record PolicyViolation : Type 0 where
  pub policy_reference : String
  pub policy_name : String
  pub rule_type : ExpensePolicyRuleType
  pub severity : ExpensePolicySeverity
  pub message : String

pub record PolicyEvaluationResult : Type 0 where
  pub violations : List PolicyViolation
  pub blocking_violations : List PolicyViolation
  pub warning_violations : List PolicyViolation

abbrev pub category_text : ExpenseCategory → String
category_text ExpenseCategory.travel = "TRAVEL"
category_text ExpenseCategory.meals = "MEALS"
category_text ExpenseCategory.supplies = "SUPPLIES"
category_text ExpenseCategory.others = "OTHERS"

-- The category that a string names.
unfoldable pub category_of : String → Option ExpenseCategory
category_of s =
    if same_text s "TRAVEL"
    then some ExpenseCategory.travel
    else if same_text s "MEALS"
    then some ExpenseCategory.meals
    else if same_text s "SUPPLIES"
    then some ExpenseCategory.supplies
    else if same_text s "OTHERS"
    then some ExpenseCategory.others
    else none
