-- ===== src/Examples/Policies.antt =====
-- The policy engine on the sample organisation: a policy on large amounts without a receipt, and one
-- whose configuration is broken.
use expentra.Prelude.{String, true, none, List, [], ◌∷◌, ◌++◌, ◌≡◌, ◌≢◌, ◌↔◌, refl, All, trim}
use expentra.Prelude.Result.{ok, err, bad_request}
use expentra.Entities.{ExpenseCategory}
use expentra.Store.{next_id}
use expentra.Expense.Support.{PolicyEvaluationContext}
use expentra.Expense.Submit.{submit}
use expentra.Samples.{runtime, owner, taxi_reference, office}
use expentra.Samples.Calls.{submitted_taxi, submitted_office}
use expentra.Policy.Json.{
  nat, num, text, arr, obj, nil, cons, Fields, end, field, Js, string_of, number_of,
}
use expentra.Policy.Types.{
  ExpensePolicyRuleType, ExpensePolicySeverity, ExpensePolicy, PolicyConditionOperator, operator_of,
  Match, ConditionalPolicyConfig,
}
use expentra.Policy.Resolvers.{get_field, validate_value, validate_condition}
use expentra.Policy.Validator.{
  parse_params, parse_fields, parse_condition, parse_conditions, validate, normalize_rule_config,
}
use expentra.Policy.Engine.{
  find_active_policies, no_active_policies, evaluate_policy, assert_compliant,
}
use expentra.Policy.Engine.Compliance.{Complies, assert_compliant_iff}
use expentra.Policy.Rules.{
  CreateExpensePolicyInput, PolicyStore, or_else, stored_config, create, load,
}
use expentra.Policy.Rules.RoundTrip.{settled_config, validate-stored}
use expentra.Policy.Rules.Created.{default_outcome, create-returned}
use expentra.Policy.Rules.Serving.{PolicyStep, PolicyRun, load-current}
use expentra.Policy.Submission.{submit-misconfigured}

abbrev js : Js
js = record {
  number_text = λ n. "1";
  number_of_text = λ s. none;
  to_fixed = λ n. "1.00";
  to_upper = λ s. s;
}

-- `{ match: 'all', conditions: [{ field: 'amount', operator: 'gte', value: 400 }] }`
abbrev large_amounts : Fields
large_amounts = field "match" (text "all") (
    field "conditions"
      (arr (
        cons
          (obj (
            field "field" (text "amount")
              (field "operator" (text "gte") (field "value" (num (nat 400)) end))))
          nil))
      end)

abbrev large : ConditionalPolicyConfig
large = record {
  mode = Match.all;
  conditions =
      record {
        key = "amount";
        operator = PolicyConditionOperator.gte;
        value = num (nat 400);
        params = none;
      }
      ∷ [];
}

-- The configuration with a custom message.
abbrev with_message : Fields
with_message = field "message" (text "Ask your manager first") large_amounts

large_amounts_valid : validate js with_message ≡ ok large
unfolding validate parse_conditions parse_condition parse_fields parse_params validate_condition
    validate_value get_field operator_of string_of number_of trim
large_amounts_valid = refl

abbrev input : CreateExpensePolicyInput
input = record {
  name = " Large ";
  rule_type = none;
  severity = ExpensePolicySeverity.warn;
  config = with_message;
  is_active = none;
}

abbrev policy_reference : String
policy_reference = "POL1749078456123A7B9C2"

abbrev no_rules : PolicyStore
no_rules = record { table = []; cache = no_active_policies }

abbrev large_policy : ExpensePolicy
large_policy = record {
  id = 1;
  reference = policy_reference;
  name = "Large";
  rule_type = ExpensePolicyRuleType.conditional;
  severity = ExpensePolicySeverity.warn;
  is_active = true;
  config = stored_config large;
  created_at = 1000;
}

abbrev one_rule : PolicyStore
one_rule = record { table = large_policy ∷ []; cache = no_active_policies }

creates_policy : create runtime js input policy_reference no_rules ≡ ok (large_policy, one_rule)
unfolding create normalize_rule_config validate parse_conditions parse_condition parse_fields
    parse_params validate_condition validate_value get_field operator_of string_of number_of trim
    next_id
creates_policy = refl

abbrev context : PolicyEvaluationContext
context = record {
  expense_id = 7;
  user_id = 1;
  amount = 500;
  category = ExpenseCategory.travel;
  submitted_at = 1000;
  attachment_count = 0;
}

abbrev excuse : List (String × String)
excuse = (policy_reference, "Client visit") ∷ []

assert_compliant_iff_example :
    (assert_compliant runtime js (large_policy ∷ []) excuse context office ≡ ok tt)
    ↔ All (Complies runtime js excuse context office) (large_policy ∷ [])
assert_compliant_iff_example =
    assert_compliant_iff runtime js excuse context office (large_policy ∷ [])

validate-stored_example : validate js (stored_config large) ≡ ok (settled_config large)
validate-stored_example = validate-stored js with_message large large_amounts_valid

create-returned_example :
    (config : ConditionalPolicyConfig) × (normalize_rule_config js
        (or_else ExpensePolicyRuleType.conditional input.rule_type)
        input.config
      ≡ ok config)
    × (one_rule.table ≡ no_rules.table ++ large_policy ∷ [])
    × (evaluate_policy runtime js context office large_policy
        ≡ default_outcome runtime js context office large_policy (settled_config config))
create-returned_example =
    create-returned runtime js input policy_reference no_rules one_rule large_policy context office
      creates_policy

load-current_example : (load runtime js one_rule).0 ≡ find_active_policies one_rule.table
load-current_example = load-current runtime js no_rules one_rule refl (
    PolicyRun.call runtime js no_rules one_rule one_rule
      (PolicyStep.creates input policy_reference large_policy creates_policy)
      (PolicyRun.start one_rule))

-- A blocking policy whose configuration names no mode.
abbrev broken_policy : ExpensePolicy
broken_policy = record large_policy {
  severity = ExpensePolicySeverity.block;
  config = field "match" (text "most") end;
}

broken_is_refused :
    normalize_rule_config js broken_policy.rule_type broken_policy.config
    ≡ err (bad_request "Policy match mode must be \"all\" or \"any\"")
unfolding normalize_rule_config validate
broken_is_refused = refl

submit-misconfigured_example :
    submit runtime
      (assert_compliant runtime js (broken_policy ∷ []) excuse)
      owner
      taxi_reference
      office
    ≢ (ok submitted_taxi, submitted_office)
submit-misconfigured_example =
    submit-misconfigured runtime js (broken_policy ∷ []) excuse owner taxi_reference office
      submitted_office submitted_taxi [] [] broken_policy
      (bad_request "Policy match mode must be \"all\" or \"any\"") refl refl broken_is_refused
