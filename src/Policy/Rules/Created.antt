-- ===== src/Policy/Rules/Created.antt =====
-- What a policy that the service created does in an evaluation.
use expentra.Prelude.{
  String, Option, none, some, [], ◌∷◌, ◌++◌, ◌≡◌, refl, arith, trim, if◌then◌else◌,
}
use expentra.Prelude.Result.{ok, >>=-eq-ok-then}
use expentra.Store.{Db}
use expentra.Runtime.{Runtime}
use expentra.Expense.Support.{PolicyEvaluationContext}
use expentra.Policy.Json.{Fields, Js}
use expentra.Policy.Types.{
  ExpensePolicyRuleType, ExpensePolicySeverity, same_severity, ExpensePolicy, PolicyViolation,
  ConditionalPolicyConfig,
}
use expentra.Policy.Validator.{legacy_to_conditional, normalize_rule_config}
use expentra.Policy.Evaluator.{is_violated}
use expentra.Policy.Description.{build_default_message}
use expentra.Policy.Engine.{to_violation, resolve_message, evaluate_policy}
use expentra.Policy.Rules.{CreateExpensePolicyInput, PolicyStore, or_else, stored_config, create}
use expentra.Policy.Rules.RoundTrip.{settled_config, validate-stored}

-- What the evaluation of a policy gives that tests a configuration under its default message.
abbrev pub default_outcome :
    Runtime
    → Js
    → PolicyEvaluationContext
    → Db
    → ExpensePolicy
    → ConditionalPolicyConfig
    → Option PolicyViolation
default_outcome rt js context db p config =
    if is_violated js rt context db (same_severity p.severity ExpensePolicySeverity.block) config
    then some (to_violation p (build_default_message js config))
    else none

module _ (rt : Runtime) (js : Js) (p : ExpensePolicy) (config : ConditionalPolicyConfig)
    (conditional : p.rule_type ≡ ExpensePolicyRuleType.conditional)
    (stored : p.config ≡ stored_config config) where
  normalize-stored :
      (raw : Fields) (rule_type : ExpensePolicyRuleType)
      → normalize_rule_config js rule_type raw ≡ ok config
      → normalize_rule_config js p.rule_type p.config ≡ ok (settled_config config)
  unfolding normalize_rule_config legacy_to_conditional
  normalize-stored raw rule_type h =
      rw (conditional, stored) (validate-stored js (legacy_to_conditional rule_type raw) config h)

  message-stored :
      (k : ConditionalPolicyConfig) → resolve_message rt js p.config k ≡ build_default_message js k
  unfolding resolve_message trim
  message-stored k = rw stored refl

  stored-evaluates :
      (context : PolicyEvaluationContext) (db : Db) (raw : Fields)
      (rule_type : ExpensePolicyRuleType)
      → normalize_rule_config js rule_type raw ≡ ok config
      → evaluate_policy rt js context db p
        ≡ default_outcome rt js context db p (settled_config config)
  unfolding evaluate_policy
  stored-evaluates context db raw rule_type h =
      ground (arith, normalize-stored raw rule_type h, message-stored (settled_config config))

-- A creation that returns had a configuration that the validator accepts, adds the one policy to
-- the table, and that policy is violated as the accepted configuration is, with the default message
-- of that configuration, whatever message the input had.
pub create-returned :
    (rt : Runtime) (js : Js) (input : CreateExpensePolicyInput) (reference : String)
    (store store' : PolicyStore) (p : ExpensePolicy) (context : PolicyEvaluationContext) (db : Db)
    → create rt js input reference store ≡ ok (p, store')
    → (config : ConditionalPolicyConfig) × (normalize_rule_config js
          (or_else ExpensePolicyRuleType.conditional input.rule_type)
          input.config
        ≡ ok config)
      × (store'.table ≡ store.table ++ p ∷ [])
      × (evaluate_policy rt js context db p
          ≡ default_outcome rt js context db p (settled_config config))
unfolding create
create-returned rt js input reference store store' p context db h =
    let rule_type = or_else ExpensePolicyRuleType.conditional input.rule_type in
    >>=-eq-ok-then (normalize_rule_config js rule_type input.config) _ h λ config accepted rest. (
      config,
      accepted,
      ground arith,
      stored-evaluates rt js p config (ground arith) (ground arith) context db input.config
          rule_type accepted,
    )
