-- ===== src/Policy/Engine.antt =====
-- modules/policy/engine/policy-engine.service.ts
pub mod Compliance
use expentra.Prelude.{
  ℕ, ◌-◌, String, Bool, true, false, Option, none, some, List, [], ◌∷◌, ◌==◌, not, ltb, leb, filter,
  is_empty, trim, same_text, ◌<>◌, if◌then◌else◌,
}
use expentra.Prelude.Result.{Result, ok, err, bad_request, throw_if, ◌>>=◌, ◌>>◌}
use expentra.Store.{Db}
use expentra.Runtime.{Runtime}
use expentra.Expense.Support.{PolicyEvaluationContext}
use expentra.Policy.Json.{Json, text, Fields, get, Js}
use expentra.Policy.Types.{
  ExpensePolicySeverity, same_severity, ExpensePolicy, ConditionalPolicyConfig, PolicyViolation,
  PolicyEvaluationResult,
}
use expentra.Policy.Validator.{normalize_rule_config}
use expentra.Policy.Evaluator.{is_violated}
use expentra.Policy.Description.{build_default_message}

-- `ORDER BY created_at ASC`; rows of one time keep their order.
insert_policy : ExpensePolicy → List ExpensePolicy → List ExpensePolicy
insert_policy p [] = p ∷ []
insert_policy p (q ∷ qs) =
    let rest = insert_policy p qs in if leb p.created_at q.created_at then p ∷ q ∷ qs else q ∷ rest

pub sort_policies : List ExpensePolicy → List ExpensePolicy
unfolding insert_policy
sort_policies [] = []
sort_policies (p ∷ ps) = insert_policy p (sort_policies ps)

-- The query of `loadActivePolicies`.
unfoldable pub find_active_policies : List ExpensePolicy → List ExpensePolicy
unfolding sort_policies
find_active_policies table = sort_policies (filter (λ p. p.is_active) table)

-- The active policies that the service keeps, and the time at which it read them.
pub record ActivePoliciesCache : Type 0 where
  pub policies : Option (List ExpensePolicy)
  pub cached_at : ℕ

-- `invalidateActivePoliciesCache`
abbrev pub no_active_policies : ActivePoliciesCache
no_active_policies = record { policies = none; cached_at = 0 }

abbrev pub active_policies_cache_ttl_ms : ℕ
active_policies_cache_ttl_ms = 30000

-- The active policies as the table has them now, kept.
abbrev read_active_policies : ℕ → List ExpensePolicy → List ExpensePolicy × ActivePoliciesCache
read_active_policies now table = (
  find_active_policies table,
  record { policies = some (find_active_policies table); cached_at = now },
)

-- `loadActivePolicies`
unfoldable pub load_active_policies :
    ℕ → List ExpensePolicy → ActivePoliciesCache → List ExpensePolicy × ActivePoliciesCache
load_active_policies now table cache = elim cache.policies [
  | none ↦ read_active_policies now table
  | some kept ↦
      if ltb (now - cache.cached_at) active_policies_cache_ttl_ms
      then (kept, cache)
      else read_active_policies now table
]

-- `toViolation`
abbrev pub to_violation : ExpensePolicy → String → PolicyViolation
to_violation p message = record {
  policy_reference = p.reference;
  policy_name = p.name;
  rule_type = p.rule_type;
  severity = p.severity;
  message = message;
}

abbrev custom_message : Fields → String
custom_message config = elim (get "message" config) [ some (text s) ↦ trim s | _ ↦ "" ]

-- `partitionViolations`
pub partition_violations : List PolicyViolation → PolicyEvaluationResult
partition_violations violations = record {
  violations = violations;
  blocking_violations =
      filter (λ v. same_severity v.severity ExpensePolicySeverity.block) violations;
  warning_violations = filter (λ v. same_severity v.severity ExpensePolicySeverity.warn) violations;
}

-- `context.policyJustifications?.[reference]?.trim()`
pub justification : List (String × String) → String → String
justification [] reference = ""
justification ((r, j) ∷ js) reference =
    if same_text r reference then trim j else justification js reference

-- The loops of `assertCompliant`.
pub refuse_blocking : List PolicyViolation → Result (Unit {0})
refuse_blocking [] = ok tt
refuse_blocking (v ∷ vs) = err (bad_request v.message)

pub ask_justifications : List (String × String) → List PolicyViolation → Result (Unit {0})
ask_justifications given [] = ok tt
ask_justifications given (v ∷ vs) = do
  throw_if (is_empty (justification given v.policy_reference))
      (bad_request (v.message <> " Provide a justification to proceed."))
  ask_justifications given vs

module _ (rt : Runtime) (js : Js) where
  -- `resolveMessage`
  unfoldable pub resolve_message : Fields → ConditionalPolicyConfig → String
  resolve_message config normalized =
      if is_empty (custom_message config)
      then build_default_message js normalized
      else custom_message config

  -- `evaluatePolicy`
  unfoldable pub evaluate_policy :
      PolicyEvaluationContext → Db → ExpensePolicy → Option PolicyViolation
  evaluate_policy context db p =
      let blocks = same_severity p.severity ExpensePolicySeverity.block in
      elim (normalize_rule_config js p.rule_type p.config) [
        | ok normalized ↦
            if is_violated js rt context db blocks normalized
            then some (to_violation p (resolve_message p.config normalized))
            else none
        | err x ↦
            if blocks
            then some (to_violation p "Policy configuration is invalid. Contact an administrator.")
            else none
      ]

  -- The violations of the loop of `evaluate`.
  pub violations_of : PolicyEvaluationContext → Db → List ExpensePolicy → List PolicyViolation
  violations_of context db [] = []
  violations_of context db (p ∷ ps) =
      let rest = violations_of context db ps in
      elim (evaluate_policy context db p) [ none ↦ rest | some v ↦ v ∷ rest ]

  -- `evaluate`, on the policies that `loadActivePolicies` gave.
  pub evaluate : PolicyEvaluationContext → Db → List ExpensePolicy → PolicyEvaluationResult
  evaluate context db policies = partition_violations (violations_of context db policies)

  -- `assertCompliant`, on the same policies and the justifications of the context.
  pub assert_compliant :
      List ExpensePolicy → List (String × String) → PolicyEvaluationContext → Db → Result (Unit {0})
  assert_compliant policies given context db = do
    let result = evaluate context db policies
    refuse_blocking result.blocking_violations
    ask_justifications given result.warning_violations
