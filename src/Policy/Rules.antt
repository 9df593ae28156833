-- ===== src/Policy/Rules.antt =====
-- modules/policy/services/expense-policy.service.ts: the table of policies behind the engine's
-- cache, in one process.
pub mod RoundTrip
pub mod Created
pub mod Serving
use expentra.Prelude.{
  ℕ, String, Bool, true, false, Option, none, some, List, [], ◌∷◌, ◌++◌, map, not, ◌==◌, filter,
  trim, if◌then◌else◌,
}
use expentra.Prelude.Result.{Result, ok, ◌>>=◌}
use expentra.Store.{next_id}
use expentra.Runtime.{Runtime}
use expentra.Reference.{find_entity_by_reference}
use expentra.Policy.Json.{
  Number, Json, null, num, text, arr, obj, Items, nil, cons, Fields, end, field, put, array, Js,
}
use expentra.Policy.Types.{
  ExpensePolicyRuleType, ExpensePolicySeverity, ExpensePolicy, operator_text, ConditionParams,
  PolicyCondition, Match, ConditionalPolicyConfig,
}
use expentra.Policy.Validator.{normalize_rule_config}
use expentra.Policy.Engine.{ActivePoliciesCache, no_active_policies, load_active_policies}

pub record CreateExpensePolicyInput : Type 0 where
  pub name : String
  pub rule_type : Option ExpensePolicyRuleType
  pub severity : ExpensePolicySeverity
  pub config : Fields
  pub is_active : Option Bool

pub record UpdateExpensePolicyInput : Type 0 where
  pub name : Option String
  pub severity : Option ExpensePolicySeverity
  pub config : Option Fields
  pub is_active : Option Bool

-- What a `jsonb` column keeps of a normalized configuration: a number that is not finite becomes
-- null.
abbrev stored_number : Option Number → Json
stored_number none = null
stored_number (some n) = num n

abbrev stored_text : Option String → Option Json
stored_text none = none
stored_text (some s) = some (text s)

abbrev stored_days : Option (Option Number) → Option Json
stored_days none = none
stored_days (some n) = some (stored_number n)

abbrev stored_params : Option ConditionParams → Option Json
stored_params none = none
stored_params (some p) = some (
    obj
      (put "category" (stored_text p.category) (put "windowDays" (stored_days p.window_days) end)))

abbrev pub stored_condition : PolicyCondition → Json
stored_condition c = obj (
    field "field" (text c.key) (
      field "operator" (text (operator_text c.operator))
        (field "value" c.value (put "params" (stored_params c.params) end))))

abbrev pub match_text : Match → String
match_text Match.all = "all"
match_text Match.any = "any"

abbrev pub stored_config : ConditionalPolicyConfig → Fields
stored_config config =
    field "match" (text (match_text config.mode))
      (field "conditions" (arr (array (map stored_condition config.conditions))) end)

pub record PolicyStore : Type 0 where
  pub table : List ExpensePolicy
  pub cache : ActivePoliciesCache

abbrev pub or_else {ℓ} : {A : Type ℓ} → A → Option A → A
or_else a none = a
or_else a (some b) = b

-- `policyRepository.save` of a row that exists.
pub replace_policy : ExpensePolicy → List ExpensePolicy → List ExpensePolicy
replace_policy p [] = []
replace_policy p (q ∷ qs) = (if q.id == p.id then p else q) ∷ replace_policy p qs

-- A table that was written, with the cache dropped.
abbrev stored_table : List ExpensePolicy → PolicyStore
stored_table table = record { table = table; cache = no_active_policies }

module _ (rt : Runtime) (js : Js) where
  -- `ExpensePolicyService.create`; the reference is the one that the insertion generates.
  unfoldable pub create :
      CreateExpensePolicyInput → String → PolicyStore → Result (ExpensePolicy × PolicyStore)
  create input reference store = do
    config ←
        normalize_rule_config js (or_else ExpensePolicyRuleType.conditional input.rule_type)
          input.config
    let policy : ExpensePolicy = record {
      id = next_id (map (λ p. p.id) store.table);
      reference = reference;
      name = trim input.name;
      rule_type = ExpensePolicyRuleType.conditional;
      severity = input.severity;
      is_active = or_else true input.is_active;
      config = stored_config config;
      created_at = rt.now;
    }
    ok (policy, stored_table (store.table ++ policy ∷ []))

  -- The configuration and the type of a policy after `update`.
  abbrev pub reconfigured : ExpensePolicy → Option Fields → Result ExpensePolicy
  reconfigured p none = ok p
  reconfigured p (some raw) = do
    config ← normalize_rule_config js p.rule_type raw
    ok (record p { rule_type = ExpensePolicyRuleType.conditional; config = stored_config config })

  -- `ExpensePolicyService.update`
  unfoldable pub update :
      String → UpdateExpensePolicyInput → PolicyStore → Result (ExpensePolicy × PolicyStore)
  update reference input store = do
    policy ←
        find_entity_by_reference rt.to_upper (λ p. p.reference) store.table reference
          "Expense policy not found"
    configured ← reconfigured policy input.config
    let saved : ExpensePolicy = record configured {
      name = elim input.name [ none ↦ configured.name | some n ↦ trim n ];
      severity = or_else configured.severity input.severity;
      is_active = or_else configured.is_active input.is_active;
    }
    ok (saved, stored_table (replace_policy saved store.table))

  -- `ExpensePolicyService.remove`
  unfoldable pub remove : String → PolicyStore → Result (Unit {0} × PolicyStore)
  remove reference store = do
    policy ←
        find_entity_by_reference rt.to_upper (λ p. p.reference) store.table reference
          "Expense policy not found"
    ok (tt, stored_table (filter (λ p. not (p.id == policy.id)) store.table))

  -- The policies that `evaluate` of the engine runs over, and the cache that it leaves.
  unfoldable pub load : PolicyStore → List ExpensePolicy × PolicyStore
  load store =
      let loaded = load_active_policies rt.now store.table store.cache in
      (loaded.0, record store { cache = loaded.1 })
