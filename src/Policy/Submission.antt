-- ===== src/Policy/Submission.antt =====
-- The submission of an expense with the policy engine in the place of its interface.
use expentra.Prelude.{String, List, ◌∷◌, ◌++◌, [], ◌≡◌, ◌≢◌, subst, arith, All}
use expentra.Prelude.Result.{Exception, ok, err}
use expentra.Entities.{Expense}
use expentra.Store.{Db}
use expentra.Runtime.{Runtime}
use expentra.Authorization.Types.{AuthUser}
use expentra.Expense.Support.{PolicyEvaluationContext}
use expentra.Expense.Submit.{submission_context, submit}
use expentra.Expense.Submit.Outcome.{submit-returned}
use expentra.Policy.Json.{Js}
use expentra.Policy.Types.{ExpensePolicySeverity, ExpensePolicy}
use expentra.Policy.Validator.{normalize_rule_config}
use expentra.Policy.Engine.{evaluate_policy, assert_compliant}
use expentra.Policy.Engine.Compliance.{Complies, assert_compliant_iff}

module _ (rt : Runtime) (js : Js) (policies : List ExpensePolicy) (given : List (String × String))
    (u : AuthUser) (reference : String) (db db' : Db) (saved : Expense) where
  pub submit-Complies :
      submit rt (assert_compliant rt js policies given) u reference db ≡ (ok saved, db')
      → (context : PolicyEvaluationContext) × (submission_context rt
            (assert_compliant rt js policies given)
            u
            reference
            db
          ≡ ok context)
        × All (Complies rt js given context db) policies
  submit-Complies h =
      let (context, passed, compliant, _) =
        submit-returned rt (assert_compliant rt js policies given) u reference db db' saved h in
      (context, passed, (assert_compliant_iff rt js given context db policies).0 compliant)

  All-middle :
      (P : ExpensePolicy → Type 0) (before after : List ExpensePolicy) (p : ExpensePolicy)
      → All P (before ++ p ∷ after)
      → P p
  All-middle P [] after p h = h.0
  All-middle P (q ∷ qs) after p h = All-middle P qs after p h.1

  misconfigured-not-Complies :
      (context : PolicyEvaluationContext) (p : ExpensePolicy) (x : Exception)
      → p.severity ≡ ExpensePolicySeverity.block
      → normalize_rule_config js p.rule_type p.config ≡ err x
      → Complies rt js given context db p
      → ⊥
  unfolding evaluate_policy
  misconfigured-not-Complies context p x blocks broken c = ground arith

  -- While one of the policies that the engine runs over blocks and has a configuration that the
  -- validator refuses, no submission returns, whoever submits whatever expense.
  pub submit-misconfigured :
      (before after : List ExpensePolicy) (p : ExpensePolicy) (x : Exception)
      → policies ≡ before ++ p ∷ after
      → p.severity ≡ ExpensePolicySeverity.block
      → normalize_rule_config js p.rule_type p.config ≡ err x
      → submit rt (assert_compliant rt js policies given) u reference db ≢ (ok saved, db')
  submit-misconfigured before after p x e blocks broken h =
      let (context, _, all) = submit-Complies h in
      let here =
        All-middle (Complies rt js given context db) before after p
          (subst (All (Complies rt js given context db)) e all) in
      misconfigured-not-Complies context p x blocks broken here
