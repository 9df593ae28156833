-- ===== src/Budget/Evaluation.antt =====
-- modules/budget/services/budget.service.ts: what a submission or an approval does to a budget.
pub mod Limits
use expentra.Prelude.{
  ℕ, ◌+◌, ◌-◌, ◌*◌, Bool, true, false, Option, none, some, ◌&&◌, ◌||◌, not, ltb, leb, if◌then◌else◌,
  truthy_id,
}
use expentra.Prelude.Result.{Result, ok, err, ◌>>=◌}
use expentra.Entities.{DepartmentBudget}
use expentra.Store.{Db}
use expentra.Runtime.{Runtime}
use expentra.Budget.Period.{resolve_budget_year}
use expentra.Budget.Sync.{resolve_department_for_submit}
use expentra.Budget.Usage.{BudgetUsageSummary, get_department_summary, hundredths}

pub record BudgetSubmitEvaluation : Type 0 where
  pub allowed : Bool
  pub summary : Option BudgetUsageSummary
  pub projected_committed_amount : ℕ
  pub would_exceed : Bool

pub record BudgetApproveEvaluation : Type 0 where
  pub summary : Option BudgetUsageSummary
  pub committed_amount : ℕ
  pub would_exceed : Bool

module _ (rt : Runtime) where
  -- The summary with `computeProjectedBudgetMetrics` spread over it.
  unfoldable pub with_projected_metrics : BudgetUsageSummary → ℕ → BudgetUsageSummary
  with_projected_metrics s projected =
      let used = hundredths projected s.amount_limit in
      record s {
        committed_amount = projected;
        remaining = s.amount_limit - projected;
        utilization = used;
        over_budget = ltb s.amount_limit projected;
        near_limit = ltb 0 s.amount_limit && leb (rt.near_limit_threshold_percent * 100) used;
      }

  -- `buildSubmitEvaluation`
  unfoldable pub build_submit_evaluation : BudgetUsageSummary → ℕ → BudgetSubmitEvaluation
  build_submit_evaluation s amount =
      let projected = s.committed_amount + amount in
      elim s.budget [
        | none ↦ record {
          allowed = true;
          summary = some s;
          projected_committed_amount = projected;
          would_exceed = false;
        }
        | some _ ↦ record {
          allowed = not rt.block_submit_on_overspend || not (ltb s.amount_limit projected);
          summary = some (with_projected_metrics s projected);
          projected_committed_amount = projected;
          would_exceed = ltb s.amount_limit projected;
        }
      ]

  -- `noDepartmentBudgetEvaluation`
  pub no_department_budget_evaluation : ℕ → BudgetSubmitEvaluation
  no_department_budget_evaluation amount = record {
    allowed = true;
    summary = none;
    projected_committed_amount = amount;
    would_exceed = false;
  }

  -- `evaluateExpenseSubmit`, and `evaluateExpenseSubmitInTransaction`, which takes a lock besides.
  unfoldable pub evaluate_expense_submit : ℕ → ℕ → ℕ → Option ℕ → Db → Result BudgetSubmitEvaluation
  evaluate_expense_submit user_id amount submitted_at department_id db =
      elim (resolve_department_for_submit db user_id department_id) [
        | none ↦ ok (no_department_budget_evaluation amount)
        | some d ↦
            get_department_summary rt d (resolve_budget_year rt.zone submitted_at) db >>= λ s.
            ok (build_submit_evaluation s amount)
      ]

  unfoldable pub approve_evaluation : BudgetUsageSummary → BudgetApproveEvaluation
  approve_evaluation s = record {
    summary = some s;
    committed_amount = s.committed_amount;
    would_exceed = elim s.budget [ none ↦ false | some _ ↦ ltb s.amount_limit s.committed_amount ];
  }

  -- `evaluateExpenseApprove`
  unfoldable pub evaluate_expense_approve : Option ℕ → ℕ → Db → Result BudgetApproveEvaluation
  evaluate_expense_approve department_id as_of db = elim (truthy_id department_id) [
    | none ↦ ok (record { summary = none; committed_amount = 0; would_exceed = false })
    | some d ↦ get_department_summary rt d (resolve_budget_year rt.zone as_of) db >>= λ s.
        ok (approve_evaluation s)
  ]
