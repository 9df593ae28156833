-- ===== src/Workflow/Recalculated.antt =====
-- Runs of calls, beside the recalculation of the budgets of services/budget.service.ts.
use expentra.Prelude.{ℕ, true, none, ◌≡◌, All}
use expentra.Prelude.Result.{ok}
use expentra.Store.{Db}
use expentra.Runtime.{Runtime}
use expentra.Budget.Books.{KeepsBooks}
use expentra.Budget.Administration.{
  recalculate_committed_amount_for_department_year,
  recalculate_reimbursed_amount_for_department_year,
}
use expentra.Budget.Administration.Recalculation.{IsBudgetYear, BoundsYears}
use expentra.Budget.Administration.Reconciliation.{recalculate-unchanged}
use expentra.Workflow.{Run, Run-KeepsBooks}

-- After any run of calls in one zone from a database that kept its books, the recalculation of a
-- department and year finds the incremental updates right: it succeeds and changes nothing, where
-- the ranges of years hold exactly the times of each year in the zone and every budget row that is
-- not deleted is active.
pub Run-recalculate :
    (rt : Runtime) (db last : Db) (d y : ℕ)
    → Run rt.zone db last
    → KeepsBooks rt.zone db
    → BoundsYears rt.zone
    → IsBudgetYear y
    → All (λ b. b.deleted_at ≡ none → b.is_active ≡ true) last.budgets
    → (recalculate_committed_amount_for_department_year rt d y last ≡ ok last)
      × (recalculate_reimbursed_amount_for_department_year rt d y last ≡ ok last)
Run-recalculate rt db last d y run books bounds valid active =
    let kept = Run-KeepsBooks rt.zone db last run books in
    recalculate-unchanged rt bounds last d y valid kept.ledger active
