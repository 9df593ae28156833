-- ===== src/Examples/Budgets.antt =====
-- The recalculation of budgets and the midnights of a zone, on the sample organisation in a zone an
-- hour ahead of UTC.
use expentra.Prelude.{
  ℕ, List, suc, ◌*◌, ◌+◌, ◌-◌, zero, ◌<◌, some, [], ◌∷◌, ◌≡◌, ◌↔◌, none, inl, refl, arith,
}
use expentra.Prelude.Result.{ok}
use expentra.Store.{next_id}
use expentra.Entities.{ExpenseStatus, Expense, DepartmentBudget}
use expentra.Store.{Db, Event}
use expentra.Runtime.{Runtime}
use expentra.Samples.{runtime, no_policies, owner, taxi_reference, taxi, office, sales_budget}
use expentra.Samples.Zones.{days, hour_ahead, hour_ahead-FixedOffset, days_later}
use expentra.Budget.Period.{Zone, zoned_midnight_to_utc, budget_year_range_in_time_zone}
use expentra.Budget.Period.Midnight.{zoned_midnight-first, budget_year_range-without_hour_0}
use expentra.Budget.Sync.Transition.{is_reimbursed, in_ledger, share}
use expentra.Budget.Books.{KeepsBooks}
use expentra.Budget.Ledger.{LedgerHolds, total}
use expentra.Budget.Administration.Created.{create-LedgerHolds_iff}
use expentra.Budget.Administration.{
  CreateDepartmentBudgetInput, create, assert_creatable_budget_year,
  recalculate_committed_amount_for_department_year,
  recalculate_reimbursed_amount_for_department_year, reconcile_all_committed_amounts,
}
use expentra.Budget.Administration.Recalculation.{BoundsYears}
use expentra.Budget.Administration.Reconciliation.{reconcile-LedgerHolds}
use expentra.Budget.Administration.Years.{FixedOffset-BoundsYears}
use expentra.Authorization.Types.{same_action, same_resource, same_scope, is_super_admin_user}
use expentra.Authorization.Grants.{
  action_and_resource_match, permission_scope_allows, permission_grants, has_permission,
}
use expentra.Authorization.Access.{can_read_expense, can_mutate_expense_draft}
use expentra.Authorization.Policy.{assert_can_mutate_expense_draft, assert_can_read_expense}
use expentra.Budget.Period.{resolve_budget_year}
use expentra.Budget.Sync.{
  to_expense_budget_snapshot, is_reimbursement_transition, attribution_changed,
  expense_budget_attribution_changed, apply_committed_amount_delta, resolve_department_for_submit,
  add_delta, apply_deltas, accumulate, sync_committed_amount_for_expense_transition,
}
use expentra.Budget.Sync.Transition.{in_ledger}
use expentra.Budget.Usage.{
  summary_of_row, fetch_department_budget_summary, assert_valid_year, get_department_summary,
}
use expentra.Budget.Evaluation.{
  with_projected_metrics, build_submit_evaluation, evaluate_expense_submit,
}
use expentra.Approval.Routing.{
  should_skip_department_manager_stage, level_applies_to_expense, is_required, get_required_levels,
  resolve_initial_submit_status, requires_approval_chain,
}
use expentra.Approval.Decision.{load_active_levels, join_expense, save_and_sync}
use expentra.Expense.Support.{
  assert_non_empty_title, assert_positive_amount, assert_draft_status, assert_incurred_at,
  load_expense_for_mutation, find_one, build_submit_policy_context,
}
use expentra.Expense.Submit.{
  assign_department, with_active_department, manager_is_missing, assert_submittable,
  submitted_expense, complete_submission, submit_in_transaction, submission_context, submit,
}
use expentra.Reference.{normalize_entity_reference, is_entity_reference, find_entity_by_reference}
use expentra.Store.{
  transaction, find_expense, find_department, replace_expense, saved_row, save_expense, publish,
}
use expentra.Prelude.{trim}
use expentra.Workflow.{Step, Run}
use expentra.Workflow.Recalculated.{Run-recalculate}

hour_ahead-BoundsYears : BoundsYears hour_ahead
hour_ahead-BoundsYears =
    FixedOffset-BoundsYears hour_ahead days 3600 0 hour_ahead-FixedOffset days_later

FixedOffset-BoundsYears_example : BoundsYears hour_ahead
FixedOffset-BoundsYears_example =
    FixedOffset-BoundsYears hour_ahead days 3600 0 hour_ahead-FixedOffset days_later

zoned_midnight-first_example :
    zoned_midnight_to_utc hour_ahead 2026 1 1 ≡ days 2026 * 86400000 + 1000 * 0 - 1000 * 3600
zoned_midnight-first_example =
    zoned_midnight-first hour_ahead days 3600 0 hour_ahead-FixedOffset 2026 (omega arith)

-- The formatter of a runtime that writes midnight as hour 24.
abbrev from_24 : ℕ → ℕ
from_24 zero = 24
from_24 (suc h) = suc h

abbrev hour_24 : Zone
hour_24 = record hour_ahead {
  wall_clock = λ t. let c = hour_ahead.wall_clock t in record c { hour = from_24 c.hour };
}

from_24-positive : (h : ℕ) → 0 < from_24 h
from_24-positive zero = omega arith
from_24-positive (suc h) = omega arith

budget_year_range-without_hour_0_example :
    budget_year_range_in_time_zone hour_24 2026
    ≡ record { start = days 2026 * 86400000; stop = days 2027 * 86400000 }
budget_year_range-without_hour_0_example =
    budget_year_range-without_hour_0 hour_24 2026
      (λ t. from_24-positive (hour_ahead.wall_clock t).hour)

-- The sample organisation in 2026, and after the submission of its expense.
abbrev lagos : Runtime
lagos = record runtime { zone = hour_ahead; now = days 2026 * 86400000 + 43200000 }

abbrev new_year_taxi : Expense
new_year_taxi = record taxi { incurred_at = some (days 2026 * 86400000) }

abbrev open_office : Db
open_office = record office { expenses = new_year_taxi ∷ [] }

abbrev submitted : Expense
submitted = record new_year_taxi {
  status = ExpenseStatus.submitted;
  submitted_at = some (days 2026 * 86400000 + 43200000);
}

abbrev after_submission : Db
after_submission = record open_office {
  expenses = submitted ∷ [];
  budgets = record sales_budget { committed_amount = 500 } ∷ [];
  events =
      Event.expense_submitted 7 1 1 (days 2026 * 86400000 + 43200000)
      ∷ Event.expense_budget_committed 7 1 10 (days 2026 * 86400000 + 43200000)
      ∷ [];
}

submits_in_lagos :
    submit lagos no_policies owner taxi_reference open_office ≡ (ok submitted, after_submission)
unfolding same_action same_resource same_scope is_super_admin_user action_and_resource_match
    permission_scope_allows permission_grants has_permission can_read_expense
    can_mutate_expense_draft assert_can_mutate_expense_draft assert_can_read_expense
    resolve_budget_year to_expense_budget_snapshot is_reimbursement_transition attribution_changed
    expense_budget_attribution_changed apply_committed_amount_delta resolve_department_for_submit
    add_delta apply_deltas accumulate sync_committed_amount_for_expense_transition in_ledger
    summary_of_row fetch_department_budget_summary assert_valid_year get_department_summary
    with_projected_metrics build_submit_evaluation evaluate_expense_submit
    should_skip_department_manager_stage level_applies_to_expense is_required get_required_levels
    resolve_initial_submit_status requires_approval_chain load_active_levels join_expense
    save_and_sync assert_non_empty_title assert_positive_amount assert_draft_status
    assert_incurred_at load_expense_for_mutation find_one build_submit_policy_context
    assign_department with_active_department manager_is_missing assert_submittable submitted_expense
    complete_submission submit_in_transaction submission_context submit normalize_entity_reference
    is_entity_reference find_entity_by_reference transaction find_expense find_department
    replace_expense saved_row save_expense publish trim
submits_in_lagos = refl

open_office-KeepsBooks : KeepsBooks hour_ahead open_office
unfolding to_expense_budget_snapshot in_ledger share total
open_office-KeepsBooks = record {
  unique = (tt, tt);
  attributed = (inl refl, tt);
  ledger = (λ _ _. (refl, refl), tt);
}

Run-recalculate_example :
    (recalculate_committed_amount_for_department_year lagos 10 2026 after_submission
      ≡ ok after_submission)
    × (recalculate_reimbursed_amount_for_department_year lagos 10 2026 after_submission
        ≡ ok after_submission)
Run-recalculate_example =
    Run-recalculate lagos open_office after_submission 10 2026
      (Run.call lagos open_office after_submission after_submission refl
        (Step.submits no_policies owner taxi_reference (ok submitted) submits_in_lagos)
        (Run.stop after_submission))
      open_office-KeepsBooks hour_ahead-BoundsYears (omega arith) ((λ _. refl), tt)

-- The row of the department lost its sums.
abbrev astray : Db
astray = record after_submission { budgets = sales_budget ∷ [] }

reconcile-LedgerHolds_example :
    (bs : List DepartmentBudget) × (reconcile_all_committed_amounts lagos astray
      ≡ ok (record astray { budgets = bs }))
    × LedgerHolds hour_ahead (record astray { budgets = bs })
reconcile-LedgerHolds_example =
    reconcile-LedgerHolds lagos hour_ahead-BoundsYears astray ((λ _. omega arith), tt)

abbrev next_year : CreateDepartmentBudgetInput
next_year = record {
  department_reference = "DPT1749078456123A7B9C2";
  year = 2027;
  amount_limit = 900;
  currency = none;
}

abbrev next_budget : DepartmentBudget
next_budget = record sales_budget {
  id = 32;
  reference = "BGT1749078456123A7B9C3";
  year = 2027;
  amount_limit = 900;
}

abbrev planned_office : Db
planned_office = record open_office { budgets = sales_budget ∷ next_budget ∷ [] }

creates_budget :
    create lagos next_year "BGT1749078456123A7B9C3" open_office ≡ ok (next_budget, planned_office)
unfolding create assert_creatable_budget_year assert_valid_year resolve_budget_year next_id trim
    normalize_entity_reference is_entity_reference find_entity_by_reference
creates_budget = refl

create-LedgerHolds_iff_example : LedgerHolds hour_ahead planned_office ↔ (
    (total hour_ahead in_ledger open_office.expenses 10 2027 ≡ 0)
    × (total hour_ahead is_reimbursed open_office.expenses 10 2027 ≡ 0))
create-LedgerHolds_iff_example =
    create-LedgerHolds_iff lagos next_year "BGT1749078456123A7B9C3" open_office planned_office
      next_budget creates_budget open_office-KeepsBooks.ledger
