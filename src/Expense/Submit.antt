-- ===== src/Expense/Submit.antt =====
-- modules/expense/services/expense-submit.service.ts
pub mod Outcome
pub mod Stored
use expentra.Prelude.{
  ℕ, Bool, true, false, Option, none, some, List, [], ◌∷◌, ◌&&◌, ◌||◌, not, ◌==◌, if◌then◌else◌,
  any, find?, truthy_id, is_none, String,
}
use expentra.Prelude.Result.{Result, ok, err, bad_request, throw_if, ◌>>=◌, ◌>>◌}
use expentra.Entities.{
  ExpenseStatus, same_status, ApprovalApproverType, same_approver, Department, Expense,
  LoadedExpense, ApprovalLevel, DepartmentBudget,
}
use expentra.Store.{Db, Event, transaction, find_user, publish}
use expentra.Runtime.{Runtime}
use expentra.Authorization.Types.{ExpenseDraftMutation, AuthUser}
use expentra.Authorization.Policy.{assert_can_mutate_expense_draft}
use expentra.Budget.Usage.{BudgetUsageSummary}
use expentra.Budget.Evaluation.{BudgetSubmitEvaluation, evaluate_expense_submit}
use expentra.Approval.Routing.{
  should_skip_department_manager_stage, requires_approval_chain, resolve_initial_submit_status,
}
use expentra.Approval.Decision.{load_active_levels, save_and_sync}
use expentra.Expense.Support.{
  PolicyEvaluationContext, assert_non_empty_title, assert_positive_amount, assert_draft_status,
  assert_incurred_at, load_expense_for_mutation, find_one, build_submit_policy_context,
}

-- The expense with a department: its own, or else its owner's.
unfoldable pub assign_department : Expense → Db → Result Expense
assign_department e db = elim (truthy_id e.department_id) [
  | some _ ↦ ok e
  | none ↦ elim (find_user db e.user_id) [
    | none ↦ err (bad_request "You must be assigned to a department before submitting expenses")
    | some owner ↦ elim (truthy_id owner.department_id) [
      | none ↦ err (bad_request "You must be assigned to a department before submitting expenses")
      | some d ↦ ok (record e { department_id = some d })
    ]
  ]
]

-- The active department of the expense.
abbrev active_department : Expense → Db → Option Department
active_department e db = elim e.department_id [
  | none ↦ none
  | some id ↦ find? (λ d. d.id == id && d.is_active) db.departments
]

-- The expense with its active department joined.
unfoldable pub with_active_department : Expense → Db → LoadedExpense
with_active_department e db = record { row = e; user = none; department = active_department e db }

abbrev lacks_manager : Option Department → Bool
lacks_manager none = true
lacks_manager (some d) = is_none (truthy_id d.manager_id)

-- A level asks for a department manager and there is none.
unfoldable pub manager_is_missing : LoadedExpense → List ApprovalLevel → Bool
manager_is_missing e levels =
    any (λ l. l.is_active && same_approver l.approver_type ApprovalApproverType.department_manager)
      levels
    && not (should_skip_department_manager_stage e)
    && lacks_manager e.department

abbrev budget_row : BudgetSubmitEvaluation → Option DepartmentBudget
budget_row check = elim check.summary [ none ↦ none | some s ↦ s.budget ]

module _ (rt : Runtime) where
  -- The checks that `submit` makes on the draft, before and again inside the transaction.
  unfoldable pub assert_submittable : AuthUser → Expense → Result (Unit {0})
  assert_submittable u e = do
    assert_can_mutate_expense_draft u e ExpenseDraftMutation.submit true
    assert_draft_status e ExpenseDraftMutation.submit
    assert_non_empty_title e.title
    assert_positive_amount e.amount
    assert_incurred_at rt e.incurred_at

  -- The entity that `submit` saves; a time that is set to undefined is not written.
  unfoldable pub submitted_expense : LoadedExpense → List ApprovalLevel → ℕ → Expense
  submitted_expense e levels submit_at =
      let status =
        if requires_approval_chain e levels
        then resolve_initial_submit_status e levels
        else ExpenseStatus.approved in
      record e.row {
        status = status;
        submitted_at = some submit_at;
        approved_at = if same_status status ExpenseStatus.approved then some submit_at else none;
        rejected_at = none;
        reimbursed_at = none;
      }

  -- The event of the new status.
  publish_submission : Expense → AuthUser → ℕ → Db → Db
  publish_submission e u submit_at db =
      if same_status e.status ExpenseStatus.approved
      then publish (Event.expense_approved e.id e.user_id u.id submit_at) db
      else let submitted = publish (Event.expense_submitted e.id e.user_id u.id submit_at) db in
        if same_status e.status ExpenseStatus.under_review
        then publish (Event.expense_pending_finance e.id e.user_id u.id submit_at) submitted
        else submitted

  publish_budget_impact : Expense → AuthUser → ℕ → BudgetSubmitEvaluation → Db → Db
  publish_budget_impact e u submit_at check db = elim (budget_row check) [
    | none ↦ db
    | some b ↦
        if b.department_id == 0
        then db
        else publish (Event.expense_budget_committed e.id u.id b.department_id submit_at) db
  ]

  -- What `submit` writes once every check has passed.
  unfoldable pub complete_submission :
      AuthUser → LoadedExpense → List ApprovalLevel → ℕ → BudgetSubmitEvaluation → Db → Db
  unfolding publish_submission publish_budget_impact
  complete_submission u e levels submit_at check db =
      let after = submitted_expense e levels submit_at in
      publish_budget_impact after u submit_at check
        (publish_submission after u submit_at (save_and_sync rt e.row after db))

  -- The body of the transaction of `submit`.
  unfoldable pub submit_in_transaction : AuthUser → String → ℕ → Db → Result (Expense × Db)
  submit_in_transaction u reference submit_at db = do
    locked ← load_expense_for_mutation rt reference db
    assert_submittable u locked
    assigned ← assign_department locked db
    let e = with_active_department assigned db
    let levels = load_active_levels db
    throw_if (manager_is_missing e levels) (
        bad_request
          "Your department must have an assigned manager before expenses can be submitted for approval")
    check ← evaluate_expense_submit rt u.id e.row.amount submit_at e.row.department_id db
    throw_if (not check.allowed)
        (bad_request "Submitting this expense would exceed your department annual budget")
    ok (submitted_expense e levels submit_at, complete_submission u e levels submit_at check db)

  -- `assert_compliant` is `IExpensePolicyService.assertCompliant`.
  module _ (assert_compliant : PolicyEvaluationContext → Db → Result (Unit {0})) where
    -- The checks of `submit` before the transaction, and the time of submission.
    unfoldable pub submission_context : AuthUser → String → Db → Result PolicyEvaluationContext
    submission_context u reference db = do
      draft ← find_one rt u reference db
      assert_submittable u draft.row
      let context = build_submit_policy_context rt u draft.row db
      assert_compliant context db
      ok context

    -- `ExpenseSubmitService.submit`
    unfoldable pub submit : AuthUser → String → Db → Result Expense × Db
    submit u reference db = elim (submission_context u reference db) [
      | err x ↦ (err x, db)
      | ok context ↦ transaction (submit_in_transaction u reference context.submitted_at) db
    ]
