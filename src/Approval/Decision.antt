-- ===== src/Approval/Decision.antt =====
-- modules/approval/services/approval.service.ts
pub mod Loading
pub mod Approving
pub mod Books
pub mod Outcome
pub mod Stored
use expentra.Prelude.{
  ℕ, Bool, true, false, Option, none, some, List, [], ◌∷◌, ◌++◌, map, ◌&&◌, ◌||◌, not, ◌==◌, ltb,
  if◌then◌else◌, find?, filter, any, is_none, is_empty, trim, trimmed, String, ◌<>◌, length,
}
use expentra.Prelude.Result.{
  Exception, Result, ok, err, bad_request, forbidden, not_found, conflict, throw_if, ◌>>=◌, ◌>>◌,
}
use expentra.Entities.{
  ExpenseStatus, same_status, ApprovalDecision, ApprovalApproverType, same_approver, Expense,
  LoadedExpense, ApprovalLevel, OverBudgetNote, ExpenseApproval, ExpenseComment,
}
use expentra.Store.{
  Db, Event, transaction, find_expense, find_user, find_department, save_expense, publish, next_id,
}
use expentra.Runtime.{Runtime}
use expentra.Reference.{find_entity_by_reference}
use expentra.Authorization.Types.{AuthUser}
use expentra.Authorization.Access.{can_act_on_approval_stage}
use expentra.Authorization.Policy.{assert_can_decide_on_expense}
use expentra.Budget.Sync.{to_expense_budget_snapshot, sync_committed_amount_for_expense_transition}
use expentra.Budget.Evaluation.{evaluate_expense_approve}
use expentra.Approval.Routing.{
  sort_levels, requires_approval_chain, is_pending, get_active_stage,
  resolve_status_after_level_approval, assert_ready_for_stage_approval,
}
use expentra.Approval.Delegation.{can_act_as_delegate}

pub record ApproveExpenseInput : Type 0 where
  pub comment : Option String
  pub over_budget_acknowledged : Bool

-- What `assertOverBudgetApprovalAllowed` returns.
pub record BudgetCheck : Type 0 where
  pub would_exceed : Bool
  pub committed_amount : ℕ

-- `parsePositiveIntId` on a number, for an expense.
unfoldable pub normalize_expense_id : ℕ → Result ℕ
normalize_expense_id id =
    if ltb 0 id then ok id else err (bad_request "Valid expense id is required")

-- `loadActiveLevels` of approval-level-catalog.service.ts
unfoldable pub load_active_levels : Db → List ApprovalLevel
load_active_levels db = sort_levels (filter (λ l. l.is_active) db.levels)

-- The relations that the loads of an expense join.
unfoldable pub join_expense : Db → Expense → LoadedExpense
join_expense db e = record {
  row = e;
  user = find_user db e.user_id;
  department = elim e.department_id [ none ↦ none | some d ↦ find_department db d ];
}

-- `loadExpenseForDecision`
unfoldable pub load_expense_for_decision : Db → ℕ → AuthUser → Result LoadedExpense
load_expense_for_decision db id u = do
  normalized ← normalize_expense_id id
  elim (find_expense db normalized) [
    | none ↦ err (not_found "Expense not found")
    | some e ↦ assert_can_decide_on_expense u (join_expense db e) >> ok (join_expense db e)
  ]

-- `find({ where: { expenseId } })`
unfoldable pub approvals_of : ℕ → Db → List ExpenseApproval
approvals_of expense_id db = filter (λ a. a.expense_id == expense_id) db.approvals

abbrev has_decision : ℕ → ℕ → Db → Bool
has_decision expense_id level_id db =
    any (λ a. a.expense_id == expense_id && a.approval_level_id == level_id) db.approvals

abbrev already_decided : String → Exception
already_decided name = conflict ("This expense already has a decision at approval level " <> name)

-- `assertNoDecisionAtLevel`
unfoldable pub assert_no_decision_at_level : ℕ → ApprovalLevel → Db → Result (Unit {0})
assert_no_decision_at_level id level db = do
  normalized ← normalize_expense_id id
  throw_if (has_decision normalized level.id db) (already_decided level.name)

-- `loadApprovalDecision`
load_approval_decision : ℕ → Db → Result (ExpenseApproval × Db)
load_approval_decision id db = elim (find? (λ a. a.id == id) db.approvals) [
  | none ↦ err (not_found "Approval decision not found")
  | some a ↦ ok (a, db)
]

-- `persistApprovalDecision`; the index `UQ_expense_approvals_expense_level` refuses a second row of
-- an expense and a level.
unfoldable pub persist_approval_decision :
    ExpenseApproval → String → Db → Result (ExpenseApproval × Db)
unfolding load_approval_decision
persist_approval_decision a stage_name db = do
  throw_if (has_decision a.expense_id a.approval_level_id db) (already_decided stage_name)
  load_approval_decision a.id (record db { approvals = db.approvals ++ a ∷ [] })

-- The key of the next row of `expense_approvals`.
unfoldable pub next_approval_id : Db → ℕ
next_approval_id db = next_id (map (λ a. a.id) db.approvals)

module _ (rt : Runtime) where
  -- `assertCanActOnStage`, with `ApprovalRoutingService.canActOnStage`.
  unfoldable pub assert_can_act_on_stage :
      AuthUser → ApprovalLevel → LoadedExpense → Db → Result (Unit {0})
  assert_can_act_on_stage u stage e db =
      if can_act_on_approval_stage u e stage
      then ok tt
      else if can_act_as_delegate rt u e stage db
      then ok tt
      else err (forbidden "You are not authorized to approve at the stage for this expense")

  -- `assertOverBudgetApprovalAllowed`
  unfoldable pub assert_over_budget_approval_allowed :
      LoadedExpense → ApprovalLevel → Option String → Bool → Db → Result BudgetCheck
  assert_over_budget_approval_allowed e stage comment acknowledged db = do
    let as_of : ℕ = elim e.row.submitted_at [ none ↦ rt.now | some t ↦ t ]
    evaluation ← evaluate_expense_approve rt e.row.department_id as_of db
    throw_if (evaluation.would_exceed && is_none comment)
        (bad_request "A justification comment is required to approve an over-budget expense")
    throw_if
        (evaluation.would_exceed
          && same_approver stage.approver_type ApprovalApproverType.finance_manager
          && not acknowledged)
        (bad_request "You must acknowledge authorizing this over-budget expense before approving")
    ok (record {
      would_exceed = evaluation.would_exceed;
      committed_amount = evaluation.committed_amount;
    })

  -- Saving an expense that was loaded as `before`, and the sync of the budget rows.
  unfoldable pub save_and_sync : Expense → Expense → Db → Db
  save_and_sync before after db =
      sync_committed_amount_for_expense_transition rt.zone
        (some (to_expense_budget_snapshot before)) (some (to_expense_budget_snapshot after))
        (save_expense after db)

  -- `healExpenseWithNoApprovalChain`; the time of rejection is set to undefined, and so not written.
  pub heal_expense_with_no_approval_chain :
      LoadedExpense → List ApprovalLevel → Db → Option (Expense × Db)
  heal_expense_with_no_approval_chain e levels db =
      if not (is_pending e.row.status) || requires_approval_chain e levels
      then none
      else let healed = record e.row {
        status = ExpenseStatus.approved;
        approved_at = some rt.now;
        rejected_at = none;
      } in
        let stored = save_and_sync e.row healed db in
        elim (find_expense stored e.row.id) [ none ↦ none | some row ↦ some (row, stored) ]

  -- The branch of `approve` and of `reject` for an expense without an active stage.
  pub no_active_stage {ℓ} : {A : Type ℓ} → LoadedExpense → List ApprovalLevel → Db → Result A
  no_active_stage e levels db = elim (heal_expense_with_no_approval_chain e levels db) [
    | some _ ↦
        err (conflict "This expense has no approval stages configured and was marked approved")
    | none ↦ err (conflict "This expense is not awaiting approval")
  ]

  -- The active stage, or the exception.
  unfoldable pub stage_to_decide : LoadedExpense → Db → Result ApprovalLevel
  stage_to_decide e db =
      let levels = load_active_levels db in
      elim (get_active_stage e levels (approvals_of e.row.id db)) [
        | none ↦ no_active_stage e levels db
        | some stage ↦ ok stage
      ]

  -- The checks that `approve` and `reject` begin with.
  unfoldable pub stage_open_to : AuthUser → ℕ → Db → Result (LoadedExpense × ApprovalLevel)
  stage_open_to u id db = do
    e ← load_expense_for_decision db id u
    stage ← stage_to_decide e db
    assert_ready_for_stage_approval stage e (load_active_levels db) (approvals_of e.row.id db)
    assert_can_act_on_stage u stage e db
    ok (e, stage)

  -- The entity that `approve` saves; a time that is set to undefined is not written.
  unfoldable pub approved_expense : Expense → ExpenseStatus → Expense
  approved_expense e status = record e {
    status = status;
    approved_at = if same_status status ExpenseStatus.approved then some rt.now else none;
    rejected_at = none;
  }

  -- The event that `approve` publishes.
  unfoldable pub publish_approval : Expense → ℕ → Db → Db
  publish_approval e approver_id db =
      if same_status e.status ExpenseStatus.under_review
      then publish (Event.expense_pending_finance e.id e.user_id approver_id rt.now) db
      else if same_status e.status ExpenseStatus.approved
      then publish (Event.expense_approved e.id e.user_id approver_id rt.now) db
      else db

  -- The row that `approve` inserts.
  unfoldable pub approval_row :
      AuthUser → Option String → Bool → Expense → ApprovalLevel → BudgetCheck → Db → ExpenseApproval
  approval_row u comment acknowledged e stage check db = record {
    id = next_approval_id db;
    expense_id = e.id;
    approval_level_id = stage.id;
    approver_id = u.id;
    decision = ApprovalDecision.approved;
    comment = comment;
    decided_at = rt.now;
    metadata =
        if check.would_exceed
        then some (record {
          over_budget_acknowledged = acknowledged;
          committed_amount = check.committed_amount;
        })
        else none;
  }

  -- What `approve` writes after the decision.
  unfoldable pub complete_approval :
      LoadedExpense → ApprovalLevel → List ApprovalLevel → ℕ → Db → Db
  complete_approval e stage levels approver_id db =
      let after = approved_expense e.row (resolve_status_after_level_approval stage e levels) in
      publish_approval after approver_id (save_and_sync e.row after db)

  -- The body of the transaction of `approve`.
  unfoldable pub approve_in_transaction :
      AuthUser → ℕ → Option String → Bool → Db → Result (ExpenseApproval × Db)
  approve_in_transaction u id comment acknowledged db = do
    (e, stage) ← stage_open_to u id db
    check ← assert_over_budget_approval_allowed e stage comment acknowledged db
    assert_no_decision_at_level e.row.id stage db
    (saved, stored) ←
        persist_approval_decision (approval_row u comment acknowledged e.row stage check db)
          stage.name db
    ok (saved, complete_approval e stage (load_active_levels db) u.id stored)

  -- `ApprovalService.approve`
  unfoldable pub approve : AuthUser → ℕ → ApproveExpenseInput → Db → Result ExpenseApproval × Db
  approve u id input db = elim (normalize_expense_id id) [
    | err x ↦ (err x, db)
    | ok normalized ↦
        transaction
          (approve_in_transaction u normalized (trimmed input.comment)
            input.over_budget_acknowledged)
          db
  ]
