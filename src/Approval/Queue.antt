-- ===== src/Approval/Queue.antt =====
-- modules/approval/services/actionable-approval-queue.service.ts: the expenses that wait for a
-- decision of the caller.
pub mod Actionable
use expentra.Prelude.{
  ℕ, Bool, true, false, Option, none, some, List, [], ◌∷◌, ◌&&◌, ◌||◌, not, ◌==◌, filter, map,
  includes, any, if◌then◌else◌,
}
use expentra.Entities.{User, Expense, LoadedExpense, ApprovalLevel, ExpenseApproval}
use expentra.Store.{Db}
use expentra.Runtime.{Runtime}
use expentra.Authorization.Types.{AuthUser}
use expentra.Authorization.Access.{
  is_manager_approver, has_global_approval_permission, can_decide_on_expense,
  can_act_on_approval_stage,
}
use expentra.Approval.Routing.{is_pending, get_active_stage}
use expentra.Approval.Delegation.{can_act_as_delegate}
use expentra.Approval.Decision.{join_expense, approvals_of}
use expentra.Approval.Levels.{LevelCatalog, get_active_levels}

-- `column IN (:...ids)`
abbrev pub is_among : List ℕ → Option ℕ → Bool
is_among ids none = false
is_among ids (some d) = includes ids d

abbrev pub owner_department : LoadedExpense → Option ℕ
owner_department e = elim e.user [ none ↦ none | some owner ↦ owner.department_id ]

-- The departments of the query of `loadPendingCandidates`.
unfoldable pub in_department_scope : AuthUser → LoadedExpense → Bool
in_department_scope u e =
    if is_manager_approver u && not (has_global_approval_permission u)
    then is_among u.managed_department_ids e.row.department_id
      || is_among u.managed_department_ids (owner_department e)
    else true

-- A row of `loadPendingCandidates`. A manager without departments has no rows, as the condition on
-- the departments then holds of none.
unfoldable pub is_pending_candidate : AuthUser → LoadedExpense → Bool
is_pending_candidate u e =
    is_pending e.row.status && not (e.row.user_id == u.id) && in_department_scope u e

module _ (rt : Runtime) where
  -- `isActionableForUser`
  unfoldable pub is_actionable_for_user :
      AuthUser → LoadedExpense → List ApprovalLevel → List ExpenseApproval → Db → Bool
  is_actionable_for_user u e levels approvals db =
      if not (can_decide_on_expense u e)
      then false
      else elim (get_active_stage e levels approvals) [
        | none ↦ false
        | some stage ↦ can_act_on_approval_stage u e stage || can_act_as_delegate rt u e stage db
      ]

  -- The loop of `getActionableExpenseIds` keeps the candidates that are actionable.
  unfoldable pub is_queued : AuthUser → List ApprovalLevel → Db → Expense → Bool
  is_queued u levels db row =
      let e = join_expense db row in
      is_pending_candidate u e && is_actionable_for_user u e levels (approvals_of row.id db) db

  -- `getActionableExpenseIds`; the levels are those that the catalog serves, which come from its
  -- cache while that lives.
  unfoldable pub get_actionable_expense_ids : AuthUser → LevelCatalog → List ℕ × LevelCatalog
  get_actionable_expense_ids u s =
      let (levels, served) = get_active_levels rt s in
      if any (λ row. is_pending_candidate u (join_expense s.db row)) s.db.expenses
      then (map (λ row. row.id) (filter (is_queued u levels s.db) s.db.expenses), served)
      else ([], s)
