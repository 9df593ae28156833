-- ===== src/Approval/Decision/Stored.antt =====
-- The row of the expense that an approval leaves.
use expentra.Prelude.{
  ℕ, Option, none, some, [], ◌∷◌, ◌++◌, ◌≡◌, refl, arith, subst, sym, if◌then◌else◌,
}
use expentra.Prelude.Result.{ok}
use expentra.Entities.{
  ExpenseStatus, same_status, Expense, LoadedExpense, ApprovalLevel, ApprovalDecision,
  ExpenseApproval,
}
use expentra.Store.{Db, find_expense, saved_row, saved_column, publish}
use expentra.Runtime.{Runtime}
use expentra.Authorization.Types.{AuthUser}
use expentra.Approval.Routing.{resolve_status_after_level_approval}
use expentra.Approval.Decision.{
  ApproveExpenseInput, load_active_levels, save_and_sync, approved_expense, publish_approval,
  complete_approval, approve,
}
use expentra.Approval.Decision.Approving.{Decides}
use expentra.Approval.Decision.Books.{Loads-found, find_expense-frame, find-save_and_sync}
use expentra.Approval.Decision.Outcome.{approve-returned}

-- The row of the expense after an approval of a stage: the status is the one that follows the stage,
-- and of the times only that of approval changes, where the expense is approved.
pub record StoresApproval (rt : Runtime) (e : LoadedExpense) (stage : ApprovalLevel) (db db' : Db)
    : Type 0 where
  pub row : Expense
  pub stored : find_expense db' e.row.id ≡ some row
  pub status : row.status ≡ resolve_status_after_level_approval stage e (load_active_levels db)
  pub approved_at :
      row.approved_at
      ≡ (if same_status row.status ExpenseStatus.approved then some rt.now else e.row.approved_at)
  pub rejected_at : row.rejected_at ≡ e.row.rejected_at
  pub submitted_at : row.submitted_at ≡ e.row.submitted_at
  pub reimbursed_at : row.reimbursed_at ≡ e.row.reimbursed_at

saved_column-same : (column : Option ℕ) → saved_column column column ≡ column
saved_column-same none = refl
saved_column-same (some t) = refl

module _ (rt : Runtime) (e : LoadedExpense) (stage : ApprovalLevel) (db stored : Db)
    (approver_id : ℕ) where
  complete_approval-StoresApproval :
      find_expense stored e.row.id ≡ some e.row
      → StoresApproval rt e stage db
          (complete_approval rt e stage (load_active_levels db) approver_id stored)
  unfolding complete_approval publish_approval publish approved_expense saved_row
  complete_approval-StoresApproval found =
      let status = resolve_status_after_level_approval stage e (load_active_levels db) in
      let after = approved_expense rt e.row status in
      record {
        row = saved_row e.row after;
        stored =
            find_expense-frame (save_and_sync rt e.row after stored)
              (complete_approval rt e stage (load_active_levels db) approver_id stored) e.row.id
              (saved_row e.row after) (ground arith)
              (find-save_and_sync rt e.row after e.row stored found);
        status = refl;
        approved_at = ground arith;
        rejected_at = refl;
        submitted_at = saved_column-same e.row.submitted_at;
        reimbursed_at = saved_column-same e.row.reimbursed_at;
      }

module _ (rt : Runtime) (u : AuthUser) (id : ℕ) (input : ApproveExpenseInput) (db db' : Db) where
  -- An approval that returns was made by a caller who does not own the expense, may decide on it,
  -- and may act on its stage themselves or as a delegate; the stage was the active one, ready and
  -- without a decision. The approvals gain that one row, which names the expense, the stage and the
  -- caller, and what else is written is what `complete_approval` writes: the row of the expense has
  -- the status that follows the stage, the current time as that of its approval where it is
  -- approved, and otherwise the times that it had.
  pub approve-stored :
      (a : ExpenseApproval)
      → approve rt u id input db ≡ (ok a, db')
      → (e : LoadedExpense) × (stage : ApprovalLevel) × Decides rt u id db a e stage
        × (a.decision ≡ ApprovalDecision.approved)
        × StoresApproval rt e stage db db'
        × (db'
            ≡ complete_approval rt e stage
                (load_active_levels db)
                u.id
                (record db { approvals = db.approvals ++ a ∷ [] }))
  approve-stored a h =
      let (e, stage, decides, approved, written) = approve-returned rt u id input db db' a h in
      let stored = record db { approvals = db.approvals ++ a ∷ [] } in
      let found =
        find_expense-frame db stored e.row.id e.row refl
          (Loads-found db id u e decides.opened.loads) in
      (
        e,
        stage,
        decides,
        approved,
        subst (StoresApproval rt e stage db) (sym written)
            (complete_approval-StoresApproval rt e stage db stored u.id found),
        written,
      )
