-- ===== src/Approval/Rejection/Stored.antt =====
-- The row of the expense that a rejection leaves.
use expentra.Prelude.{ℕ, false, String, some, [], ◌∷◌, ◌++◌, ◌≡◌, refl, subst, sym, is_empty, trim}
use expentra.Prelude.Result.{ok}
use expentra.Entities.{
  ExpenseStatus, Expense, LoadedExpense, ApprovalLevel, ApprovalDecision, ExpenseApproval,
}
use expentra.Store.{Db, find_expense, saved_row, publish}
use expentra.Runtime.{Runtime}
use expentra.Authorization.Types.{AuthUser}
use expentra.Approval.Decision.{save_and_sync}
use expentra.Approval.Decision.Approving.{Decides}
use expentra.Approval.Decision.Books.{Loads-found, find_expense-frame, find-save_and_sync}
use expentra.Approval.Rejection.{
  rejected_expense, add_rejection_comment, complete_rejection, reject,
}
use expentra.Approval.Rejection.Outcome.{reject-returned}

-- The row of the expense after a rejection: the times of submission and of approval stay.
pub record StoresRejection (rt : Runtime) (e : LoadedExpense) (db' : Db) : Type 0 where
  pub row : Expense
  pub stored : find_expense db' e.row.id ≡ some row
  pub status : row.status ≡ ExpenseStatus.rejected
  pub rejected_at : row.rejected_at ≡ some rt.now
  pub approved_at : row.approved_at ≡ e.row.approved_at

complete_rejection-StoresRejection :
    (rt : Runtime) (e : LoadedExpense) (approver_id : ℕ) (comment : String) (stored : Db)
    → find_expense stored e.row.id ≡ some e.row
    → StoresRejection rt e (complete_rejection rt e.row approver_id comment stored)
unfolding complete_rejection add_rejection_comment publish rejected_expense saved_row
complete_rejection-StoresRejection rt e approver_id comment stored found =
    let after = rejected_expense rt e.row in
    record {
      row = saved_row e.row after;
      stored =
          find_expense-frame (save_and_sync rt e.row after stored)
            (complete_rejection rt e.row approver_id comment stored) e.row.id
            (saved_row e.row after) refl (find-save_and_sync rt e.row after e.row stored found);
      status = refl;
      rejected_at = refl;
      approved_at = refl;
    }

module _ (rt : Runtime) (u : AuthUser) (id : ℕ) (input : String) (db db' : Db) where
  -- A rejection that returns has a comment that is not blank and was made at the active stage,
  -- ready and without a decision, by a caller who does not own the expense and may decide on it and
  -- act on the stage. The approvals gain that one row, and what else is written is what
  -- `complete_rejection` writes: the row of the expense is rejected at the current time, and keeps
  -- the time of approval that it had.
  pub reject-stored :
      (a : ExpenseApproval)
      → reject rt u id input db ≡ (ok a, db')
      → (is_empty (trim input) ≡ false)
        × ((e : LoadedExpense) × (stage : ApprovalLevel) × Decides rt u id db a e stage
            × (a.decision ≡ ApprovalDecision.rejected)
            × StoresRejection rt e db'
            × (db'
                ≡ complete_rejection rt e.row u.id
                    (trim input)
                    (record db { approvals = db.approvals ++ a ∷ [] })))
  reject-stored a h =
      let (commented, (e, stage, decides, rejected, written)) =
        reject-returned rt u id input db db' a h in
      let stored = record db { approvals = db.approvals ++ a ∷ [] } in
      let found =
        find_expense-frame db stored e.row.id e.row refl
          (Loads-found db id u e decides.opened.loads) in
      (
        commented,
        (
          e,
          stage,
          decides,
          rejected,
          subst (StoresRejection rt e) (sym written)
              (complete_rejection-StoresRejection rt e u.id (trim input) stored found),
          written,
        ),
      )
