-- ===== src/Approval/Rejection/Outcome.antt =====
-- The outcome of `ApprovalService.reject`, on every branch.
use expentra.Prelude.{
  ℕ, false, [], ◌∷◌, ◌++◌, ◌≡◌, refl, arith, subst, sym, ap, String, trim, is_empty,
}
use expentra.Prelude.Result.{Exception, Result, ok, err, >>=-eq-ok-then}
use expentra.Entities.{ApprovalDecision, LoadedExpense, ApprovalLevel, ExpenseApproval}
use expentra.Store.{Db, transaction, publish}
use expentra.Runtime.{Runtime}
use expentra.Authorization.Types.{AuthUser}
use expentra.Budget.Books.{KeepsBooks}
use expentra.Approval.Decision.{
  stage_open_to, normalize_expense_id, assert_no_decision_at_level, persist_approval_decision,
  save_and_sync,
}
use expentra.Approval.Decision.Loading.{persist_approval_decision-ok}
use expentra.Approval.Decision.Approving.{Decides, IsOpenTo, stage_open_to-IsOpenTo}
use expentra.Approval.Decision.Books.{KeepsBooks-frame, save_and_sync-decided}
use expentra.Approval.Rejection.{
  rejection_row, rejected_expense, add_rejection_comment, complete_rejection, reject_in_transaction,
  reject,
}

module _ (rt : Runtime) (u : AuthUser) (id : ℕ) (comment : String) (db db' : Db)
    (a : ExpenseApproval) where
  reject_in_transaction-ok :
      reject_in_transaction rt u id comment db ≡ ok (a, db')
      → (e : LoadedExpense) × (stage : ApprovalLevel) × Decides rt u id db a e stage
        × (a.decision ≡ ApprovalDecision.rejected)
        × (db'
            ≡ complete_rejection rt e.row u.id comment
                (record db { approvals = db.approvals ++ a ∷ [] }))
  unfolding reject_in_transaction rejection_row
  reject_in_transaction-ok h = >>=-eq-ok-then (stage_open_to rt u id db) _ h λ (e, stage) opened h1.
      >>=-eq-ok-then (assert_no_decision_at_level e.row.id stage db) _ h1 λ _ free h2.
        >>=-eq-ok-then
          (persist_approval_decision (rejection_row rt u comment e.row stage db) stage.name db) _ h2
          λ (saved, stored) persisted h3.
            let row = rejection_row rt u comment e.row stage db in
            let (same, grown, undecided) =
              persist_approval_decision-ok row saved stage.name db stored refl persisted in
            let is_row : a ≡ row = cc (h3, same) in
            let decides : Decides rt u id db row e stage = record {
              opened = stage_open_to-IsOpenTo rt u id db e stage opened;
              undecided = undecided;
              of_expense = refl;
              at_stage = refl;
              by_caller = refl;
            } in
            (
              e,
              stage,
              subst (λ v. Decides rt u id db v e stage) (sym is_row) decides,
              ap (λ v. v.decision) is_row,
              cc (h3, grown),
            )

module _ (rt : Runtime) (u : AuthUser) (id : ℕ) (e : LoadedExpense) (stage : ApprovalLevel)
    (db : Db) (opened : IsOpenTo rt u id db e stage) where
  complete_rejection-KeepsBooks :
      (approver_id : ℕ) (comment : String) (db' : Db)
      → db'.expenses ≡ db.expenses
      → db'.budgets ≡ db.budgets
      → KeepsBooks rt.zone db
      → KeepsBooks rt.zone (complete_rejection rt e.row approver_id comment db')
  unfolding complete_rejection add_rejection_comment rejected_expense publish
  complete_rejection-KeepsBooks approver_id comment db' same_expenses same_budgets b =
      let e' = rejected_expense rt e.row in
      KeepsBooks-frame rt.zone (save_and_sync rt e.row e' db') _ refl refl (
        save_and_sync-decided rt u id e stage db opened e' db' refl (ground arith) refl refl
          same_expenses same_budgets b)

module _ (rt : Runtime) (u : AuthUser) (id : ℕ) (input : String) (db db' : Db) where
  -- A rejection that fails changes no table.
  pub reject-failed : (x : Exception) → reject rt u id input db ≡ (err x, db') → db' ≡ db
  unfolding reject normalize_expense_id transaction
  reject-failed x h = ground arith

  -- A rejection that returns has a comment that is not blank and was made at the active stage,
  -- ready and without a decision, by a caller who does not own the expense and may decide on it and
  -- act on the stage. The approvals gain that one row, and what else is written is what
  -- `complete_rejection` writes.
  pub reject-returned :
      (a : ExpenseApproval)
      → reject rt u id input db ≡ (ok a, db')
      → (is_empty (trim input) ≡ false)
        × ((e : LoadedExpense) × (stage : ApprovalLevel) × Decides rt u id db a e stage
            × (a.decision ≡ ApprovalDecision.rejected)
            × (db'
                ≡ complete_rejection rt e.row u.id
                    (trim input)
                    (record db { approvals = db.approvals ++ a ∷ [] })))
  unfolding reject normalize_expense_id transaction
  reject-returned a h =
      (ground arith, reject_in_transaction-ok rt u id (trim input) db db' a (ground arith))

-- Whatever a rejection does, the budget rows hold the sums over the expenses.
pub reject-KeepsBooks :
    (rt : Runtime) (u : AuthUser) (id : ℕ) (input : String) (db db' : Db)
    (r : Result ExpenseApproval)
    → reject rt u id input db ≡ (r, db')
    → KeepsBooks rt.zone db
    → KeepsBooks rt.zone db'
reject-KeepsBooks rt u id input db db' (err x) h b =
    subst (KeepsBooks rt.zone) (sym (reject-failed rt u id input db db' x h)) b
reject-KeepsBooks rt u id input db db' (ok a) h b =
    let (_, (e, stage, decides, _, written)) = reject-returned rt u id input db db' a h in
    subst (KeepsBooks rt.zone) (sym written) (
      complete_rejection-KeepsBooks rt u id e stage db decides.opened u.id (trim input)
        (record db { approvals = db.approvals ++ a ∷ [] }) refl refl b)
