-- ===== src/Expense/Draft/Reopened.antt =====
-- What reopening a rejected expense leaves in the tables, where `reopenRejected` sets the times of
-- the entity to undefined, and the submission that follows.
use expentra.Prelude.{
  ℕ, false, none, some, List, [], ◌∷◌, ◌≡◌, ◌==◌, not, filter, any, refl, arith, subst, sym, String,
}
use expentra.Prelude.Result.{Result, ok, >>=-eq-ok-then}
use expentra.Entities.{ExpenseStatus, Expense, ExpenseApproval}
use expentra.Store.{Db, transaction, find_expense, save_expense, saved_row, publish}
use expentra.Store.Rows.{find-save_expense}
use expentra.Runtime.{Runtime}
use expentra.Authorization.Types.{AuthUser}
use expentra.Approval.Decision.Books.{find_expense-frame}
use expentra.Expense.Support.{load_expense_for_mutation}
use expentra.Expense.Support.Loading.{load_expense_for_mutation-found}
use expentra.Expense.Draft.{reopened_expense, reopen_in_transaction, reopen_rejected}

-- The expense that was reopened, and the row that is stored of it.
pub record Reopening (db : Db) (saved : Expense) (db' : Db) : Type 0 where
  pub rejected : Expense
  pub row : Expense
  pub found : find_expense db saved.id ≡ some rejected
  pub was_rejected : rejected.status ≡ ExpenseStatus.rejected
  pub stored : find_expense db' saved.id ≡ some row
  pub is_draft : row.status ≡ ExpenseStatus.draft
  pub forgets_time : saved.submitted_at ≡ none
  pub keeps_time : row.submitted_at ≡ rejected.submitted_at
  pub keeps_rejection : row.rejected_at ≡ rejected.rejected_at
  pub drops_decisions : any (λ a. a.expense_id == saved.id) db'.approvals ≡ false

filtered-none :
    (id : ℕ) (approvals : List ExpenseApproval)
    → any (λ a. a.expense_id == id) (filter (λ a. not (a.expense_id == id)) approvals) ≡ false
filtered-none id [] = refl
filtered-none id (a ∷ approvals) = ground (arith, filtered-none id approvals)

module _ (rt : Runtime) (u : AuthUser) (reference : String) (db db' : Db) (saved : Expense) where
  reopen_in_transaction-Reopening :
      reopen_in_transaction rt u reference db ≡ ok (saved, db') → Reopening db saved db'
  unfolding reopen_in_transaction reopened_expense publish saved_row save_expense
  reopen_in_transaction-Reopening h =
      >>=-eq-ok-then (load_expense_for_mutation rt reference db) _ h λ e loaded h1.
        let after = reopened_expense e in
        let approvals = filter (λ a. not (a.expense_id == e.id)) db.approvals in
        let cleared = record db { approvals = approvals } in
        let same : after ≡ saved = ground arith in
        let left : db'.approvals ≡ approvals = ground arith in
        let found = load_expense_for_mutation-found rt reference db e loaded in
        subst (λ v. Reopening db v db') same
          (record {
            rejected = e;
            row = saved_row e after;
            found = found;
            was_rejected = ground arith;
            stored =
                find_expense-frame (save_expense after cleared) db' e.id (saved_row e after)
                  (ground arith)
                  (find-save_expense after cleared e
                    (find_expense-frame db cleared e.id e refl found));
            is_draft = refl;
            forgets_time = refl;
            keeps_time = refl;
            keeps_rejection = refl;
            drops_decisions =
                subst (λ left. any (λ a. a.expense_id == e.id) left ≡ false) (sym left)
                  (filtered-none e.id db.approvals);
          })

  -- A reopening that returns was of a stored rejected expense, whose decisions are gone and which its
  -- key then finds as a draft. What it returns has no time of submission, but the draft that is
  -- stored keeps the times of submission and of rejection that it had.
  pub reopen_rejected-Reopening :
      reopen_rejected rt u reference db ≡ (ok saved, db') → Reopening db saved db'
  unfolding reopen_rejected transaction
  reopen_rejected-Reopening h = reopen_in_transaction-Reopening (ground arith)
