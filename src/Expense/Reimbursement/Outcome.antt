-- ===== src/Expense/Reimbursement/Outcome.antt =====
-- The outcome of a reimbursement, on every branch.
use expentra.Prelude.{◌≡◌, inl, inr, refl, arith, subst, sym, String}
use expentra.Prelude.Result.{Exception, Result, ok, err, >>=-eq-ok-then}
use expentra.Entities.{ExpenseStatus, Expense}
use expentra.Store.{Db, transaction, publish}
use expentra.Runtime.{Runtime}
use expentra.Authorization.Types.{AuthUser}
use expentra.Authorization.Policy.{assert_can_reimburse_expense}
use expentra.Budget.Sync.{to_expense_budget_snapshot}
use expentra.Budget.Sync.Transition.{IsTransition, in_ledger_lem}
use expentra.Budget.Books.{KeepsBooks, Attributed, Attributed-found, save-sync-KeepsBooks}
use expentra.Approval.Decision.{save_and_sync}
use expentra.Approval.Decision.Books.{KeepsBooks-frame}
use expentra.Expense.Support.{load_expense_for_mutation}
use expentra.Expense.Support.Loading.{load_expense_for_mutation-found}
use expentra.Expense.Reimbursement.{reimbursed_expense, reimburse_in_transaction, reimburse}

-- The row that a reimbursement changes.
pub record Reimburses (rt : Runtime) (u : AuthUser) (reference : String) (db : Db) (a : Expense)
    : Type 0 where
  pub row : Expense
  pub loaded : load_expense_for_mutation rt reference db ≡ ok row
  pub was_approved : row.status ≡ ExpenseStatus.approved
  pub becomes : a ≡ reimbursed_expense rt row

reimbursed-IsTransition :
    (rt : Runtime) (e : Expense)
    → e.status ≡ ExpenseStatus.approved
    → Attributed e
    → IsTransition
        (to_expense_budget_snapshot e)
        (to_expense_budget_snapshot (reimbursed_expense rt e))
unfolding to_expense_budget_snapshot reimbursed_expense
reimbursed-IsTransition rt e approved (inl out) = absurd (ground (arith, in_ledger_lem e.status))
reimbursed-IsTransition rt e approved (inr a) = record {
  attributed_before = inr a;
  attributed_after = inr a;
  not_reimbursed = ground arith;
  from_approved = λ _. approved;
  same_department = λ _. refl;
  same_time = λ _. refl;
  same_amount = λ _. refl;
}

module _ (rt : Runtime) (u : AuthUser) (reference : String) (db db' : Db) where
  pub reimburse-failed : (x : Exception) → reimburse rt u reference db ≡ (err x, db') → db' ≡ db
  unfolding reimburse transaction
  reimburse-failed x h = ground arith

  reimburse_in_transaction-ok :
      (a : Expense)
      → reimburse_in_transaction rt u reference db ≡ ok (a, db')
      → (r : Reimburses rt u reference db a) × (db'.expenses
          ≡ (save_and_sync rt r.row a db).expenses)
        × (db'.budgets ≡ (save_and_sync rt r.row a db).budgets)
  unfolding reimburse_in_transaction publish
  reimburse_in_transaction-ok a h =
      >>=-eq-ok-then (load_expense_for_mutation rt reference db) _ h λ row loaded h1. (
        record { row = row; loaded = loaded; was_approved = ground arith; becomes = ground arith },
        ground arith,
        ground arith,
      )

  -- A reimbursement that returns was called with the permission to reimburse, found an approved
  -- expense under its reference, and returns it marked as reimbursed.
  pub reimburse-returned :
      (a : Expense)
      → reimburse rt u reference db ≡ (ok a, db')
      → (assert_can_reimburse_expense u ≡ ok tt) × Reimburses rt u reference db a
  unfolding reimburse transaction
  reimburse-returned a h = (ground arith, (reimburse_in_transaction-ok a (ground arith)).0)

  returned-KeepsBooks :
      (a : Expense)
      → reimburse_in_transaction rt u reference db ≡ ok (a, db')
      → KeepsBooks rt.zone db
      → KeepsBooks rt.zone db'
  unfolding save_and_sync reimbursed_expense
  returned-KeepsBooks a h b =
      let (r, es, bs) = reimburse_in_transaction-ok a h in
      let found = load_expense_for_mutation-found rt reference db r.row r.loaded in
      let tr =
        reimbursed-IsTransition rt r.row r.was_approved
          (Attributed-found rt.zone db r.row.id r.row b found) in
      let e' = reimbursed_expense rt r.row in
      let saved = save-sync-KeepsBooks rt.zone db r.row e' found tr b in
      KeepsBooks-frame rt.zone (save_and_sync rt r.row e' db) db' (rw (← r.becomes) es)
        (rw (← r.becomes) bs) saved

-- Whatever a reimbursement does, the budget rows hold the sums over the expenses.
pub reimburse-KeepsBooks :
    (rt : Runtime) (u : AuthUser) (reference : String) (db db' : Db) (r : Result Expense)
    → reimburse rt u reference db ≡ (r, db')
    → KeepsBooks rt.zone db
    → KeepsBooks rt.zone db'
unfolding reimburse transaction
reimburse-KeepsBooks rt u reference db db' (err x) h b =
    subst (KeepsBooks rt.zone) (sym (reimburse-failed rt u reference db db' x h)) b
reimburse-KeepsBooks rt u reference db db' (ok a) h b =
    returned-KeepsBooks rt u reference db db' a (ground arith) b
