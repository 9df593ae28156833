-- ===== src/Approval/Decision/Books.antt =====
-- Decisions keep the books.
use expentra.Prelude.{
  ℕ, true, some, List, ◌≡◌, ◌≢◌, ◌==◌, inl, inr, refl, arith, subst, sym, ap, find?-holds, ==_iff,
}
use expentra.Entities.{ExpenseStatus, Expense, LoadedExpense, ApprovalLevel}
use expentra.Store.{saved_row, Db, find_expense, save_expense, publish}
use expentra.Store.Rows.{find-save_expense}
use expentra.Budget.Sync.Frame.{sync-SameButBudgets}
use expentra.Runtime.{Runtime}
use expentra.Authorization.Types.{AuthUser}
use expentra.Budget.Period.{Zone}
use expentra.Budget.Sync.{to_expense_budget_snapshot}
use expentra.Budget.Sync.Transition.{IsTransition, in_ledger_lem}
use expentra.Budget.Books.{Attributed, KeepsBooks, All-find, save-sync-KeepsBooks}
use expentra.Approval.Routing.{is_pending, resolve_status_after_level_approval}
use expentra.Approval.Routing.Progress.{get_active_stage-pending, resolve_status-cases}
use expentra.Approval.Decision.{
  save_and_sync, approved_expense, publish_approval, complete_approval, join_expense,
}
use expentra.Approval.Decision.Loading.{Loads}
use expentra.Approval.Decision.Approving.{IsOpenTo}

find-id : (db : Db) (id : ℕ) (e : Expense) → find_expense db id ≡ some e → e.id ≡ id
unfolding find_expense
find-id db id e h = (==_iff e.id id).0 (find?-holds (λ x. x.id == id) db.expenses h)

pub find_expense-frame :
    (db db' : Db) (id : ℕ) (e : Expense)
    → db'.expenses ≡ db.expenses
    → find_expense db id ≡ some e
    → find_expense db' id ≡ some e
unfolding find_expense
find_expense-frame db db' id e same h = rw same h

-- An expense that waits for approvals leaves them with its attribution.
pub decided-IsTransition :
    (e e' : Expense)
    → is_pending e.status ≡ true
    → Attributed e
    → e'.status ≢ ExpenseStatus.reimbursed
    → e'.department_id ≡ e.department_id
    → e'.submitted_at ≡ e.submitted_at
    → IsTransition (to_expense_budget_snapshot e) (to_expense_budget_snapshot e')
unfolding to_expense_budget_snapshot
decided-IsTransition e e' pending (inl out) not_paid same_department same_time =
    absurd (ground (arith, in_ledger_lem e.status))
decided-IsTransition e e' pending (inr (d, t, dep, positive, time)) not_paid same_department
      same_time =
    record {
      attributed_before = inr (d, t, dep, positive, time);
      attributed_after = inr (d, t, cc (same_department, dep), positive, cc (same_time, time));
      not_reimbursed = ground arith;
      from_approved = λ h. absurd (not_paid h);
      same_department = λ h. absurd (not_paid h);
      same_time = λ h. absurd (not_paid h);
      same_amount = λ h. absurd (not_paid h);
    }

-- What is stored of the saved expense is there after the sync.
pub find-save_and_sync :
    (rt : Runtime) (e e' old : Expense) (db : Db)
    → find_expense db e'.id ≡ some old
    → find_expense (save_and_sync rt e e' db) e'.id ≡ some (saved_row old e')
unfolding save_and_sync
find-save_and_sync rt e e' old db h =
    let frame =
      sync-SameButBudgets rt.zone (to_expense_budget_snapshot e) (to_expense_budget_snapshot e')
        (save_expense e' db) in
    find_expense-frame _ _ e'.id (saved_row old e') (ap (λ v. v.expenses) frame)
      (find-save_expense e' db old h)

-- The books read two tables.
pub KeepsBooks-frame :
    (z : Zone) (db db' : Db)
    → db'.expenses ≡ db.expenses
    → db'.budgets ≡ db.budgets
    → KeepsBooks z db
    → KeepsBooks z db'
KeepsBooks-frame z db db' same_expenses same_budgets b = record {
  unique = rw same_expenses b.unique;
  attributed = rw same_expenses b.attributed;
  ledger = rw (same_expenses, same_budgets) b.ledger;
}

pub Loads-found :
    (db : Db) (id : ℕ) (u : AuthUser) (e : LoadedExpense)
    → Loads db id u e
    → find_expense db e.row.id ≡ some e.row
unfolding join_expense
Loads-found db id u e l =
    let same_row : e.row ≡ l.row = ap (λ v. v.row) l.joined in
    let by_key =
      subst (λ i. find_expense db i ≡ some l.row) (sym (find-id db id l.row l.found)) l.found in
    subst (λ r. find_expense db r.id ≡ some r) (sym same_row) by_key

module _ (rt : Runtime) (u : AuthUser) (id : ℕ) (e : LoadedExpense) (stage : ApprovalLevel)
    (db : Db) (opened : IsOpenTo rt u id db e stage) where
  pub IsOpenTo-pending : is_pending e.row.status ≡ true
  IsOpenTo-pending = get_active_stage-pending e _ _ stage opened.active

  pub IsOpenTo-found : find_expense db e.row.id ≡ some e.row
  IsOpenTo-found = Loads-found db id u e opened.loads

  -- Saving the expense with a new status keeps the books.
  pub save_and_sync-decided :
      (e' : Expense) (db' : Db)
      → e'.id ≡ e.row.id
      → e'.status ≢ ExpenseStatus.reimbursed
      → e'.department_id ≡ e.row.department_id
      → e'.submitted_at ≡ e.row.submitted_at
      → db'.expenses ≡ db.expenses
      → db'.budgets ≡ db.budgets
      → KeepsBooks rt.zone db
      → KeepsBooks rt.zone (save_and_sync rt e.row e' db')
  unfolding save_and_sync find_expense
  save_and_sync-decided e' db' same_id not_paid same_department same_time same_expenses same_budgets
        b =
      let kept = KeepsBooks-frame rt.zone db db' same_expenses same_budgets b in
      let found : find_expense db' e'.id ≡ some e.row =
        rw (same_expenses, same_id) IsOpenTo-found in
      let a = All-find Attributed _ db.expenses b.attributed IsOpenTo-found in
      save-sync-KeepsBooks rt.zone db' e.row e' found
        (decided-IsTransition e.row e' IsOpenTo-pending a not_paid same_department same_time) kept

  pub complete_approval-KeepsBooks :
      (levels : List ApprovalLevel) (approver_id : ℕ) (db' : Db)
      → db'.expenses ≡ db.expenses
      → db'.budgets ≡ db.budgets
      → KeepsBooks rt.zone db
      → KeepsBooks rt.zone (complete_approval rt e stage levels approver_id db')
  unfolding complete_approval publish_approval approved_expense publish
  complete_approval-KeepsBooks levels approver_id db' same_expenses same_budgets b =
      let status = resolve_status_after_level_approval stage e levels in
      let e' = approved_expense rt e.row status in
      KeepsBooks-frame rt.zone (save_and_sync rt e.row e' db') _ (ground arith) (ground arith) (
        save_and_sync-decided e' db' refl (ground (arith, resolve_status-cases stage e levels)) refl
          refl same_expenses same_budgets b)
