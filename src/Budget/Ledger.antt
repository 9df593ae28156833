-- ===== src/Budget/Ledger.antt =====
-- The ledger of a database: each live budget row holds the sums over the expenses, and a write of
-- one expense with the incremental update keeps it so.
use expentra.Prelude.{
  ℕ, ◌+◌, ◌≤◌, Bool, true, ◌∙◌, some, List, [], ◌∷◌, ◌≡◌, ◌≢◌, ◌==◌, inl, inr, refl, arith,
  Bool-cases, All, find?, ==_iff, subst, ap, sym,
}
use expentra.Entities.{ExpenseStatus, Expense}
use expentra.Store.{Db, saved_row, find_expense, replace_expense, save_expense}
use expentra.Store.Rows.{saved_row-id}
use expentra.Budget.Period.{Zone}
use expentra.Budget.Sync.{to_expense_budget_snapshot, sync_committed_amount_for_expense_transition}
use expentra.Budget.Sync.Rows.{Matches}
use expentra.Budget.Sync.Transition.{IsTransition, IsAttributed, share, in_ledger, is_reimbursed}
use expentra.Budget.Sync.Frame.{sync-SameButBudgets}
use expentra.Budget.Sync.Ledger.{sync-Matches}

abbrev pub share_of : Zone → (ExpenseStatus → Bool) → Expense → ℕ → ℕ → ℕ
share_of z counted e d y = share z counted (to_expense_budget_snapshot e) d y

-- The sum over the expenses of a department and a year whose status passes a test.
unfoldable pub total : Zone → (ExpenseStatus → Bool) → List Expense → ℕ → ℕ → ℕ
total z counted [] d y = 0
total z counted (e ∷ es) d y = share_of z counted e d y + total z counted es d y

-- Each row that is active and not deleted holds the sum over the expenses under way or done, and
-- the sum over the reimbursed ones.
abbrev pub LedgerHolds : Zone → Db → Type 0
LedgerHolds z db =
    Matches (total z in_ledger db.expenses) (total z is_reimbursed db.expenses) db.budgets

-- The key of the table is unique.
abbrev pub HasUniqueIds : List Expense → Type 0
HasUniqueIds [] = Unit
HasUniqueIds (e ∷ es) = All (λ x. x.id ≢ e.id) es × HasUniqueIds es

module _ (e : Expense) where
  replace_expense_absent :
      (es : List Expense) → All (λ x. x.id ≢ e.id) es → replace_expense e es ≡ es
  unfolding replace_expense
  replace_expense_absent [] h = refl
  replace_expense_absent (x ∷ xs) (h, hs) = ground (arith, replace_expense_absent xs hs)

  pub replace_expense-All :
      (i : ℕ) (es : List Expense)
      → All (λ x. x.id ≢ i) es
      → e.id ≢ i
      → All (λ x. x.id ≢ i) (replace_expense e es)
  unfolding replace_expense
  replace_expense-All i [] h n = tt
  replace_expense-All i (x ∷ xs) (h, hs) n =
      (ground (arith, saved_row-id x e), replace_expense-All i xs hs n)

module _ (z : Zone) (counted : ExpenseStatus → Bool) (d y : ℕ) (e' : Expense) where
  pub total-replace_expense :
      (es : List Expense) (e : Expense)
      → HasUniqueIds es
      → find? (λ x. x.id == e'.id) es ≡ some e
      → total z counted (replace_expense e' es) d y + share_of z counted e d y
        ≡ total z counted es d y + share_of z counted (saved_row e e') d y
  unfolding total replace_expense
  total-replace_expense [] e u h = cc
  total-replace_expense (x ∷ xs) e (a, u) h = elim (Bool-cases (x.id == e'.id)) [
    | inl same ↦
        let first : some x ≡ some e = rw same at h in
        let xe : x ≡ e = cc first in
        let absent = subst (λ i. All (λ v. v.id ≢ i) xs) ((==_iff x.id e'.id).0 same) a in
        rw same (
          omega (
            arith,
            ap (λ l. total z counted l d y) (replace_expense_absent e' xs absent),
            ap (λ v. share_of z counted v d y) xe,
            ap (λ v. share_of z counted (saved_row v e') d y) xe,
          ))
    | inr other ↦ rw other (omega (arith, total-replace_expense xs e u (rw other at h)))
  ]

  pub share-le-total :
      (es : List Expense) (e : Expense)
      → find? (λ x. x.id == e'.id) es ≡ some e
      → share_of z counted e d y ≤ total z counted es d y
  unfolding total
  share-le-total [] e h = cc
  share-le-total (x ∷ xs) e h = ground (arith, share-le-total xs e)

pub HasUniqueIds-replace_expense :
    (e' : Expense) (es : List Expense) → HasUniqueIds es → HasUniqueIds (replace_expense e' es)
unfolding replace_expense
HasUniqueIds-replace_expense e' [] u = tt
HasUniqueIds-replace_expense e' (x ∷ xs) (a, u) = elim (Bool-cases (x.id == e'.id)) [
  | inl same ↦
      let absent = subst (λ i. All (λ v. v.id ≢ i) xs) ((==_iff x.id e'.id).0 same) a in
      rw same (
        subst (λ l. All (λ v. v.id ≢ (saved_row x e').id) l × HasUniqueIds l)
          (sym (replace_expense_absent e' xs absent))
          (subst (λ i. All (λ v. v.id ≢ i) xs) (sym (saved_row-id x e')) absent, u))
  | inr other ↦
      rw other
        (replace_expense-All e' x.id xs a (ground arith), HasUniqueIds-replace_expense e' xs u)
]

reimbursed_in_ledger : (s : ExpenseStatus) → is_reimbursed s ≡ true → in_ledger s ≡ true
unfolding in_ledger
reimbursed_in_ledger s h = ground arith

-- Where an entity that counts is attributed, its row has the same share.
saved_row-share :
    (z : Zone) (counted : ExpenseStatus → Bool) (row e : Expense) (d y : ℕ)
    → (counted e.status ≡ true → in_ledger e.status ≡ true)
    → IsAttributed (to_expense_budget_snapshot e)
    → share_of z counted (saved_row row e) d y ≡ share_of z counted e d y
unfolding share to_expense_budget_snapshot saved_row
saved_row-share z counted row e d y inside h = ground (arith, inside, h)

module _ (z : Zone) (db : Db) (e e' : Expense) (unique : HasUniqueIds db.expenses)
    (found : find_expense db e'.id ≡ some e)
    (tr : IsTransition (to_expense_budget_snapshot e) (to_expense_budget_snapshot e')) where
  -- Saving a changed expense and updating the budget rows by the difference of its two snapshots
  -- leaves each live row with the sums recomputed over all expenses, where the rows held them
  -- before, keys are unique and the change is one that the services make: it names a department and
  -- a submission time where it counts, starts from no reimbursed expense, and reimburses only an
  -- approved one, whose department, time and amount it keeps.
  pub save-sync-LedgerHolds :
      LedgerHolds z db
      → LedgerHolds z (
          sync_committed_amount_for_expense_transition z
            (some (to_expense_budget_snapshot e))
            (some (to_expense_budget_snapshot e'))
            (save_expense e' db))
  unfolding save_expense find_expense
  save-sync-LedgerHolds m =
      let synced =
        sync-Matches z (save_expense e' db) (to_expense_budget_snapshot e)
          (to_expense_budget_snapshot e') (total z in_ledger db.expenses)
          (total z in_ledger (replace_expense e' db.expenses)) (total z is_reimbursed db.expenses)
          (total z is_reimbursed (replace_expense e' db.expenses)) tr
          (record {
            committed = λ d y.
                total-replace_expense z in_ledger d y e' db.expenses e unique found
                ∙ ap (λ n. total z in_ledger db.expenses d y + n)
                    (saved_row-share z in_ledger e e' d y (λ h. h) tr.attributed_after);
            enough = λ d y. share-le-total z in_ledger d y e' db.expenses e found;
            reimbursed = λ d y.
                total-replace_expense z is_reimbursed d y e' db.expenses e unique found
                ∙ ap (λ n. total z is_reimbursed db.expenses d y + n)
                    (saved_row-share z is_reimbursed e e' d y (reimbursed_in_ledger e'.status)
                      tr.attributed_after);
          })
          m in
      let frame =
        sync-SameButBudgets z (to_expense_budget_snapshot e) (to_expense_budget_snapshot e')
          (save_expense e' db) in
      rw (ap (λ v. v.expenses) frame) synced
