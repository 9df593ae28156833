-- ===== src/Budget/Books.antt =====
-- The invariant of the tables of expenses and budgets that the services keep.
use expentra.Prelude.{
  ℕ, Bool, some, List, [], ◌∷◌, ◌≡◌, ◌==◌, inl, inr, arith, All, find?, Bool-cases, ap, subst,
}
use expentra.Entities.{Expense}
use expentra.Store.{Db, saved_row, find_expense, save_expense, replace_expense}
use expentra.Budget.Period.{Zone}
use expentra.Budget.Sync.{to_expense_budget_snapshot, sync_committed_amount_for_expense_transition}
use expentra.Budget.Sync.Transition.{IsTransition, IsAttributed}
use expentra.Budget.Sync.Frame.{sync-SameButBudgets}
use expentra.Budget.Ledger.{
  HasUniqueIds, LedgerHolds, HasUniqueIds-replace_expense, save-sync-LedgerHolds,
}

abbrev pub Attributed : Expense → Type 0
Attributed e = IsAttributed (to_expense_budget_snapshot e)

-- The keys are unique, the expenses that count are attributed, and the budget rows hold their sums.
pub record KeepsBooks (z : Zone) (db : Db) : Type 0 where
  pub unique : HasUniqueIds db.expenses
  pub attributed : All Attributed db.expenses
  pub ledger : LedgerHolds z db

pub All-find {ℓ κ} :
    {A : Type ℓ} (P : A → Type κ) (p : A → Bool) (xs : List A) {x : A}
    → All P xs
    → find? p xs ≡ some x
    → P x
All-find P p [] h f = cc
All-find P p (y ∷ ys) (h, hs) f = elim (Bool-cases (p y)) [
  | inl same ↦ let g : some y ≡ some _ = rw same at f in subst P (cc g) h
  | inr other ↦ All-find P p ys hs (rw other at f)
]

All-replace_expense {κ} :
    (P : Expense → Type κ) (e : Expense) (es : List Expense)
    → ((row : Expense) → P (saved_row row e))
    → All P es
    → All P (replace_expense e es)
unfolding replace_expense
All-replace_expense P e [] pe h = tt
All-replace_expense P e (x ∷ xs) pe (h, hs) = elim (Bool-cases (x.id == e.id)) [
  | inl same ↦ rw same (pe x, All-replace_expense P e xs pe hs)
  | inr other ↦ rw other (h, All-replace_expense P e xs pe hs)
]

-- The row of an attributed entity is attributed.
pub saved_row-Attributed : (row e : Expense) → Attributed e → Attributed (saved_row row e)
unfolding to_expense_budget_snapshot saved_row
saved_row-Attributed row e (inl out) = inl out
saved_row-Attributed row e (inr (d, t, department, positive, time)) =
    inr (d, t, ground arith, positive, ground arith)

module _ (z : Zone) (db : Db) (e e' : Expense) (found : find_expense db e'.id ≡ some e)
    (tr : IsTransition (to_expense_budget_snapshot e) (to_expense_budget_snapshot e')) where
  -- A changed expense that is saved and synced.
  pub save-sync-KeepsBooks :
      KeepsBooks z db
      → KeepsBooks z (
          sync_committed_amount_for_expense_transition z
            (some (to_expense_budget_snapshot e))
            (some (to_expense_budget_snapshot e'))
            (save_expense e' db))
  unfolding save_expense
  save-sync-KeepsBooks b =
      let frame =
        sync-SameButBudgets z (to_expense_budget_snapshot e) (to_expense_budget_snapshot e')
          (save_expense e' db) in
      let expenses = ap (λ v. v.expenses) frame in
      record {
        unique = rw expenses (HasUniqueIds-replace_expense e' db.expenses b.unique);
        attributed = rw expenses (
            All-replace_expense Attributed e' db.expenses
              (λ row. saved_row-Attributed row e' tr.attributed_after) b.attributed);
        ledger = save-sync-LedgerHolds z db e e' b.unique found tr b.ledger;
      }

pub Attributed-found :
    (z : Zone) (db : Db) (id : ℕ) (e : Expense)
    → KeepsBooks z db
    → find_expense db id ≡ some e
    → Attributed e
unfolding find_expense
Attributed-found z db id e b found =
    All-find Attributed (λ x. x.id == id) db.expenses b.attributed found
