-- ===== src/Budget/Sync/Frame.antt =====
-- The incremental update writes the table of budgets and no other.
use expentra.Prelude.{ℕ, some, List, [], ◌∷◌, ◌≡◌, refl, arith}
use expentra.Prelude.Int.{ℤ}
use expentra.Store.{Db}
use expentra.Budget.Period.{Zone}
use expentra.Budget.Sync.{
  ExpenseBudgetSnapshot, Delta, apply_deltas, apply_committed_amount_delta,
  apply_reimbursed_amount_delta, sync_reimbursed_amount_for_expense,
  sync_committed_amount_for_expense_transition,
}

-- `after` is `before` but for its budgets.
abbrev pub SameButBudgets : Db → Db → Type 0
SameButBudgets before after = after ≡ record before { budgets = after.budgets }

SameButBudgets-trans : (a b c : Db) → SameButBudgets a b → SameButBudgets b c → SameButBudgets a c
SameButBudgets-trans a b c p q = ground arith

apply_committed-SameButBudgets :
    (d y : ℕ) (n : ℤ) (db : Db) → SameButBudgets db (apply_committed_amount_delta d y n db)
unfolding apply_committed_amount_delta
apply_committed-SameButBudgets d y n db = ground arith

apply_reimbursed-SameButBudgets :
    (d y : ℕ) (n : ℤ) (db : Db) → SameButBudgets db (apply_reimbursed_amount_delta d y n db)
unfolding apply_reimbursed_amount_delta
apply_reimbursed-SameButBudgets d y n db = ground arith

apply_deltas-SameButBudgets : (xs : List Delta) (db : Db) → SameButBudgets db (apply_deltas xs db)
unfolding apply_deltas
apply_deltas-SameButBudgets [] db = refl
apply_deltas-SameButBudgets (x ∷ xs) db =
    SameButBudgets-trans db _ _
      (apply_committed-SameButBudgets x.department_id x.year x.delta_amount db)
      (apply_deltas-SameButBudgets xs
        (apply_committed_amount_delta x.department_id x.year x.delta_amount db))

reimbursed-SameButBudgets :
    (z : Zone) (s : ExpenseBudgetSnapshot) (db : Db)
    → SameButBudgets db (sync_reimbursed_amount_for_expense z s db)
unfolding sync_reimbursed_amount_for_expense
reimbursed-SameButBudgets z s db = grind (arith, apply_reimbursed-SameButBudgets)

-- The incremental update of the budget rows by two snapshots changes no table but the budgets.
pub sync-SameButBudgets :
    (z : Zone) (before after : ExpenseBudgetSnapshot) (db : Db)
    → SameButBudgets db
        (sync_committed_amount_for_expense_transition z (some before) (some after) db)
unfolding sync_committed_amount_for_expense_transition
sync-SameButBudgets z before after db =
    grind (arith, reimbursed-SameButBudgets z after db, apply_deltas-SameButBudgets)
