-- ===== src/Budget/Administration/Recalculation.antt =====
-- The recalculation of the budget rows from the expenses, beside the ledger that the incremental
-- updates keep.
use expentra.Prelude.{
  ℕ, ◌+◌, ◌≤◌, Bool, List, [], ◌∷◌, map, ◌&&◌, ◌==◌, ltb, leb, ◌≡◌, inl, inr, refl, arith,
  Option-cases,
}
use expentra.Prelude.Result.{ok}
use expentra.Entities.{ExpenseStatus, Expense}
use expentra.Store.{Db}
use expentra.Runtime.{Runtime}
use expentra.Budget.Period.{Zone, resolve_budget_year, budget_year_range_in_time_zone}
use expentra.Budget.Sync.{counts_toward_committed_budget, to_expense_budget_snapshot}
use expentra.Budget.Sync.Transition.{share, in_ledger, is_reimbursed}
use expentra.Budget.Ledger.{total, share_of}
use expentra.Budget.Usage.{
  assert_valid_year, sum_spend, sum_committed_spend_for_department_year,
  sum_reimbursed_spend_for_department_year,
}
use expentra.Budget.Administration.{
  set_committed, set_reimbursed, recalculate_committed_amount_for_department_year,
  recalculate_reimbursed_amount_for_department_year,
}

abbrev pub IsBudgetYear : ℕ → Type 0
IsBudgetYear y = (2000 ≤ y) × (y ≤ 2100)

-- The instants from a year's first midnight to the next one's are those whose year it is.
abbrev pub BoundsYears : Zone → Type 0
BoundsYears z =
    (y t : ℕ)
    → IsBudgetYear y
    → (leb (budget_year_range_in_time_zone z y).start t
        && ltb t (budget_year_range_in_time_zone z y).stop)
      ≡ (resolve_budget_year z t == y)

module _ (z : Zone) (bounds : BoundsYears z) (counted : ExpenseStatus → Bool) (d y : ℕ)
    (valid : IsBudgetYear y) where
  sum_spend-share :
      (e : Expense)
      → sum_spend counted d (budget_year_range_in_time_zone z y) (e ∷ []) ≡ share_of z counted e d y
  unfolding sum_spend share to_expense_budget_snapshot
  sum_spend-share e = elim (Option-cases e.submitted_at) [
    | inl missing ↦ ground (arith, missing)
    | inr (t, given) ↦ ground (arith, given, bounds y t valid)
  ]

  pub sum_spend-total :
      (es : List Expense)
      → sum_spend counted d (budget_year_range_in_time_zone z y) es ≡ total z counted es d y
  unfolding sum_spend total
  sum_spend-total [] = refl
  sum_spend-total (e ∷ es) = omega (arith, sum_spend-share e, sum_spend-total es)

share-in_ledger :
    (z : Zone) (d y : ℕ) (e : Expense)
    → share_of z in_ledger e d y
      ≡ share_of z counts_toward_committed_budget e d y + share_of z is_reimbursed e d y
unfolding share in_ledger counts_toward_committed_budget to_expense_budget_snapshot
share-in_ledger z d y e = ground arith

total-in_ledger :
    (z : Zone) (d y : ℕ) (es : List Expense)
    → total z in_ledger es d y
      ≡ total z counts_toward_committed_budget es d y + total z is_reimbursed es d y
unfolding total
total-in_ledger z d y [] = refl
total-in_ledger z d y (e ∷ es) = omega (arith, share-in_ledger z d y e, total-in_ledger z d y es)

-- What a recalculation writes.
module _ (rt : Runtime) (bounds : BoundsYears rt.zone) (db : Db) where
  abbrev committed : ℕ → ℕ → ℕ
  committed d y = total rt.zone in_ledger db.expenses d y

  abbrev reimbursed : ℕ → ℕ → ℕ
  reimbursed d y = total rt.zone is_reimbursed db.expenses d y

  pub recalculate_committed_lem :
      (d y : ℕ)
      → IsBudgetYear y
      → recalculate_committed_amount_for_department_year rt d y db
        ≡ ok (record db { budgets = map (set_committed d y (committed d y)) db.budgets })
  unfolding recalculate_committed_amount_for_department_year assert_valid_year
      sum_committed_spend_for_department_year sum_reimbursed_spend_for_department_year
  recalculate_committed_lem d y valid =
      rw
        (
          sum_spend-total rt.zone bounds counts_toward_committed_budget d y valid db.expenses,
          sum_spend-total rt.zone bounds is_reimbursed d y valid db.expenses,
        )
        (ground (arith, valid, total-in_ledger rt.zone d y db.expenses))

  pub recalculate_reimbursed_lem :
      (d y : ℕ)
      → IsBudgetYear y
      → recalculate_reimbursed_amount_for_department_year rt d y db
        ≡ ok (record db { budgets = map (set_reimbursed d y (reimbursed d y)) db.budgets })
  unfolding recalculate_reimbursed_amount_for_department_year assert_valid_year
      sum_reimbursed_spend_for_department_year
  recalculate_reimbursed_lem d y valid =
      rw (sum_spend-total rt.zone bounds is_reimbursed d y valid db.expenses)
        (ground (arith, valid))
