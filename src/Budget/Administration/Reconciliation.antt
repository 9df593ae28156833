-- ===== src/Budget/Administration/Reconciliation.antt =====
-- The reconciliation of the budget rows: it brings the ledger about, and finds nothing to do where
-- the ledger holds.
use expentra.Prelude.{
  ℕ, true, none, List, [], ◌∷◌, map, filter, ◌≡◌, inl, inr, refl, arith, ap, ◌∙◌, sym, All, All-map,
  Bool-cases,
}
use expentra.Prelude.Result.{ok}
use expentra.Entities.{DepartmentBudget}
use expentra.Store.{Db}
use expentra.Runtime.{Runtime}
use expentra.Budget.Sync.Rows.{RowMatches}
use expentra.Budget.Sync.Transition.{in_ledger, is_reimbursed}
use expentra.Budget.Ledger.{total, LedgerHolds}
use expentra.Budget.Administration.{
  set_committed, set_reimbursed, recalculate_committed_amount_for_department_year,
  recalculate_reimbursed_amount_for_department_year, reconcile_budgets,
  reconcile_all_committed_amounts,
}
use expentra.Budget.Administration.Recount.{
  is_live, Covers, recount, recount-Matches, map-recount_nil, map-recount_cons,
}
use expentra.Budget.Administration.Recalculation.{
  IsBudgetYear, BoundsYears, recalculate_committed_lem, recalculate_reimbursed_lem,
}

-- The live rows are of years that a budget can have.
abbrev pub HasBudgetYear : DepartmentBudget → Type 0
HasBudgetYear b = is_live b ≡ true → IsBudgetYear b.year

map-unchanged {ℓ} : {A : Type ℓ} (f : A → A) (xs : List A) → All (λ x. f x ≡ x) xs → map f xs ≡ xs
map-unchanged f [] h = refl
map-unchanged f (x ∷ xs) (h, hs) = cc (h, map-unchanged f xs hs)

All-both {ℓ κ ν μ} :
    {A : Type ℓ} {P : A → Type κ} {Q : A → Type ν} {R : A → Type μ} (f : (x : A) → P x → Q x → R x)
    (xs : List A)
    → All P xs
    → All Q xs
    → All R xs
All-both f [] p q = tt
All-both f (x ∷ xs) (p, ps) (q, qs) = (f x p q, All-both f xs ps qs)

Covers-live :
    (bs : List DepartmentBudget)
    → All (λ b. is_live b ≡ true → Covers (filter is_live bs) b.department_id b.year) bs
Covers-live [] = tt
Covers-live (b ∷ bs) = (
  λ live. ground (arith, live),
  All-map
      (λ x h live. elim (Bool-cases (is_live b)) [
        | inl l ↦ rw l (inr (h live))
        | inr l ↦ rw l (h live)
      ])
      bs (Covers-live bs),
)

live-HasBudgetYear :
    (bs : List DepartmentBudget)
    → All HasBudgetYear bs
    → All (λ t. IsBudgetYear t.year) (filter is_live bs)
live-HasBudgetYear [] h = tt
live-HasBudgetYear (b ∷ bs) (h, hs) = elim (Bool-cases (is_live b)) [
  | inl l ↦ rw l (h l, live-HasBudgetYear bs hs)
  | inr l ↦ rw l (live-HasBudgetYear bs hs)
]

module _ (rt : Runtime) (bounds : BoundsYears rt.zone) (db : Db) where
  abbrev c : ℕ → ℕ → ℕ
  c d y = total rt.zone in_ledger db.expenses d y

  abbrev r : ℕ → ℕ → ℕ
  r d y = total rt.zone is_reimbursed db.expenses d y

  reconcile_budgets_lem :
      (ts bs : List DepartmentBudget)
      → All (λ t. IsBudgetYear t.year) ts
      → reconcile_budgets rt ts (record db { budgets = bs })
        ≡ ok (record db { budgets = map (recount c r ts) bs })
  unfolding reconcile_budgets
  reconcile_budgets_lem [] bs h =
      ap (λ l. ok (record db { budgets = l })) (sym (map-recount_nil c r bs))
  reconcile_budgets_lem (t ∷ ts) bs (h, hs) =
      let d = t.department_id in
      let y = t.year in
      let first = map (set_committed d y (c d y)) bs in
      let second = map (set_reimbursed d y (r d y)) first in
      rw
        (
          recalculate_committed_lem rt bounds (record db { budgets = bs }) d y h,
          recalculate_reimbursed_lem rt bounds (record db { budgets = first }) d y h,
        )
        (reconcile_budgets_lem ts second hs
          ∙ ap (λ l. ok (record db { budgets = l })) (map-recount_cons c r t ts bs))

  -- Where the range of each year that a budget can have holds exactly the times of that year in the
  -- zone, and the live rows are of such years, the reconciliation succeeds, changes no table but
  -- the budgets, and leaves every live row with the sums over the expenses of its department and
  -- year, whatever amounts the rows had.
  pub reconcile-LedgerHolds :
      All HasBudgetYear db.budgets
      → (bs : List DepartmentBudget) × (reconcile_all_committed_amounts rt db
          ≡ ok (record db { budgets = bs }))
        × LedgerHolds rt.zone (record db { budgets = bs })
  unfolding reconcile_all_committed_amounts
  reconcile-LedgerHolds valid =
      let live = filter is_live db.budgets in
      (
        map (recount c r live) db.budgets,
        reconcile_budgets_lem live db.budgets (live-HasBudgetYear db.budgets valid),
        recount-Matches c r live db.budgets (Covers-live db.budgets),
      )

  set_committed_unchanged :
      (d y : ℕ) (b : DepartmentBudget)
      → RowMatches c r b
      → (b.deleted_at ≡ none → b.is_active ≡ true)
      → set_committed d y (c d y) b ≡ b
  unfolding set_committed
  set_committed_unchanged d y b m active = ground arith

  set_reimbursed_unchanged :
      (d y : ℕ) (b : DepartmentBudget)
      → RowMatches c r b
      → (b.deleted_at ≡ none → b.is_active ≡ true)
      → set_reimbursed d y (r d y) b ≡ b
  unfolding set_reimbursed
  set_reimbursed_unchanged d y b m active = ground arith

  pub recalculate-unchanged :
      (d y : ℕ)
      → IsBudgetYear y
      → LedgerHolds rt.zone db
      → All (λ b. b.deleted_at ≡ none → b.is_active ≡ true) db.budgets
      → (recalculate_committed_amount_for_department_year rt d y db ≡ ok db)
        × (recalculate_reimbursed_amount_for_department_year rt d y db ≡ ok db)
  recalculate-unchanged d y valid holds active = (
    recalculate_committed_lem rt bounds db d y valid
        ∙ ap (λ l. ok (record db { budgets = l }))
            (map-unchanged (set_committed d y (c d y)) db.budgets
              (All-both (set_committed_unchanged d y) db.budgets holds active)),
    recalculate_reimbursed_lem rt bounds db d y valid
        ∙ ap (λ l. ok (record db { budgets = l }))
            (map-unchanged (set_reimbursed d y (r d y)) db.budgets
              (All-both (set_reimbursed_unchanged d y) db.budgets holds active)),
  )
