-- ===== src/Budget/Sync/Rows.antt =====
-- How one update of the amounts moves the live rows of `department_budgets`.
use expentra.Prelude.{
  ℕ, true, none, List, [], ◌∷◌, map, ◌&&◌, ◌==◌, if◌then◌else◌, All, ◌≡◌, Bool-cases, inl, inr,
  refl, arith,
}
use expentra.Prelude.Int.{ℤ}
use expentra.Entities.{DepartmentBudget}
use expentra.Store.{Db}
use expentra.Budget.Sync.{
  is_zero, add_committed, add_reimbursed, apply_committed_amount_delta,
  apply_reimbursed_amount_delta, clamped,
}

-- The amounts of a row that is active and not deleted are those of `committed` and `reimbursed` at
-- its department and year.
abbrev pub RowMatches : (ℕ → ℕ → ℕ) → (ℕ → ℕ → ℕ) → DepartmentBudget → Type 0
RowMatches committed reimbursed b =
    b.is_active ≡ true
    → b.deleted_at ≡ none
    → (b.committed_amount ≡ committed b.department_id b.year)
      × (b.reimbursed_amount ≡ reimbursed b.department_id b.year)

abbrev pub Matches : (ℕ → ℕ → ℕ) → (ℕ → ℕ → ℕ) → List DepartmentBudget → Type 0
Matches committed reimbursed bs = All (RowMatches committed reimbursed) bs

-- `f` with `delta` added at one department and year.
abbrev pub moved : ℕ → ℕ → ℤ → (ℕ → ℕ → ℕ) → ℕ → ℕ → ℕ
moved d y delta f d' y' = if d' == d && y' == y then clamped (f d' y') delta else f d' y'

module _ (f g r : ℕ → ℕ → ℕ) where
  pub Matches-ext :
      (r' : ℕ → ℕ → ℕ) (bs : List DepartmentBudget)
      → ((d y : ℕ) → f d y ≡ g d y)
      → ((d y : ℕ) → r d y ≡ r' d y)
      → Matches f r bs
      → Matches g r' bs
  Matches-ext r' [] e e' m = tt
  Matches-ext r' (b ∷ bs) e e' (m, ms) = (
    λ a l. ground (arith, m a l, e b.department_id b.year, e' b.department_id b.year),
    Matches-ext r' bs e e' ms,
  )

module _ (d y : ℕ) (delta : ℤ) (f r : ℕ → ℕ → ℕ) where
  add_committed-RowMatches :
      (b : DepartmentBudget)
      → RowMatches f r b
      → RowMatches (moved d y delta f) r (add_committed d y delta b)
  unfolding add_committed
  add_committed-RowMatches b m = λ a l. ground arith

  map-add_committed-Matches :
      (bs : List DepartmentBudget)
      → Matches f r bs
      → Matches (moved d y delta f) r (map (add_committed d y delta) bs)
  map-add_committed-Matches [] m = tt
  map-add_committed-Matches (b ∷ bs) (m, ms) =
      (add_committed-RowMatches b m, map-add_committed-Matches bs ms)

  add_reimbursed-RowMatches :
      (b : DepartmentBudget)
      → RowMatches f r b
      → RowMatches f (moved d y delta r) (add_reimbursed d y delta b)
  unfolding add_reimbursed
  add_reimbursed-RowMatches b m = λ a l. ground arith

  map-add_reimbursed-Matches :
      (bs : List DepartmentBudget)
      → Matches f r bs
      → Matches f (moved d y delta r) (map (add_reimbursed d y delta) bs)
  map-add_reimbursed-Matches [] m = tt
  map-add_reimbursed-Matches (b ∷ bs) (m, ms) =
      (add_reimbursed-RowMatches b m, map-add_reimbursed-Matches bs ms)

moved_zero :
    (d y : ℕ) (delta : ℤ) (f : ℕ → ℕ → ℕ) (d' y' : ℕ)
    → is_zero delta ≡ true
    → f d' y' ≡ moved d y delta f d' y'
moved_zero d y delta f d' y' h = ground arith

pub apply_committed-Matches :
    (d y : ℕ) (delta : ℤ) (f r : ℕ → ℕ → ℕ) (db : Db)
    → Matches f r db.budgets
    → Matches (moved d y delta f) r (apply_committed_amount_delta d y delta db).budgets
unfolding apply_committed_amount_delta
apply_committed-Matches d y delta f r db m = elim (Bool-cases (is_zero delta)) [
  | inl zero_delta ↦ rw zero_delta (
      Matches-ext f (moved d y delta f) r r db.budgets
        (λ d' y'. moved_zero d y delta f d' y' zero_delta) (λ d' y'. refl) m)
  | inr other ↦ rw other (map-add_committed-Matches d y delta f r db.budgets m)
]

pub apply_reimbursed-Matches :
    (d y : ℕ) (delta : ℤ) (f r : ℕ → ℕ → ℕ) (db : Db)
    → Matches f r db.budgets
    → Matches f (moved d y delta r) (apply_reimbursed_amount_delta d y delta db).budgets
unfolding apply_reimbursed_amount_delta
apply_reimbursed-Matches d y delta f r db m = elim (Bool-cases (is_zero delta)) [
  | inl zero_delta ↦ rw zero_delta (
      Matches-ext f f r (moved d y delta r) db.budgets (λ d' y'. refl)
        (λ d' y'. moved_zero d y delta r d' y' zero_delta) m)
  | inr other ↦ rw other (map-add_reimbursed-Matches d y delta f r db.budgets m)
]
