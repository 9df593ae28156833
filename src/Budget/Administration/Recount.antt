-- ===== src/Budget/Administration/Recount.antt =====
-- One row under the workers of a reconciliation: it keeps its key, and holds its sums once a worker
-- has been at its department and year.
use expentra.Prelude.{
  ℕ, Bool, true, none, List, [], ◌∷◌, map, ◌&&◌, is_none, ◌≡◌, ◌⊎◌, inl, inr, refl, arith, ap, ◌∙◌,
  sym, All,
}
use expentra.Entities.{DepartmentBudget}
use expentra.Budget.Sync.Rows.{RowMatches, Matches}
use expentra.Budget.Administration.{set_committed, set_reimbursed}

abbrev pub is_live : DepartmentBudget → Bool
is_live b = b.is_active && is_none b.deleted_at

-- A row of the department and year is among those of a list.
abbrev pub Covers : List DepartmentBudget → ℕ → ℕ → Type 0
Covers [] d y = ⊥
Covers (t ∷ ts) d y = ((t.department_id ≡ d) × (t.year ≡ y)) ⊎ Covers ts d y

module _ (c r : ℕ → ℕ → ℕ) where
  -- One row after the workers of a list of budgets, where `c` and `r` are the sums.
  unfoldable pub recount : List DepartmentBudget → DepartmentBudget → DepartmentBudget
  recount [] b = b
  recount (t ∷ ts) b = recount ts (
      set_reimbursed t.department_id t.year (r t.department_id t.year)
        (set_committed t.department_id t.year (c t.department_id t.year) b))

  abbrev IsRight : DepartmentBudget → Type 0
  IsRight b =
      (b.committed_amount ≡ c b.department_id b.year)
      × (b.reimbursed_amount ≡ r b.department_id b.year)

  abbrev SameRow : DepartmentBudget → DepartmentBudget → Type 0
  SameRow a b =
      (a.department_id ≡ b.department_id)
      × (a.year ≡ b.year)
      × (a.is_active ≡ b.is_active)
      × (a.deleted_at ≡ b.deleted_at)

  abbrev once : DepartmentBudget → DepartmentBudget → DepartmentBudget
  once t b =
      set_reimbursed t.department_id t.year (r t.department_id t.year)
        (set_committed t.department_id t.year (c t.department_id t.year) b)

  once-SameRow : (t b : DepartmentBudget) → SameRow (once t b) b
  unfolding set_reimbursed set_committed
  once-SameRow t b = ground arith

  once-IsRight : (t b : DepartmentBudget) → IsRight b → IsRight (once t b)
  unfolding set_reimbursed set_committed
  once-IsRight t b h = ground arith

  once-hit :
      (t b : DepartmentBudget)
      → b.deleted_at ≡ none
      → t.department_id ≡ b.department_id
      → t.year ≡ b.year
      → IsRight (once t b)
  unfolding set_reimbursed set_committed
  once-hit t b live d y = ground arith

  recount-SameRow : (ts : List DepartmentBudget) (b : DepartmentBudget) → SameRow (recount ts b) b
  unfolding recount
  recount-SameRow [] b = (refl, refl, refl, refl)
  recount-SameRow (t ∷ ts) b = ground (arith, recount-SameRow ts (once t b), once-SameRow t b)

  recount-IsRight :
      (ts : List DepartmentBudget) (b : DepartmentBudget) → IsRight b → IsRight (recount ts b)
  unfolding recount
  recount-IsRight [] b h = h
  recount-IsRight (t ∷ ts) b h = recount-IsRight ts (once t b) (once-IsRight t b h)

  recount-Covers :
      (ts : List DepartmentBudget) (b : DepartmentBudget)
      → b.deleted_at ≡ none
      → Covers ts b.department_id b.year
      → IsRight (recount ts b)
  unfolding recount
  recount-Covers [] b live h = absurd h
  recount-Covers (t ∷ ts) b live (inl (d, y)) =
      recount-IsRight ts (once t b) (once-hit t b live d y)
  recount-Covers (t ∷ ts) b live (inr h) =
      let (ed, ey, _, el) = once-SameRow t b in
      recount-Covers ts (once t b) (el ∙ live) (rw (ed, ey) h)

  recount-RowMatches :
      (ts : List DepartmentBudget) (b : DepartmentBudget)
      → (is_live b ≡ true → Covers ts b.department_id b.year)
      → RowMatches c r (recount ts b)
  recount-RowMatches ts b h = λ active kept.
      let (_, _, ea, el) = recount-SameRow ts b in
      recount-Covers ts b (sym el ∙ kept) (h (ground (arith, ea, el)))

  pub recount-Matches :
      (ts bs : List DepartmentBudget)
      → All (λ b. is_live b ≡ true → Covers ts b.department_id b.year) bs
      → Matches c r (map (recount ts) bs)
  recount-Matches ts [] h = tt
  recount-Matches ts (b ∷ bs) (h, hs) = (recount-RowMatches ts b h, recount-Matches ts bs hs)

  pub map-recount_nil : (bs : List DepartmentBudget) → map (recount []) bs ≡ bs
  unfolding recount
  map-recount_nil [] = refl
  map-recount_nil (b ∷ bs) = ap (λ l. b ∷ l) (map-recount_nil bs)

  pub map-recount_cons :
      (t : DepartmentBudget) (ts bs : List DepartmentBudget)
      → map (recount ts) (
          map
            (set_reimbursed t.department_id t.year (r t.department_id t.year))
            (map (set_committed t.department_id t.year (c t.department_id t.year)) bs))
        ≡ map (recount (t ∷ ts)) bs
  unfolding recount
  map-recount_cons t ts [] = refl
  map-recount_cons t ts (b ∷ bs) = ap (λ l. recount ts (once t b) ∷ l) (map-recount_cons t ts bs)
