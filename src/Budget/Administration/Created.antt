-- ===== src/Budget/Administration/Created.antt =====
-- A budget that is created after expenses of its department and year.
use expentra.Prelude.{
  String, ◌++◌, ◌≡◌, ◌↔◌, not, none, true, arith, All, All-append, any, ◌&&◌, ◌==◌, is_none, List,
  [], ◌∷◌,
}
use expentra.Prelude.Result.{ok, not_found, conflict, throw_if, >>=-eq-ok-then}
use expentra.Entities.{DepartmentBudget}
use expentra.Store.{Db}
use expentra.Runtime.{Runtime}
use expentra.Reference.{find_entity_by_reference}
use expentra.Budget.Usage.{assert_valid_year}
use expentra.Budget.Sync.Rows.{RowMatches}
use expentra.Budget.Sync.Transition.{in_ledger, is_reimbursed}
use expentra.Budget.Ledger.{total, LedgerHolds}
use expentra.Budget.Administration.{
  CreateDepartmentBudgetInput, assert_creatable_budget_year, assert_positive_limit, create,
}

-- The row that a creation added.
pub record IsCreated (db db' : Db) (b : DepartmentBudget) : Type 0 where
  pub row : db' ≡ record db { budgets = db.budgets ++ b ∷ [] }
  pub active : b.is_active ≡ true
  pub kept : b.deleted_at ≡ none
  pub nothing_committed : b.committed_amount ≡ 0
  pub nothing_reimbursed : b.reimbursed_amount ≡ 0

create-IsCreated :
    (rt : Runtime) (input : CreateDepartmentBudgetInput) (reference : String) (db db' : Db)
    (b : DepartmentBudget)
    → create rt input reference db ≡ ok (b, db')
    → IsCreated db db' b
unfolding create
create-IsCreated rt input reference db db' b h =
    >>=-eq-ok-then (assert_valid_year rt input.year) _ h λ _ _ h1.
      >>=-eq-ok-then (assert_creatable_budget_year rt input.year) _ h1 λ _ _ h2.
        >>=-eq-ok-then (assert_positive_limit input.amount_limit) _ h2 λ _ _ h3.
          >>=-eq-ok-then
            (find_entity_by_reference rt.to_upper (λ d. d.reference) db.departments
              input.department_reference "Department not found")
            _ h3
            λ department _ h4.
              >>=-eq-ok-then
                (throw_if (not department.is_active) (not_found "Department not found")) _ h4
                λ _ _ h5.
                  >>=-eq-ok-then
                    (throw_if
                      (any
                        (λ x.
                          x.department_id == department.id
                          && x.year == input.year
                          && is_none x.deleted_at)
                        db.budgets)
                      (conflict "A budget already exists for this department and year"))
                    _ h5
                    λ _ _ h6. record {
                      row = cc h6;
                      active = ground arith;
                      kept = ground arith;
                      nothing_committed = ground arith;
                      nothing_reimbursed = ground arith;
                    }

All-last {ℓ κ} : {A : Type ℓ} (P : A → Type κ) (xs : List A) (a : A) → All P (xs ++ a ∷ []) → P a
All-last P [] a h = h.0
All-last P (x ∷ xs) a h = All-last P xs a h.1

-- After the creation of a budget on a ledger whose live rows held their sums, they hold them
-- exactly when the department has no expense that counts and none reimbursed in that year.
pub create-LedgerHolds_iff :
    (rt : Runtime) (input : CreateDepartmentBudgetInput) (reference : String) (db db' : Db)
    (b : DepartmentBudget)
    → create rt input reference db ≡ ok (b, db')
    → LedgerHolds rt.zone db
    → LedgerHolds rt.zone db' ↔ (
        (total rt.zone in_ledger db.expenses b.department_id b.year ≡ 0)
        × (total rt.zone is_reimbursed db.expenses b.department_id b.year ≡ 0))
create-LedgerHolds_iff rt input reference db db' b h holds =
    let made = create-IsCreated rt input reference db db' b h in
    let c = total rt.zone in_ledger db.expenses in
    let r = total rt.zone is_reimbursed db.expenses in
    rw made.row (
      λ after.
          let last = All-last (RowMatches c r) db.budgets b after made.active made.kept in
          ground (arith, last, made.nothing_committed, made.nothing_reimbursed),
      λ (no_spend, no_payment). All-append (RowMatches c r) db.budgets (b ∷ []) holds (
        λ _ _.
            ground (arith, no_spend, no_payment, made.nothing_committed, made.nothing_reimbursed),
        tt,
      ),
    )
