-- ===== src/Expense/Draft/Lifetime.antt =====
-- Creating and removing drafts.
use expentra.Prelude.{
  ℕ, false, [], ◌∷◌, ◌++◌, map, filter, ◌≡◌, ◌==◌, not, inl, inr, arith, subst, sym, String,
  Option-cases, truthy_id, trim,
}
use expentra.Prelude.Result.{Exception, Result, ok, err, >>=-eq-ok-then}
use expentra.Entities.{Expense}
use expentra.Store.{Db, transaction, find_user, next_id}
use expentra.Runtime.{Runtime}
use expentra.Authorization.Types.{ExpenseDraftMutation, AuthUser}
use expentra.Authorization.Policy.{assert_can_mutate_expense_draft}
use expentra.Budget.Books.{KeepsBooks}
use expentra.Budget.Drafts.{append-KeepsBooks, remove-KeepsBooks}
use expentra.Approval.Decision.Books.{KeepsBooks-frame}
use expentra.Expense.Support.{
  load_expense_for_mutation, assert_draft_status, assert_non_empty_title, assert_positive_amount,
  assert_incurred_at,
}
use expentra.Expense.Support.Loading.{load_expense_for_mutation-found}
use expentra.Expense.Draft.{
  CreateExpenseInput, draft_row, create_in_department, create, remove_in_transaction, remove,
}

module _ (rt : Runtime) (user_id : ℕ) (i : CreateExpenseInput) (reference : String) (db db' : Db)
    (e : Expense) where
  create_in_department-returned :
      (d : ℕ)
      → create_in_department rt user_id d i reference db ≡ ok (e, db')
      → (e ≡ draft_row (next_id (map (λ x. x.id) db.expenses)) reference user_id d i)
        × (db' ≡ record db { expenses = db.expenses ++ e ∷ [] })
  unfolding create_in_department
  create_in_department-returned d h =
      >>=-eq-ok-then (assert_non_empty_title (trim i.title)) _ h λ _ _ h1.
        >>=-eq-ok-then (assert_positive_amount i.amount) _ h1 λ _ _ h2.
          >>=-eq-ok-then (assert_incurred_at rt i.incurred_at) _ h2 λ _ _ h3. (cc h3, cc h3)

  -- A creation that returns added one draft under the next key, owned by the caller and attributed
  -- to a department.
  pub create-returned :
      create rt user_id i reference db ≡ ok (e, db')
      → (d : ℕ) × (e ≡ draft_row (next_id (map (λ x. x.id) db.expenses)) reference user_id d i)
        × (db' ≡ record db { expenses = db.expenses ++ e ∷ [] })
  unfolding create
  create-returned h = elim (Option-cases (find_user db user_id)) [
    | inl nobody ↦ absurd (ground arith)
    | inr (user, known) ↦ elim (Option-cases (truthy_id user.department_id)) [
      | inl homeless ↦ absurd (ground arith)
      | inr (d, dep) ↦
          let (row, written) = create_in_department-returned d (ground arith) in (d, row, written)
    ]
  ]

  pub create-KeepsBooks :
      create rt user_id i reference db ≡ ok (e, db')
      → KeepsBooks rt.zone db
      → KeepsBooks rt.zone db'
  unfolding draft_row
  create-KeepsBooks h b =
      let (d, is_row, written) = create-returned h in
      subst (KeepsBooks rt.zone) (sym written)
        (append-KeepsBooks rt.zone db b e (ground arith) (ground arith))

module _ (rt : Runtime) (u : AuthUser) (reference : String) (db db' : Db) where
  pub remove-failed : (x : Exception) → remove rt u reference db ≡ (err x, db') → db' ≡ db
  unfolding remove transaction
  remove-failed x h = ground arith

  remove_in_transaction-KeepsBooks :
      remove_in_transaction rt u reference db ≡ ok (tt, db')
      → KeepsBooks rt.zone db
      → KeepsBooks rt.zone db'
  unfolding remove_in_transaction assert_draft_status
  remove_in_transaction-KeepsBooks h b =
      >>=-eq-ok-then (load_expense_for_mutation rt reference db) _ h λ e loaded h1.
        >>=-eq-ok-then (assert_can_mutate_expense_draft u e ExpenseDraftMutation.delete false) _ h1
          λ _ _ h2.
            >>=-eq-ok-then (assert_draft_status e ExpenseDraftMutation.delete) _ h2 λ _ is_draft h3.
              let left = filter (λ x. not (x.id == e.id)) db.expenses in
              KeepsBooks-frame rt.zone (record db { expenses = left }) db' (ground arith)
                (ground arith)
                (remove-KeepsBooks rt.zone db b e
                  (load_expense_for_mutation-found rt reference db e loaded) (ground arith))

pub remove-keeps :
    (rt : Runtime) (u : AuthUser) (reference : String) (db db' : Db) (r : Result (Unit {0}))
    → remove rt u reference db ≡ (r, db')
    → KeepsBooks rt.zone db
    → KeepsBooks rt.zone db'
unfolding remove transaction
remove-keeps rt u reference db db' (err x) h b =
    subst (KeepsBooks rt.zone) (sym (remove-failed rt u reference db db' x h)) b
remove-keeps rt u reference db db' (ok saved) h b =
    remove_in_transaction-KeepsBooks rt u reference db db' (ground arith) b
