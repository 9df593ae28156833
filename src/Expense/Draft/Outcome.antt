-- ===== src/Expense/Draft/Outcome.antt =====
-- What the operations on drafts and on rejected expenses do to the books.
use expentra.Prelude.{
  ℕ, false, Option, none, some, ◌≡◌, ◌⊎◌, inl, inr, refl, arith, subst, sym, String, ◌∙◌,
}
use expentra.Prelude.Result.{Exception, Result, ok, err, >>=-eq-ok-then}
use expentra.Entities.{ExpenseStatus, ExpenseCategory, Expense}
use expentra.Store.{Db, transaction, find_expense, save_expense, publish}
use expentra.Runtime.{Runtime}
use expentra.Authorization.Types.{ExpenseDraftMutation, AuthUser}
use expentra.Authorization.Policy.{assert_can_mutate_expense_draft}
use expentra.Budget.Sync.{to_expense_budget_snapshot}
use expentra.Budget.Sync.Transition.{IsTransition, in_ledger_lem, sync-outside}
use expentra.Budget.Books.{KeepsBooks, save-sync-KeepsBooks}
use expentra.Approval.Decision.{save_and_sync}
use expentra.Approval.Decision.Books.{KeepsBooks-frame}
use expentra.Expense.Support.{load_expense_for_mutation, assert_draft_status}
use expentra.Expense.Support.Loading.{load_expense_for_mutation-found}
use expentra.Expense.Draft.{
  UpdateExpenseInput, set_title, set_description, set_amount, set_category, set_incurred_at,
  apply_update, reopened_expense, update_in_transaction, update, reopen_in_transaction,
  reopen_rejected,
}

-- `e'` is `e` but for what a draft's owner may write.
record SameButContent (e e' : Expense) : Type 0 where
  same_id : e'.id ≡ e.id
  same_status_as : e'.status ≡ e.status

set_title-same : (t : Option String) (e e' : Expense) → set_title t e ≡ ok e' → SameButContent e e'
unfolding set_title
set_title-same none e e' h = record { same_id = ground arith; same_status_as = ground arith }
set_title-same (some t) e e' h = record { same_id = ground arith; same_status_as = ground arith }

set_amount-same : (n : Option ℕ) (e e' : Expense) → set_amount n e ≡ ok e' → SameButContent e e'
unfolding set_amount
set_amount-same none e e' h = record { same_id = ground arith; same_status_as = ground arith }
set_amount-same (some n) e e' h = record { same_id = ground arith; same_status_as = ground arith }

set_description-same : (t : Option String) (e : Expense) → SameButContent e (set_description t e)
unfolding set_description
set_description-same none e = record { same_id = refl; same_status_as = refl }
set_description-same (some t) e = record { same_id = refl; same_status_as = refl }

set_category-same : (c : Option ExpenseCategory) (e : Expense) → SameButContent e (set_category c e)
unfolding set_category
set_category-same none e = record { same_id = refl; same_status_as = refl }
set_category-same (some t) e = record { same_id = refl; same_status_as = refl }

set_incurred_at-same :
    (rt : Runtime) (t : Option (Option ℕ)) (e e' : Expense)
    → set_incurred_at rt t e ≡ ok e'
    → SameButContent e e'
unfolding set_incurred_at
set_incurred_at-same rt none e e' h = record {
  same_id = ground arith;
  same_status_as = ground arith;
}
set_incurred_at-same rt (some t) e e' h = record {
  same_id = ground arith;
  same_status_as = ground arith;
}

SameButContent-trans :
    (a b c : Expense) → SameButContent a b → SameButContent b c → SameButContent a c
SameButContent-trans a b c p q = record {
  same_id = q.same_id ∙ p.same_id;
  same_status_as = q.same_status_as ∙ p.same_status_as;
}

apply_update-SameButContent :
    (rt : Runtime) (i : UpdateExpenseInput) (e e' : Expense)
    → apply_update rt i e ≡ ok e'
    → SameButContent e e'
unfolding apply_update
apply_update-SameButContent rt i e e' h =
    >>=-eq-ok-then (set_title i.title e) _ h λ titled h_title h1.
      >>=-eq-ok-then (set_amount i.amount (set_description i.description titled)) _ h1
        λ amounted h_amount h2.
          SameButContent-trans e titled e' (set_title-same i.title e titled h_title) (
            SameButContent-trans titled (set_description i.description titled) e'
              (set_description-same i.description titled)
              (SameButContent-trans (set_description i.description titled) amounted e'
                (set_amount-same i.amount (set_description i.description titled) amounted h_amount)
                (SameButContent-trans amounted (set_category i.category amounted) e'
                  (set_category-same i.category amounted)
                  (set_incurred_at-same rt i.incurred_at (set_category i.category amounted) e'
                    h2))))

-- A change of an expense that is outside the ledger before and after.
outside-IsTransition :
    (e e' : Expense)
    → (e.status ≡ ExpenseStatus.draft) ⊎ (e.status ≡ ExpenseStatus.rejected)
    → e'.status ≡ ExpenseStatus.draft
    → IsTransition (to_expense_budget_snapshot e) (to_expense_budget_snapshot e')
unfolding to_expense_budget_snapshot
outside-IsTransition e e' was is_draft = record {
  attributed_before = inl (ground (arith, in_ledger_lem e.status));
  attributed_after = inl (ground (arith, in_ledger_lem e'.status));
  not_reimbursed = ground arith;
  from_approved = λ h. absurd (ground arith);
  same_department = λ h. absurd (ground arith);
  same_time = λ h. absurd (ground arith);
  same_amount = λ h. absurd (ground arith);
}

module _ (rt : Runtime) (u : AuthUser) (reference : String) (db db' : Db) where
  pub update-failed :
      (i : UpdateExpenseInput) (x : Exception)
      → update rt u reference i db ≡ (err x, db')
      → db' ≡ db
  unfolding update transaction
  update-failed i x h = ground arith

  update_in_transaction-KeepsBooks :
      (i : UpdateExpenseInput) (saved : Expense)
      → update_in_transaction rt u reference i db ≡ ok (saved, db')
      → KeepsBooks rt.zone db
      → KeepsBooks rt.zone db'
  unfolding update_in_transaction assert_draft_status save_and_sync
  update_in_transaction-KeepsBooks i saved h b =
      >>=-eq-ok-then (load_expense_for_mutation rt reference db) _ h λ e loaded h1.
        >>=-eq-ok-then (assert_can_mutate_expense_draft u e ExpenseDraftMutation.modify false) _ h1
          λ _ _ h2.
            >>=-eq-ok-then (assert_draft_status e ExpenseDraftMutation.modify) _ h2 λ _ is_draft h3.
              >>=-eq-ok-then (apply_update rt i e) _ h3 λ after applied h4.
                let c = apply_update-SameButContent rt i e after applied in
                let draft : e.status ≡ ExpenseStatus.draft = ground arith in
                let found =
                  subst (λ k. find_expense db k ≡ some e) (sym c.same_id)
                    (load_expense_for_mutation-found rt reference db e loaded) in
                let saved_books =
                  save-sync-KeepsBooks rt.zone db e after found
                    (outside-IsTransition e after (inl draft) (c.same_status_as ∙ draft)) b in
                subst (KeepsBooks rt.zone) (cc h4) saved_books

  reopen-failed : (x : Exception) → reopen_rejected rt u reference db ≡ (err x, db') → db' ≡ db
  unfolding reopen_rejected transaction
  reopen-failed x h = ground arith

  reopen_in_transaction-KeepsBooks :
      (saved : Expense)
      → reopen_in_transaction rt u reference db ≡ ok (saved, db')
      → KeepsBooks rt.zone db
      → KeepsBooks rt.zone db'
  unfolding reopen_in_transaction reopened_expense publish save_expense to_expense_budget_snapshot
  reopen_in_transaction-KeepsBooks saved h b =
      >>=-eq-ok-then (load_expense_for_mutation rt reference db) _ h λ e loaded h1.
        let rejected : e.status ≡ ExpenseStatus.rejected = ground arith in
        let after = reopened_expense e in
        let found = load_expense_for_mutation-found rt reference db e loaded in
        let synced =
          save-sync-KeepsBooks rt.zone db e after found
            (outside-IsTransition e after (inr rejected) refl) b in
        let saved_books =
          subst (KeepsBooks rt.zone)
            (sync-outside rt.zone (to_expense_budget_snapshot e) (to_expense_budget_snapshot after)
              (save_expense after db) rejected refl)
            synced in
        KeepsBooks-frame rt.zone (save_expense after db) db' (ground arith) (ground arith)
          saved_books

-- Whatever an update of a draft does, the budget rows hold the sums over the expenses.
pub update-KeepsBooks :
    (rt : Runtime) (u : AuthUser) (reference : String) (i : UpdateExpenseInput) (db db' : Db)
    (r : Result Expense)
    → update rt u reference i db ≡ (r, db')
    → KeepsBooks rt.zone db
    → KeepsBooks rt.zone db'
unfolding update transaction
update-KeepsBooks rt u reference i db db' (err x) h b =
    subst (KeepsBooks rt.zone) (sym (update-failed rt u reference db db' i x h)) b
update-KeepsBooks rt u reference i db db' (ok saved) h b =
    update_in_transaction-KeepsBooks rt u reference db db' i saved (ground arith) b

-- Whatever reopening does, the budget rows hold the sums over the expenses.
pub reopen-KeepsBooks :
    (rt : Runtime) (u : AuthUser) (reference : String) (db db' : Db) (r : Result Expense)
    → reopen_rejected rt u reference db ≡ (r, db')
    → KeepsBooks rt.zone db
    → KeepsBooks rt.zone db'
unfolding reopen_rejected transaction
reopen-KeepsBooks rt u reference db db' (err x) h b =
    subst (KeepsBooks rt.zone) (sym (reopen-failed rt u reference db db' x h)) b
reopen-KeepsBooks rt u reference db db' (ok saved) h b =
    reopen_in_transaction-KeepsBooks rt u reference db db' saved (ground arith) b
