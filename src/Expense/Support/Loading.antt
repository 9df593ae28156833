-- ===== src/Expense/Support/Loading.antt =====
-- What a load for a mutation has found.
use expentra.Prelude.{
  ℕ, some, ◌≡◌, ◌==◌, inl, inr, arith, Option-cases, find?-holds, ==_iff, subst, sym, String, find?,
}
use expentra.Prelude.Result.{ok, >>=-eq-ok-then}
use expentra.Entities.{Expense}
use expentra.Store.{Db, find_expense}
use expentra.Runtime.{Runtime}
use expentra.Reference.{find_entity_by_reference}
use expentra.Expense.Support.{load_expense_for_mutation}

found_by_key :
    (db : Db) (id : ℕ) (e : Expense) → find_expense db id ≡ some e → find_expense db e.id ≡ some e
unfolding find_expense
found_by_key db id e h =
    let same : e.id ≡ id = (==_iff e.id id).0 (find?-holds (λ x. x.id == id) db.expenses h) in
    subst (λ i. find? (λ x. x.id == i) db.expenses ≡ some e) (sym same) h

pub load_expense_for_mutation-found :
    (rt : Runtime) (reference : String) (db : Db) (e : Expense)
    → load_expense_for_mutation rt reference db ≡ ok e
    → find_expense db e.id ≡ some e
unfolding load_expense_for_mutation
load_expense_for_mutation-found rt reference db e h =
    >>=-eq-ok-then
      (find_entity_by_reference rt.to_upper (λ v. v.reference) db.expenses reference
        "Expense not found")
      _ h
      λ resolved _ h1. elim (Option-cases (find_expense db resolved.id)) [
        | inl missing ↦ absurd (ground arith)
        | inr (row, found) ↦ found_by_key db resolved.id e (ground arith)
      ]
