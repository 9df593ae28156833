-- ===== src/Budget/Drafts.antt =====
-- Adding and removing expenses that do not count leaves the sums and the books as they are.
use expentra.Prelude.{
  ℕ, ◌<◌, Bool, false, some, List, [], ◌∷◌, ◌++◌, map, filter, not, ◌≡◌, ◌≢◌, ◌==◌, inl, inr, refl,
  arith, All, All-append, All-map, ap, ◌∙◌, Bool-cases, find?, ==_iff, sym,
}
use expentra.Entities.{ExpenseStatus, Expense}
use expentra.Store.{Db, find_expense, next_id}
use expentra.Store.Keys.{next_id-fresh}
use expentra.Budget.Period.{Zone}
use expentra.Budget.Sync.{to_expense_budget_snapshot}
use expentra.Budget.Sync.Rows.{Matches-ext}
use expentra.Budget.Sync.Transition.{share, is_reimbursed, in_ledger, in_ledger_lem}
use expentra.Budget.Ledger.{HasUniqueIds, total, share_of}
use expentra.Budget.Books.{KeepsBooks, Attributed}

uncounted-share :
    (z : Zone) (counted : ExpenseStatus → Bool) (e : Expense) (d y : ℕ)
    → counted e.status ≡ false
    → share_of z counted e d y ≡ 0
unfolding share to_expense_budget_snapshot
uncounted-share z counted e d y h = ground arith

module _ (z : Zone) (counted : ExpenseStatus → Bool) (d y : ℕ) where
  total-append :
      (es : List Expense) (e : Expense)
      → counted e.status ≡ false
      → total z counted (es ++ e ∷ []) d y ≡ total z counted es d y
  unfolding total
  total-append [] e h = omega (arith, uncounted-share z counted e d y h)
  total-append (x ∷ xs) e h = omega (arith, total-append xs e h)

  total-filter :
      (i : ℕ) (es : List Expense)
      → All (λ x. x.id ≡ i → counted x.status ≡ false) es
      → total z counted (filter (λ x. not (x.id == i)) es) d y ≡ total z counted es d y
  unfolding total
  total-filter i [] h = refl
  total-filter i (x ∷ xs) (h, hs) = elim (Bool-cases (x.id == i)) [
    | inl same ↦ rw same (
        omega (
          arith,
          total-filter i xs hs,
          uncounted-share z counted x d y (h ((==_iff x.id i).0 same)),
        ))
    | inr other ↦ rw other (omega (arith, total-filter i xs hs))
  ]

HasUniqueIds-append :
    (es : List Expense) (e : Expense)
    → All (λ x. x.id < e.id) es
    → HasUniqueIds es
    → HasUniqueIds (es ++ e ∷ [])
HasUniqueIds-append [] e h u = (tt, tt)
HasUniqueIds-append (x ∷ xs) e (h, hs) (a, u) = (
  All-append (λ v. v.id ≢ x.id) xs (e ∷ []) a ((ground arith), tt),
  HasUniqueIds-append xs e hs u,
)

All-filter {κ} :
    (P : Expense → Type κ) (p : Expense → Bool) (es : List Expense) → All P es → All P (filter p es)
All-filter P p [] h = tt
All-filter P p (x ∷ xs) (h, hs) = elim (Bool-cases (p x)) [
  | inl same ↦ rw same (h, All-filter P p xs hs)
  | inr other ↦ rw other (All-filter P p xs hs)
]

HasUniqueIds-filter :
    (p : Expense → Bool) (es : List Expense) → HasUniqueIds es → HasUniqueIds (filter p es)
HasUniqueIds-filter p [] u = tt
HasUniqueIds-filter p (x ∷ xs) (a, u) = elim (Bool-cases (p x)) [
  | inl same ↦ rw same (All-filter (λ v. v.id ≢ x.id) p xs a, HasUniqueIds-filter p xs u)
  | inr other ↦ rw other (HasUniqueIds-filter p xs u)
]

-- The row that a key finds is the only one with that key.
only_found :
    (es : List Expense) (i : ℕ) (e : Expense)
    → HasUniqueIds es
    → find? (λ x. x.id == i) es ≡ some e
    → All (λ x. x.id ≡ i → x ≡ e) es
only_found [] i e u h = tt
only_found (x ∷ xs) i e (a, u) h = elim (Bool-cases (x.id == i)) [
  | inl same ↦
      let first : some x ≡ some e = rw same at h in
      let key = (==_iff x.id i).0 same in
      (λ _. cc first, All-map (λ v n k. absurd (n (k ∙ sym key))) xs a)
  | inr other ↦ (λ k. absurd (ground (arith, other)), only_found xs i e u (rw other at h))
]

module _ (z : Zone) (db : Db) (b : KeepsBooks z db) where
  pub append-KeepsBooks :
      (e : Expense)
      → e.id ≡ next_id (map (λ x. x.id) db.expenses)
      → e.status ≡ ExpenseStatus.draft
      → KeepsBooks z (record db { expenses = db.expenses ++ e ∷ [] })
  unfolding to_expense_budget_snapshot
  append-KeepsBooks e new draft = record {
    unique =
        HasUniqueIds-append db.expenses e (rw new (next_id-fresh (λ x. x.id) db.expenses)) b.unique;
    attributed =
        All-append Attributed db.expenses (e ∷ []) b.attributed
          (inl (ground (arith, in_ledger_lem e.status)), tt);
    ledger =
        let es = db.expenses in
        let grown = es ++ e ∷ [] in
        Matches-ext (total z in_ledger es) (total z in_ledger grown) (total z is_reimbursed es)
          (total z is_reimbursed grown) db.budgets
          (λ d y. sym (total-append z in_ledger d y es e (ground (arith, in_ledger_lem e.status))))
          (λ d y. sym (total-append z is_reimbursed d y es e (ground arith))) b.ledger;
  }

  pub remove-KeepsBooks :
      (e : Expense)
      → find_expense db e.id ≡ some e
      → e.status ≡ ExpenseStatus.draft
      → KeepsBooks z (record db { expenses = filter (λ x. not (x.id == e.id)) db.expenses })
  unfolding find_expense
  remove-KeepsBooks e found draft = record {
    unique = HasUniqueIds-filter _ db.expenses b.unique;
    attributed = All-filter Attributed _ db.expenses b.attributed;
    ledger =
        let es = db.expenses in
        let left = filter (λ x. not (x.id == e.id)) es in
        let only = only_found es e.id e b.unique found in
        Matches-ext (total z in_ledger es) (total z in_ledger left) (total z is_reimbursed es)
          (total z is_reimbursed left) db.budgets
          (λ d y. sym (
            total-filter z in_ledger d y e.id es (
              All-map
                (λ x same k.
                  ap (λ v. in_ledger v.status) (same k) ∙ ground (arith, in_ledger_lem e.status))
                es only)))
          (λ d y. sym (
            total-filter z is_reimbursed d y e.id es (
              All-map (λ x same k. ap (λ v. is_reimbursed v.status) (same k) ∙ ground arith) es
                only)))
          b.ledger;
  }
