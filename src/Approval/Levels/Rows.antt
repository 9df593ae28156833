-- ===== src/Approval/Levels/Rows.antt =====
-- Saving one row of the table of approval levels.
use expentra.Prelude.{
  ℕ, Bool, true, some, List, [], ◌∷◌, ◌≡◌, ◌≢◌, ◌==◌, find?, refl, inl, inr, arith, All, All-map,
  Bool-cases, subst, sym,
}
use expentra.Entities.{ApprovalLevel}
use expentra.Store.Distinct.{HasDistinct, has_key}
use expentra.Budget.Books.{All-find}
use expentra.Approval.Levels.{replace_level}

-- The rows of other keys have other numbers.
abbrev pub OthersDiffer : ApprovalLevel → List ApprovalLevel → Type 0
OthersDiffer l = All (λ x. x.id ≢ l.id → x.level ≢ l.level)

module _ (l : ApprovalLevel) where
  replace_level-absent :
      (xs : List ApprovalLevel) → All (λ x. x.id ≢ l.id) xs → replace_level l xs ≡ xs
  unfolding replace_level
  replace_level-absent [] h = refl
  replace_level-absent (x ∷ xs) (h, hs) = ground (arith, replace_level-absent xs hs)

  pub replace_level-All {κ} :
      (P : ApprovalLevel → Type κ) (xs : List ApprovalLevel)
      → P l
      → All P xs
      → All P (replace_level l xs)
  unfolding replace_level
  replace_level-All P [] h hs = tt
  replace_level-All P (x ∷ xs) h (k, ks) = elim (Bool-cases (x.id == l.id)) [
    | inl same ↦ rw same (h, replace_level-All P xs h ks)
    | inr other ↦ rw other (k, replace_level-All P xs h ks)
  ]

  replace_level-keys :
      (k : ℕ) (xs : List ApprovalLevel)
      → All (λ x. x.id ≢ k) xs
      → All (λ x. x.id ≢ k) (replace_level l xs)
  unfolding replace_level
  replace_level-keys k [] h = tt
  replace_level-keys k (x ∷ xs) (h, hs) = elim (Bool-cases (x.id == l.id)) [
    | inl same ↦ rw same (λ e. ground (arith, h), replace_level-keys k xs hs)
    | inr other ↦ rw other (h, replace_level-keys k xs hs)
  ]

  pub replace_level-ids :
      (xs : List ApprovalLevel)
      → HasDistinct (λ x. x.id) xs
      → HasDistinct (λ x. x.id) (replace_level l xs)
  unfolding replace_level
  replace_level-ids [] u = tt
  replace_level-ids (x ∷ xs) (d, u) = elim (Bool-cases (x.id == l.id)) [
    | inl same ↦
        let e : x.id ≡ l.id = ground arith in
        let d' : All (λ y. y.id ≢ l.id) xs = subst (λ i. All (λ y. y.id ≢ i) xs) e d in
        rw same (replace_level-keys l.id xs d', replace_level-ids xs u)
    | inr other ↦ rw other (replace_level-keys x.id xs d, replace_level-ids xs u)
  ]

  others-number :
      (xs : List ApprovalLevel)
      → All (λ x. x.id ≢ l.id) xs
      → OthersDiffer l xs
      → All (λ x. x.level ≢ l.level) xs
  others-number [] a o = tt
  others-number (x ∷ xs) (a, as') (o, os) = (o a, others-number xs as' os)

  pub replace_level-numbers :
      (xs : List ApprovalLevel)
      → HasDistinct (λ x. x.id) xs
      → HasDistinct (λ x. x.level) xs
      → OthersDiffer l xs
      → HasDistinct (λ x. x.level) (replace_level l xs)
  unfolding replace_level
  replace_level-numbers [] i n o = tt
  replace_level-numbers (x ∷ xs) (i, is) (n, ns) (o, os) = elim (Bool-cases (x.id == l.id)) [
    | inl same ↦
        let e : x.id ≡ l.id = ground arith in
        let absent : All (λ y. y.id ≢ l.id) xs = subst (λ k. All (λ y. y.id ≢ k) xs) e i in
        rw same (
          subst (λ r. All (λ y. y.level ≢ l.level) r × HasDistinct (λ y. y.level) r)
            (sym (replace_level-absent xs absent)) (others-number xs absent os, ns))
    | inr other ↦
        let differs : x.id ≢ l.id = ground arith in
        rw other (
          replace_level-All (λ y. y.level ≢ x.level) xs (λ e. o differs (sym e)) n,
          replace_level-numbers xs is ns os,
        )
  ]

  pub replace_level-has_key :
      (k : ℕ) (xs : List ApprovalLevel)
      → has_key (λ x. x.id) xs k ≡ true
      → has_key (λ x. x.id) (replace_level l xs) k ≡ true
  unfolding replace_level
  replace_level-has_key k [] h = h
  replace_level-has_key k (x ∷ xs) h = ground (arith, replace_level-has_key k xs)

-- Beside a row of a table whose numbers differ, the others have other numbers.
pub found-OthersDiffer :
    (p : ApprovalLevel → Bool) (xs : List ApprovalLevel) (a : ApprovalLevel)
    → HasDistinct (λ x. x.level) xs
    → find? p xs ≡ some a
    → OthersDiffer a xs
found-OthersDiffer p [] a u f = tt
found-OthersDiffer p (x ∷ xs) a (d, u) f = elim (Bool-cases (p x)) [
  | inl here ↦
      let e : x ≡ a = ground arith in
      subst {A = ApprovalLevel} (λ v. OthersDiffer v (x ∷ xs)) e
        ((λ other same. other refl), All-map (λ y differs _. differs) xs d)
  | inr there ↦
      let f' : find? p xs ≡ some a = rw there at f in
      let differs = All-find (λ y. y.level ≢ x.level) p xs d f' in
      ((λ _ same. differs (sym same)), found-OthersDiffer p xs a u f')
]
