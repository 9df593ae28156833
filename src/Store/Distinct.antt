-- ===== src/Store/Distinct.antt =====
-- Columns whose values differ from row to row.
use expentra.Prelude.{
  ℕ, Bool, true, some, List, [], ◌∷◌, ◌++◌, ◌≡◌, ◌≢◌, ◌==◌, not, any, filter, find?, inl, inr,
  arith, All, All-append, All-filter, Bool-cases, sym,
}

module _ {ℓ} {A : Type ℓ} (key : A → ℕ) where
  abbrev pub HasDistinct : List A → Type 0
  HasDistinct [] = Unit
  HasDistinct (x ∷ xs) = All (λ y. key y ≢ key x) xs × HasDistinct xs

  pub HasDistinct-append :
      (xs : List A) (a : A)
      → HasDistinct xs
      → All (λ x. key x ≢ key a) xs
      → HasDistinct (xs ++ a ∷ [])
  HasDistinct-append [] a u h = (tt, tt)
  HasDistinct-append (x ∷ xs) a (d, u) (h, hs) = (
    All-append (λ y. key y ≢ key x) xs (a ∷ []) d ((λ e. h (sym e)), tt),
    HasDistinct-append xs a u hs,
  )

  pub HasDistinct-filter : (p : A → Bool) (xs : List A) → HasDistinct xs → HasDistinct (filter p xs)
  HasDistinct-filter p [] u = tt
  HasDistinct-filter p (x ∷ xs) (d, u) = elim (Bool-cases (p x)) [
    | inl kept ↦ rw kept (All-filter (λ y. key y ≢ key x) p xs d, HasDistinct-filter p xs u)
    | inr gone ↦ rw gone (HasDistinct-filter p xs u)
  ]

  -- A key that some row has.
  abbrev pub has_key : List A → ℕ → Bool
  has_key xs k = any (λ x. key x == k) xs

  pub has_key-append : (xs ys : List A) (k : ℕ) → has_key xs k ≡ true → has_key (xs ++ ys) k ≡ true
  has_key-append [] ys k h = absurd (ground arith)
  has_key-append (x ∷ xs) ys k h = ground (arith, has_key-append xs ys k)

  pub has_key-filter :
      (xs : List A) (m k : ℕ)
      → k ≢ m
      → has_key xs k ≡ true
      → has_key (filter (λ x. not (key x == m)) xs) k ≡ true
  has_key-filter [] m k other h = h
  has_key-filter (x ∷ xs) m k other h = ground (arith, has_key-filter xs m k other)

  pub find?-has_key :
      (p : A → Bool) (xs : List A) (a : A) → find? p xs ≡ some a → has_key xs (key a) ≡ true
  find?-has_key p [] a h = absurd (ground arith)
  find?-has_key p (x ∷ xs) a h = ground (arith, find?-has_key p xs a)
