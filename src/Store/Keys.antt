-- ===== src/Store/Keys.antt =====
-- The keys of serial columns.
use expentra.Prelude.{
  ℕ, suc, ◌<◌, ◌≤◌, max, some, List, [], ◌∷◌, ◌++◌, map, ◌≡◌, ◌==◌, arith, All, find?, ==_refl,
}
use expentra.Store.{next_id}

-- Below every key of the table.
Above : List ℕ → ℕ → Type 0
Above [] k = Unit
Above (n ∷ ns) k = (n < k) × Above ns k

Above-≤ : (ns : List ℕ) (k m : ℕ) → k ≤ m → Above ns k → Above ns m
unfolding Above
Above-≤ [] k m h a = tt
Above-≤ (n ∷ ns) k m h (a, as') = (omega arith, Above-≤ ns k m h as')

next_id-Above : (ns : List ℕ) → Above ns (next_id ns)
unfolding next_id Above
next_id-Above [] = tt
next_id-Above (n ∷ ns) = (
  omega arith,
  Above-≤ ns (next_id ns) (max (suc n) (next_id ns)) (omega arith) (next_id-Above ns),
)

module _ {ℓ} {A : Type ℓ} (key : A → ℕ) where
  find-append-Above :
      (xs : List A) (a : A)
      → Above (map key xs) (key a)
      → find? (λ x. key x == key a) (xs ++ a ∷ []) ≡ some a
  unfolding Above
  find-append-Above [] a h = rw (==_refl (key a))
  find-append-Above (x ∷ xs) a (h, hs) = ground (arith, find-append-Above xs a hs)

  -- A row under the next key is the one that a search for that key finds.
  pub find-append-next :
      (xs : List A) (a : A)
      → key a ≡ next_id (map key xs)
      → find? (λ x. key x == key a) (xs ++ a ∷ []) ≡ some a
  find-append-next xs a h = find-append-Above xs a (rw h (next_id-Above (map key xs)))

  All-Above : (xs : List A) (k : ℕ) → Above (map key xs) k → All (λ x. key x < k) xs
  unfolding Above
  All-Above [] k h = tt
  All-Above (x ∷ xs) k (h, hs) = (h, All-Above xs k hs)

  -- Every key of the table is below the next one.
  pub next_id-fresh : (xs : List A) → All (λ x. key x < next_id (map key xs)) xs
  next_id-fresh xs = All-Above xs (next_id (map key xs)) (next_id-Above (map key xs))
