-- ===== src/RateLimiter/Window.antt =====
-- core/rate-limiter/lua/sliding-window.lua, where no two requests come in the same millisecond.
use expentra.Prelude.{
  ℕ, suc, ◌+◌, ◌-◌, ◌≤◌, ◌<◌, Bool, true, false, List, [], ◌∷◌, ◌++◌, ◌&&◌, ltb, leb, length,
  filter, All, All-append, All-filter, if◌then◌else◌, ◌≡◌, refl, sym, ap, ◌∙◌, arith, inl, inr,
  Bool-cases, All-map,
}
use mathlib.Core.List.{append-nil, append_assoc}
use expentra.RateLimiter.{SortedSets, AreDocumented, insert, remove_old, sliding_window, run}

-- Each time is at least `from`, and later than those before it.
abbrev pub IsFrom : ℕ → List ℕ → Type 0
IsFrom from [] = Unit
IsFrom from (t ∷ ts) = (from ≤ t) × IsFrom (suc t) ts

abbrev pub counts : ℕ → ℕ → ℕ → Bool
counts window now t = ltb now (t + window)

-- The times of the window that ends at a time.
abbrev pub within : ℕ → ℕ → ℕ → Bool
within window end t = leb t end && ltb end (t + window)

-- A log of all that was ever allowed: a request is allowed while fewer than `limit` lie in the window.
abbrev pub log_run : ℕ → ℕ → List ℕ → List ℕ → List ℕ
log_run window limit [] log = log
log_run window limit (now ∷ later) log =
    let allow = log_run window limit later (log ++ now ∷ []) in
    let refuse = log_run window limit later log in
    if ltb (length (filter (counts window now) log)) limit then allow else refuse

module _ {ℓ} {A : Type ℓ} where
  filter-append : (p : A → Bool) (xs ys : List A) → filter p (xs ++ ys) ≡ filter p xs ++ filter p ys
  filter-append p [] ys = refl
  filter-append p (x ∷ xs) ys = ground (arith, filter-append p xs ys)

  -- A filter after a weaker one.
  filter-weaker :
      (p q : A → Bool)
      → ((x : A) → p x ≡ true → q x ≡ true)
      → (xs : List A) → filter p (filter q xs) ≡ filter p xs
  filter-weaker p q h [] = refl
  filter-weaker p q h (x ∷ xs) = ground (arith, filter-weaker p q h xs, h x)

  -- A filter keeps no more than a weaker one.
  length-filter-le :
      (p q : A → Bool)
      → ((x : A) → p x ≡ true → q x ≡ true)
      → (xs : List A) → length (filter p xs) ≤ length (filter q xs)
  length-filter-le p q h [] = omega arith
  length-filter-le p q h (x ∷ xs) = ground (arith, length-filter-le p q h xs, h x)

  filter-same : {p q : A → Bool} → ((x : A) → p x ≡ q x) → (xs : List A) → filter p xs ≡ filter q xs
  filter-same h [] = refl
  filter-same h (x ∷ xs) = ground (arith, filter-same h xs, h x)

  filter-all : (p : A → Bool) → ((x : A) → p x ≡ true) → (xs : List A) → filter p xs ≡ xs
  filter-all p h [] = refl
  filter-all p h (x ∷ xs) = ground (arith, filter-all p h xs, h x)

insert-last : (t : ℕ) (xs : List ℕ) → All (λ x. x < t) xs → insert t xs ≡ xs ++ t ∷ []
insert-last t [] h = refl
insert-last t (x ∷ xs) h = ground (arith, insert-last t xs h.1)

length-filter-append :
    (p : ℕ → Bool) (xs : List ℕ) (x : ℕ)
    → length (filter p (xs ++ x ∷ [])) ≡ length (filter p xs) + elim (p x) [ true ↦ 1 | false ↦ 0 ]
length-filter-append p [] x = ground arith
length-filter-append p (y ∷ ys) x = ground (arith, length-filter-append p ys x)

-- The window at `end`, after a request at `now` that was allowed.
within-step :
    (window limit end now : ℕ) (log : List ℕ)
    → length (filter (counts window now) log) < limit
    → length (filter (within window end) log) ≤ limit
    → length (filter (within window end) (log ++ now ∷ [])) ≤ limit
within-step window limit end now log room bound = elim (Bool-cases (leb now end)) [
  | inl seen ↦ ground (
    arith,
    length-filter-append (within window end) log now,
    length-filter-le (within window end) (counts window now) (λ a h. ground arith) log,
  )
  | inr ahead ↦ ground (arith, length-filter-append (within window end) log now)
]

log_run-bound :
    (window limit end : ℕ) (times log : List ℕ)
    → length (filter (within window end) log) ≤ limit
    → length (filter (within window end) (log_run window limit times log)) ≤ limit
log_run-bound window limit end [] log h = h
log_run-bound window limit end (now ∷ later) log h =
    elim (Bool-cases (ltb (length (filter (counts window now) log)) limit)) [
      | inl room ↦ rw room (
          log_run-bound window limit end later (log ++ now ∷ [])
            (within-step window limit end now log (ground arith) h))
      | inr full ↦ rw full (log_run-bound window limit end later log h)
    ]

module _ (sets : SortedSets) (documented : AreDocumented sets) (window limit : ℕ) where
  open documented use {members, members-empty, members-zremrangebyscore, zcard_lem, members-zadd}

  -- What the window counts at any time from `from` on is what it counts of the log.
  abbrev Agrees : ℕ → sets.Contents → List ℕ → Type 0
  Agrees from s log =
      (now : ℕ)
      → from ≤ now
      → filter (counts window now) (members s) ≡ filter (counts window now) log

  pub members-remove_old :
      (now : ℕ) (s : sets.Contents)
      → members (remove_old sets now window s) ≡ filter (counts window now) (members s)
  unfolding remove_old
  members-remove_old now s = elim (Bool-cases (ltb now window)) [
    | inl young ↦ rw young (sym (filter-all (counts window now) (λ t. ground arith) (members s)))
    | inr old ↦
        rw old
          (members-zremrangebyscore (now - window) s ∙ filter-same (λ t. ground arith) (members s))
  ]

  -- What is left of the window at `now`, of the log.
  module _ {from now : ℕ} (s : sets.Contents) (log : List ℕ) (order : from ≤ now)
      (agrees : Agrees from s log) where
    members-current : members (remove_old sets now window s) ≡ filter (counts window now) log
    members-current = members-remove_old now s ∙ agrees now order

    zcard-current :
        sets.zcard (remove_old sets now window s) ≡ length (filter (counts window now) log)
    zcard-current = zcard_lem (remove_old sets now window s) ∙ ap length members-current

    narrower :
        (later : ℕ)
        → now ≤ later
        → (t : ℕ) → counts window later t ≡ true
        → counts window now t ≡ true
    narrower later order t h = ground arith

    refused-Agrees : Agrees (suc now) (remove_old sets now window s) log
    refused-Agrees later h =
        ap (filter (counts window later)) members-current
        ∙ filter-weaker (counts window later) (counts window now) (narrower later (omega arith)) log

    allowed-Agrees :
        All (λ a. a < from) log
        → Agrees (suc now) (sets.zadd now (remove_old sets now window s)) (log ++ now ∷ [])
    allowed-Agrees before later h =
        ap (filter (counts window later)) (
          members-zadd now (remove_old sets now window s)
          ∙ ap (insert now) members-current
          ∙ insert-last now (filter (counts window now) log) (
              All-filter (λ a. a < now) (counts window now) log
                (All-map (λ a lt. omega arith) log before)))
        ∙ filter-append (counts window later) (filter (counts window now) log) (now ∷ [])
        ∙ ap (λ xs. xs ++ filter (counts window later) (now ∷ []))
            (filter-weaker (counts window later) (counts window now) (narrower later (omega arith))
              log)
        ∙ sym (filter-append (counts window later) log (now ∷ []))

  run-log_from :
      (from : ℕ) (times : List ℕ) (s : sets.Contents) (log : List ℕ)
      → IsFrom from times
      → All (λ a. a < from) log
      → Agrees from s log
      → log ++ (run sets window limit times s).0 ≡ log_run window limit times log
  unfolding run sliding_window
  run-log_from from [] s log order before agrees = append-nil log
  run-log_from from (now ∷ later) s log (le, order) before agrees =
      elim (Bool-cases (ltb (length (filter (counts window now) log)) limit)) [
        | inl room ↦
            rw (zcard-current s log le agrees, room)
              (sym (append_assoc log (now ∷ []) _)
                ∙ run-log_from (suc now) later (sets.zadd now (remove_old sets now window s))
                    (log ++ now ∷ []) order
                    (All-append (λ a. a < suc now) log (now ∷ [])
                      (All-map (λ a lt. omega arith) log before) (omega arith, tt))
                    (allowed-Agrees s log le agrees before))
        | inr full ↦
            rw (zcard-current s log le agrees, full)
              (run-log_from (suc now) later (remove_old sets now window s) log order
                (All-map (λ a lt. omega arith) log before) (refused-Agrees s log le agrees))
      ]

  -- Over sorted sets that behave as documented, and requests each in a later millisecond than the
  -- one before: the script allows exactly the requests that a log of all allowed requests allows,
  -- by counting those of the window, though it forgets the old ones.
  pub run-log :
      (times : List ℕ)
      → IsFrom 0 times
      → (run sets window limit times sets.empty).0 ≡ log_run window limit times []
  run-log times order = run-log_from 0 times sets.empty [] order tt (λ now h. rw members-empty refl)

  -- Over sorted sets that behave as documented, and requests each in a later millisecond than the
  -- one before, no window of the given length, wherever it ends, has more allowed requests than the
  -- limit.
  pub run-within_limit :
      (times : List ℕ) (end : ℕ)
      → IsFrom 0 times
      → length (filter (within window end) (run sets window limit times sets.empty).0) ≤ limit
  run-within_limit times end order =
      rw (run-log times order) (log_run-bound window limit end times [] (omega arith))
