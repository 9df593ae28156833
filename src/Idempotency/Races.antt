-- ===== src/Idempotency/Races.antt =====
-- core/idempotency/idempotency.interceptor.ts: requests that look for the record before the first of
-- them has saved it.
use expentra.Prelude.{
  All, All-append, true, false, Bool, ℕ, zero, suc, ◌+◌, ◌<◌, false, none, List, [], ◌∷◌, ◌++◌,
  length, ◌≡◌, refl, ◌≢◌, arith,
}
use expentra.Policy.Json.{null}
use expentra.Idempotency.{
  Outcome, arriving, checked, returns, throws, look_up, acquire_lock, save, release_lock, replied,
  intercept_step,
}
use expentra.Idempotency.System.{System, serve, init}
use expentra.Idempotency.Schedule.{Turn, run, turns_with, run-append}

-- Requests n - 1, …, 0 look for the record.
abbrev checks : ℕ → List Turn
checks zero = []
checks (suc n) = record { request = n; outcome = returns 201 null } ∷ checks n

-- Then each in turn asks for the lock, is handled, is saved and lets the lock go.
abbrev rounds : ℕ → List Turn
rounds zero = []
rounds (suc n) = turns_with n 201 null 4 ++ rounds n

run-checks :
    (s : System) (n : ℕ)
    → s.cache.stored ≡ none
    → ((j : ℕ) → j < n → s.requests j ≡ arriving)
    → let t = run s (checks n) in
      (t.cache ≡ s.cache)
      × (t.calls ≡ s.calls)
      × ((j : ℕ) → j < n → t.requests j ≡ checked)
      × ((j : ℕ) → n < suc j → t.requests j ≡ s.requests j)
unfolding run serve look_up intercept_step
run-checks s zero empty new = (refl, refl, λ j h. absurd (omega arith), λ j h. refl)
run-checks s (suc n) empty new =
    let rest =
      run-checks (serve s n (returns 201 null)) n (ground (arith, new n))
        (λ j h. ground (arith, new j, new n)) in
    (
      ground (arith, rest, new n),
      ground (arith, rest, new n),
      λ j h. ground (arith, rest.2 j, rest.3 j, new n),
      λ j h. ground (arith, rest.3 j),
    )

run-round :
    (s : System) (n : ℕ)
    → s.cache.locked ≡ false
    → s.requests n ≡ checked
    → let t = run s (turns_with n 201 null 4) in
      (t.cache.locked ≡ false)
      × (t.calls ≡ n ∷ s.calls)
      × (t.requests n ≡ replied 201 null)
      × ((j : ℕ) → n ≢ j → t.requests j ≡ s.requests j)
unfolding run serve acquire_lock save release_lock intercept_step
run-round s n free at = ground arith

run-rounds :
    (s : System) (n : ℕ)
    → s.cache.locked ≡ false
    → ((j : ℕ) → j < n → s.requests j ≡ checked)
    → length (run s (rounds n)).calls ≡ n + length s.calls
unfolding run
run-rounds s zero free at = ground arith
run-rounds s (suc n) free at =
    let first = run-round s n free (at n (omega arith)) in
    ground (
      arith,
      run-append s (turns_with n 201 null 4) (rounds n),
      first,
      run-rounds (run s (turns_with n 201 null 4)) n first.0
          (λ j h. ground (arith, first.3 j, at j)),
    )

-- Turns whose access to Redis, or whose handler, returns.
abbrev pub has_returned : Outcome → Bool
has_returned (returns _ _) = true
has_returned (throws _) = false

abbrev pub AllReturn : List Turn → Type 0
AllReturn turns = All (λ turn. has_returned turn.outcome ≡ true) turns

checks-AllReturn : (n : ℕ) → AllReturn (checks n)
checks-AllReturn zero = tt
checks-AllReturn (suc n) = (refl, checks-AllReturn n)

rounds-AllReturn : (n : ℕ) → AllReturn (rounds n)
rounds-AllReturn zero = tt
rounds-AllReturn (suc n) = (refl, (refl, (refl, (refl, rounds-AllReturn n))))

-- For every number there is a schedule of requests with one key, in which every access to Redis and
-- every call of the handler returns and no key expires, that calls the handler that many times.
pub calls_unbounded :
    (n : ℕ) → (turns : List Turn) × AllReturn turns × (length (run init turns).calls ≡ n)
unfolding run
calls_unbounded n =
    let first = run-checks init n refl (λ j h. refl) in
    (
      checks n ++ rounds n,
      All-append (λ turn. has_returned turn.outcome ≡ true) (checks n) (rounds n)
          (checks-AllReturn n) (rounds-AllReturn n),
      ground (
        arith,
        run-append init (checks n) (rounds n),
        first,
        run-rounds (run init (checks n)) n (ground (arith, first)) first.2,
      ),
    )
