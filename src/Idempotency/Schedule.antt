-- ===== src/Idempotency/Schedule.antt =====
-- core/idempotency/idempotency.interceptor.ts: requests run in a given order.
use expentra.Prelude.{
  ℕ, zero, suc, ◌+◌, ◌-◌, ◌≤◌, Bool, true, false, List, [], ◌∷◌, ◌++◌, ◌≡◌, refl, arith, ◌≢◌, ◌==◌,
}
use expentra.Prelude.Result.{Exception}
use expentra.Policy.Json.{Json}
use expentra.Idempotency.{
  Cache, Request, arriving, checked, waiting, handling, handled, saved, failed, replied, thrown,
  Outcome, returns, throws, default_attempts, status_or_200, look_up, acquire_lock, wait_for_record,
  save, release_lock, intercept_step,
}
use expentra.Idempotency.System.{Lasting, Trace, then_step, served, System, serve, init, no_record}

-- One turn of a request, and how it ends.
pub record Turn : Type 0 where
  pub request : ℕ
  pub outcome : Outcome

unfoldable pub run : System → List Turn → System
run s [] = s
run s (turn ∷ turns) = run (serve s turn.request turn.outcome) turns

abbrev pub turns_of : ℕ → List Turn → ℕ
turns_of i [] = 0
turns_of i (turn ∷ turns) =
    let rest = turns_of i turns in elim (turn.request == i) [ true ↦ suc rest | false ↦ rest ]

-- The most steps that a request still makes.
abbrev pub steps_left : Request → ℕ
steps_left arriving = 3 + default_attempts
steps_left checked = 2 + default_attempts
steps_left (waiting attempts) = 1 + attempts
steps_left handling = 3
steps_left (handled _ _) = 2
steps_left (saved _ _) = 1
steps_left (failed _) = 1
steps_left (replied _ _) = 0
steps_left (thrown _) = 0

intercept_step-steps_left :
    (cache : Cache) (r : Request) (o : Outcome)
    → steps_left (intercept_step cache r o).1 ≤ steps_left r - 1
unfolding look_up acquire_lock wait_for_record save release_lock intercept_step
intercept_step-steps_left cache r o = ground arith

run-steps_left :
    (s : System) (turns : List Turn) (i : ℕ)
    → steps_left ((run s turns).requests i) ≤ steps_left (s.requests i) - turns_of i turns
unfolding run serve
run-steps_left s [] i = omega arith
run-steps_left s (turn ∷ turns) i = ground (
  arith,
  run-steps_left (serve s turn.request turn.outcome) turns i,
  intercept_step-steps_left s.cache (s.requests turn.request) turn.outcome,
)

abbrev pub has_ended : Request → Bool
has_ended (replied _ _) = true
has_ended (thrown _) = true
has_ended _ = false

-- In any schedule from the start, a request that is given 33 turns has been replied or has thrown,
-- whatever the other requests do: 30 looks for the record among them.
pub requests_end :
    (turns : List Turn) (i : ℕ)
    → 3 + default_attempts ≤ turns_of i turns
    → has_ended ((run init turns).requests i) ≡ true
requests_end turns i enough = ground (arith, run-steps_left init turns i)

-- Turns that all succeed.
abbrev pub turns_with : ℕ → ℕ → Json → ℕ → List Turn
turns_with i code body zero = []
turns_with i code body (suc n) =
    record { request = i; outcome = returns code body } ∷ turns_with i code body n

-- The first request of a key, alone: it is answered by the handler, and the lock is free again.
module _ (s : System) (i code : ℕ) (body : Json) where
  run-success :
      s.requests i ≡ arriving
      → s.cache ≡ no_record
      → let t = run s (turns_with i code body 5) in
        (t.requests i ≡ replied code body)
        × (t.cache ≡ save no_record code body)
        × (t.calls ≡ i ∷ s.calls)
        × ((j : ℕ) → i ≢ j → t.requests j ≡ s.requests j)
  unfolding run serve look_up acquire_lock save release_lock intercept_step
  run-success new empty = ground arith

pub run-append : (s : System) (xs ys : List Turn) → run s (xs ++ ys) ≡ run (run s xs) ys
unfolding run
run-append s [] ys = refl
run-append s (x ∷ xs) ys = run-append (serve s x.request x.outcome) xs ys

-- A request that comes after one that was answered is replied what was stored, and the handler is
-- called once.
pub replay :
    (s : System) (i j code : ℕ) (body : Json)
    → i ≢ j
    → s.cache ≡ no_record
    → s.requests i ≡ arriving
    → s.requests j ≡ arriving
    → let t = run s (turns_with i code body 5 ++ turns_with j code body 1) in
      (t.requests i ≡ replied code body)
      × (t.requests j ≡ replied (status_or_200 code) body)
      × (t.calls ≡ i ∷ s.calls)
unfolding run serve look_up save intercept_step
replay s i j code body other empty new_i new_j =
    let first = run-success s i code body new_i empty in
    ground (
      arith,
      run-append s (turns_with i code body 5) (turns_with j code body 1),
      first,
      first.3 j other,
    )

-- A handler that throws stores nothing, and the lock is free again.
pub failure_is_not_stored :
    (s : System) (i code : ℕ) (body : Json) (x : Exception)
    → s.cache ≡ no_record
    → s.requests i ≡ arriving
    → let t = run s (
        turns_with i code body 2
        ++ record { request = i; outcome = throws x } ∷ turns_with i code body 1) in
      (t.requests i ≡ thrown x) × (t.cache ≡ no_record) × (t.calls ≡ i ∷ s.calls)
unfolding run serve look_up acquire_lock save release_lock intercept_step
failure_is_not_stored s i code body x empty new_i = ground arith

-- The states that turns reach, where no key expires among them.
pub run-Trace :
    {lasting : Lasting} {r : System} (turns : List Turn) {s : System}
    → Trace lasting r s
    → Trace lasting r (run s turns)
unfolding run
run-Trace [] p = p
run-Trace (turn ∷ turns) {s = s} p =
    run-Trace turns {s = serve s turn.request turn.outcome}
      (then_step p (served turn.request turn.outcome))
