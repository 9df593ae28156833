-- ===== src/Idempotency/Exclusion.antt =====
-- core/idempotency/idempotency.interceptor.ts: who holds the lock.
use expentra.Prelude.{ℕ, true, ◌≡◌, arith}
use expentra.Idempotency.{Outcome}
use expentra.Idempotency.System.{
  System, serve, init, Lasting, served, record_expires, lock_expires, Trace, here, then_step,
}
use expentra.Idempotency.Invariant.{holds, intercept_step-lock}

pub record HasOneHolder (s : System) : Type 0 where
  pub locked : (i : ℕ) → holds (s.requests i) ≡ true → s.cache.locked ≡ true
  pub unique : (i j : ℕ) → holds (s.requests i) ≡ true → holds (s.requests j) ≡ true → i ≡ j

serve-HasOneHolder :
    (s : System) (i : ℕ) (o : Outcome) → HasOneHolder s → HasOneHolder (serve s i o)
unfolding serve
serve-HasOneHolder s i o h = record {
  locked = λ j.
      ground
        (arith, intercept_step-lock s.cache (s.requests i) o, h.locked i, h.locked j, h.unique i j);
  unique = λ j k. ground (
    arith,
    intercept_step-lock s.cache (s.requests i) o,
    h.locked i,
    h.locked j,
    h.locked k,
    h.unique i j,
    h.unique i k,
    h.unique j k,
  );
}

pub Trace-HasOneHolder :
    {lasting : Lasting} {s t : System}
    → lasting.locks ≡ true
    → HasOneHolder s
    → Trace lasting s t
    → HasOneHolder t
Trace-HasOneHolder lasts h here = h
Trace-HasOneHolder lasts h (then_step p (served i o)) =
    serve-HasOneHolder _ i o (Trace-HasOneHolder lasts h p)
Trace-HasOneHolder lasts h (then_step p (record_expires _)) =
    let before = Trace-HasOneHolder lasts h p in
    record { locked = before.locked; unique = before.unique }
Trace-HasOneHolder lasts h (then_step p (lock_expires short)) = cc

init-HasOneHolder : HasOneHolder init
init-HasOneHolder = ground arith

-- While no lock expires, in every state that requests with one key reach from none, in any
-- interleaving, at most one request is between winning the lock and the end of `finally`, and so in
-- the handler.
pub mutual_exclusion :
    {lasting : Lasting} {s : System}
    → lasting.locks ≡ true
    → Trace lasting init s
    → (i j : ℕ) → holds (s.requests i) ≡ true
    → holds (s.requests j) ≡ true
    → i ≡ j
mutual_exclusion lasts p = (Trace-HasOneHolder lasts init-HasOneHolder p).unique
