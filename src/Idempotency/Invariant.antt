-- ===== src/Idempotency/Invariant.antt =====
-- core/idempotency/idempotency.interceptor.ts: one step of a request, against the lock and the record.
use expentra.Prelude.{Bool, true, false, ◌≡◌, ◌⊎◌, arith}
use expentra.Idempotency.{
  Cache, Request, handling, handled, saved, failed, Outcome, look_up, acquire_lock, wait_for_record,
  save, release_lock, intercept_step,
}

-- From the lock that is won to the end of `finally`.
abbrev pub holds : Request → Bool
holds handling = true
holds (handled _ _) = true
holds (saved _ _) = true
holds (failed _) = true
holds _ = false

-- What a step does to the lock: a request that does not hold it leaves it or wins it while it is
-- free; one that holds it keeps it or stops holding it.
pub intercept_step-lock :
    (cache : Cache) (r : Request) (o : Outcome)
    → let after = intercept_step cache r o in
      (holds r ≡ false
        → ((after.0.locked ≡ cache.locked) × (holds after.1 ≡ false))
          ⊎ ((cache.locked ≡ false) × (after.0.locked ≡ true)))
      × (holds r ≡ true → (after.0.locked ≡ cache.locked) ⊎ (holds after.1 ≡ false))
unfolding look_up acquire_lock wait_for_record save release_lock intercept_step
intercept_step-lock cache r o = ground arith
