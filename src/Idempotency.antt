-- ===== src/Idempotency.antt =====
-- core/idempotency: `IdempotencyService`, its storage keys, and the `IdempotencyInterceptor`, one
-- access to Redis or one call of the handler at a time.
use expentra.Prelude.{
  ℕ, suc, zero, String, Bool, true, false, Option, none, some, ◌==◌, ◌||◌, ltb, trimmed,
  text_length, ◌<>◌, if◌then◌else◌,
}
use expentra.Prelude.Result.{Exception, Result, ok, err, bad_request, conflict}
use expentra.Policy.Json.{Json}
pub mod System
pub mod Invariant
pub mod Exclusion
pub mod Replay
pub mod Schedule
pub mod Races
pub mod Key

-- `IdempotencyRecord`
pub record IdempotencyRecord : Type 0 where
  pub status_code : ℕ
  pub body : Json

-- What Redis holds under the two keys of one request: `idempotency:…` and `idempotency:lock:…`.
pub record Cache : Type 0 where
  pub stored : Option IdempotencyRecord
  pub locked : Bool

-- `waitForRecord`, how often it looks by default.
abbrev pub default_attempts : ℕ
default_attempts = 30

-- Where a request stands in `intercept`, with what it has in hand there.
pub data Request : Type 0 where
  arriving : Request  -- before `get`
  checked : Request  -- before `acquireLock`
  waiting : (attempts : ℕ) → Request  -- in the loop of `waitForRecord`
  handling : Request  -- in `next.handle()`
  handled : (status_code : ℕ) (body : Json) → Request  -- before `save`
  saved : (status_code : ℕ) (body : Json) → Request  -- in `finally`, about to return
  failed : Exception → Request  -- in `finally`, about to throw
  replied : (status_code : ℕ) (body : Json) → Request
  thrown : Exception → Request

-- How an access to Redis, or the handler, ends; the status and the body are read where it is the
-- handler that returns.
pub data Outcome : Type 0 where
  returns : (status_code : ℕ) (body : Json) → Outcome
  throws : Exception → Outcome

-- `response.statusCode || 200`
abbrev pub status_or_200 : ℕ → ℕ
status_or_200 code = if code == 0 then 200 else code

abbrev pub in_progress : Exception
in_progress = conflict "A request with this idempotency key is already in progress"

abbrev pub reply : IdempotencyRecord → Request
reply found = replied found.status_code found.body

-- `get` before the lock is asked for.
unfoldable pub look_up : Cache → Request
look_up cache = elim cache.stored [ none ↦ checked | some found ↦ reply found ]

-- `acquireLock`
unfoldable pub acquire_lock : Cache → Cache × Request
acquire_lock cache =
    if cache.locked
    then (cache, waiting default_attempts)
    else (record cache { locked = true }, handling)

-- One round of `waitForRecord`, and what `intercept` does when the last has found nothing.
unfoldable pub wait_for_record : Cache → ℕ → Request
wait_for_record cache zero = thrown in_progress
wait_for_record cache (suc attempts) = elim cache.stored [
  | none ↦ waiting attempts
  | some found ↦ reply found
]

unfoldable pub save : Cache → ℕ → Json → Cache
save cache code body = record cache {
  stored = some (record { status_code = status_or_200 code; body = body });
}

unfoldable pub release_lock : Cache → Cache
release_lock cache = record cache { locked = false }

-- The next step of a request whose access to Redis, or whose handler, ends in a given way.
unfoldable pub intercept_step : Cache → Request → Outcome → Cache × Request
unfolding look_up acquire_lock wait_for_record save release_lock
intercept_step cache arriving (returns _ _) = (cache, look_up cache)
intercept_step cache arriving (throws x) = (cache, thrown x)
intercept_step cache checked (returns _ _) = acquire_lock cache
intercept_step cache checked (throws x) = (cache, thrown x)
intercept_step cache (waiting zero) _ = (cache, wait_for_record cache zero)
intercept_step cache (waiting (suc attempts)) (returns _ _) =
    (cache, wait_for_record cache (suc attempts))
intercept_step cache (waiting (suc attempts)) (throws x) = (cache, thrown x)
intercept_step cache handling (returns code body) = (cache, handled code body)
intercept_step cache handling (throws x) = (cache, failed x)
intercept_step cache (handled code body) (returns _ _) = (save cache code body, saved code body)
intercept_step cache (handled code body) (throws x) = (cache, failed x)
intercept_step cache (saved code body) (returns _ _) = (release_lock cache, replied code body)
intercept_step cache (saved code body) (throws x) = (cache, thrown x)
intercept_step cache (failed x) (returns _ _) = (release_lock cache, thrown x)
intercept_step cache (failed x) (throws y) = (cache, thrown y)
intercept_step cache (replied code body) _ = (cache, replied code body)
intercept_step cache (thrown x) _ = (cache, thrown x)

module _ (number_text : ℕ → String) where
  -- `buildKey`
  unfoldable pub build_key : ℕ → String → String → String
  build_key user_id route_key idempotency_key =
      "idempotency:" <> number_text user_id <> ":" <> route_key <> ":" <> idempotency_key

  -- `buildLockKey`
  unfoldable pub build_lock_key : ℕ → String → String → String
  build_lock_key user_id route_key idempotency_key =
      "idempotency:lock:" <> number_text user_id <> ":" <> route_key <> ":" <> idempotency_key

abbrev pub invalid_key : Exception
invalid_key = bad_request "A valid idempotency-key header (8-128 characters) is required"

-- `readIdempotencyKey`, from the text of the header, or of the first header where there are several.
unfoldable pub read_idempotency_key : Option String → Result String
read_idempotency_key header = elim (trimmed header) [
  | none ↦ err invalid_key
  | some key ↦
      if ltb (text_length key) 8 || ltb 128 (text_length key) then err invalid_key else ok key
]
