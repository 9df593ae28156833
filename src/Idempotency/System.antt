-- ===== src/Idempotency/System.antt =====
-- core/idempotency/idempotency.interceptor.ts: requests with one key, interleaved in any order.
use expentra.Prelude.{ℕ, Bool, false, none, List, [], ◌∷◌, ◌==◌, if◌then◌else◌, ◌≡◌}
use expentra.Idempotency.{
  Cache, Request, arriving, handling, Outcome, returns, status_or_200, IdempotencyRecord,
  intercept_step,
}

-- The cache, the requests by number, and the history: the request of each call of the handler, and
-- the answers that the handler gave, as they are stored.
pub record System : Type 0 where
  pub cache : Cache
  pub requests : ℕ → Request
  pub calls : List ℕ
  pub answers : List IdempotencyRecord

abbrev pub update : (ℕ → Request) → ℕ → Request → ℕ → Request
update requests i r j = if i == j then r else requests j

abbrev pub no_record : Cache
no_record = record { stored = none; locked = false }

abbrev pub init : System
init = record { cache = no_record; requests = λ _. arriving; calls = []; answers = [] }

-- A call of the handler starts where the lock is won.
abbrev pub called : ℕ → Request → Request → List ℕ → List ℕ
called i handling after calls = calls
called i _ handling calls = i ∷ calls
called i _ _ calls = calls

-- An answer of the handler is one of the history.
abbrev pub answered : Request → Outcome → List IdempotencyRecord → List IdempotencyRecord
answered handling (returns code body) answers =
    record { status_code = status_or_200 code; body = body } ∷ answers
answered _ _ answers = answers

-- Request `i` makes its next step.
unfoldable pub serve : System → ℕ → Outcome → System
serve s i o =
    let after = intercept_step s.cache (s.requests i) o in
    record {
      cache = after.0;
      requests = update s.requests i after.1;
      calls = called i (s.requests i) after.1 s.calls;
      answers = answered (s.requests i) o s.answers;
    }

-- Which of the two keys outlive what is looked at: their times to live are 24 hours and 120 seconds.
pub record Lasting : Type 0 where
  pub records : Bool
  pub locks : Bool

pub data Step (lasting : Lasting) (s : System) : System → Type 0 where
  served : (i : ℕ) (o : Outcome) → Step lasting s (serve s i o)
  record_expires :
      lasting.records ≡ false
      → Step lasting s (record s { cache = record s.cache { stored = none } })
  lock_expires :
      lasting.locks ≡ false
      → Step lasting s (record s { cache = record s.cache { locked = false } })

-- The states that follow a state.
pub data Trace (lasting : Lasting) (s : System) : System → Type 0 where
  here : Trace lasting s s
  then_step : {t u : System} → Trace lasting s t → Step lasting t u → Trace lasting s u
