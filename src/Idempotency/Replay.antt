-- ===== src/Idempotency/Replay.antt =====
-- core/idempotency/idempotency.interceptor.ts: where the answers come from.
use expentra.Prelude.{
  ℕ, Bool, true, false, Option, none, some, List, [], ◌∷◌, includes, is_some, ◌≡◌, arith, ◌⊎◌, inl,
  inr, Bool-cases, ◌==◌, subst,
}
use expentra.Policy.Json.{Json}
use expentra.Idempotency.{
  Cache, Request, arriving, handled, saved, replied, thrown, Outcome, IdempotencyRecord,
  status_or_200, look_up, acquire_lock, wait_for_record, save, release_lock, intercept_step,
}
use expentra.Idempotency.System.{
  System, serve, init, answered, Lasting, served, record_expires, lock_expires, Trace, here,
  then_step,
}

-- A request that has not come further than `get`, or has left `intercept`.
abbrev pub is_outside : Request → Bool
is_outside arriving = true
is_outside (replied _ _) = true
is_outside (thrown _) = true
is_outside _ = false

-- A record is kept through a step, and a request from outside that finds it stays outside.
step-kept :
    (cache : Cache) (r : Request) (o : Outcome)
    → let after = intercept_step cache r o in
      is_some cache.stored ≡ true
      → (is_some after.0.stored ≡ true) × (is_outside r ≡ true → is_outside after.1 ≡ true)
unfolding look_up acquire_lock wait_for_record save release_lock intercept_step
step-kept cache r o = ground arith

-- Request `j` is outside with a record in the cache, and has not called the handler.
record IsLate (j : ℕ) (s : System) : Type 0 where
  stored : is_some s.cache.stored ≡ true
  outside : is_outside (s.requests j) ≡ true
  silent : includes s.calls j ≡ false

serve-IsLate : (s : System) (i j : ℕ) (o : Outcome) → IsLate j s → IsLate j (serve s i o)
unfolding serve
serve-IsLate s i j o late = record {
  stored = ground (arith, step-kept s.cache (s.requests i) o, late.stored);
  outside = ground (arith, step-kept s.cache (s.requests i) o, late.stored, late.outside);
  silent =
      ground (arith, step-kept s.cache (s.requests i) o, late.stored, late.outside, late.silent);
}

Trace-IsLate :
    {lasting : Lasting} {s t : System} (j : ℕ)
    → lasting.records ≡ true
    → IsLate j s
    → Trace lasting s t
    → IsLate j t
Trace-IsLate j lasts late here = late
Trace-IsLate j lasts late (then_step p (served i o)) =
    serve-IsLate _ i j o (Trace-IsLate j lasts late p)
Trace-IsLate j lasts late (then_step p (record_expires short)) = cc
Trace-IsLate j lasts late (then_step p (lock_expires _)) =
    let before = Trace-IsLate j lasts late p in
    record { stored = before.stored; outside = before.outside; silent = before.silent }

-- While no record expires, in any interleaving of the steps of requests with one key and whatever
-- they meet: a request that has not come yet, and has not called the handler, when a record is
-- stored never calls the handler, and is never between the lookup and the end of the interceptor.
pub late_request_is_not_called :
    {lasting : Lasting} {s t : System} (j : ℕ)
    → lasting.records ≡ true
    → is_some s.cache.stored ≡ true
    → s.requests j ≡ arriving
    → includes s.calls j ≡ false
    → Trace lasting s t
    → (is_outside (t.requests j) ≡ true) × (includes t.calls j ≡ false)
late_request_is_not_called j lasts stored new silent p =
    let late =
      Trace-IsLate j lasts (record { stored = stored; outside = ground arith; silent = silent })
        p in
    (late.outside, late.silent)

abbrev pub answer_of : ℕ → Json → IdempotencyRecord
answer_of code body = record { status_code = status_or_200 code; body = body }

-- An answer of the handler's, as it is stored.
abbrev pub IsOneOf : IdempotencyRecord → List IdempotencyRecord → Type 0
IsOneOf given [] = ⊥
IsOneOf given (answer ∷ answers) = (given ≡ answer) ⊎ IsOneOf given answers

-- What a request or the cache has in hand is an answer that the handler gave.
abbrev IsGiven : Request → List IdempotencyRecord → Type 0
IsGiven (handled code body) answers = IsOneOf (answer_of code body) answers
IsGiven (saved code body) answers = IsOneOf (answer_of code body) answers
IsGiven (replied code body) answers = IsOneOf (answer_of code body) answers
IsGiven _ answers = Unit

abbrev IsStored : Option IdempotencyRecord → List IdempotencyRecord → Type 0
IsStored none answers = Unit
IsStored (some found) answers = IsOneOf (answer_of found.status_code found.body) answers

record HasAnswers (s : System) : Type 0 where
  stored : IsStored s.cache.stored s.answers
  given : (i : ℕ) → IsGiven (s.requests i) s.answers

answered-IsGiven :
    (q r : Request) (o : Outcome) (answers : List IdempotencyRecord)
    → IsGiven q answers
    → IsGiven q (answered r o answers)
answered-IsGiven q r o answers h = ground arith

intercept_step-answers :
    (cache : Cache) (r : Request) (o : Outcome) (answers : List IdempotencyRecord)
    → IsStored cache.stored answers
    → IsGiven r answers
    → let after = intercept_step cache r o in
      IsStored after.0.stored (answered r o answers) × IsGiven after.1 (answered r o answers)
unfolding look_up acquire_lock wait_for_record save release_lock intercept_step
intercept_step-answers cache r o answers h g = ground arith

serve-HasAnswers : (s : System) (i : ℕ) (o : Outcome) → HasAnswers s → HasAnswers (serve s i o)
unfolding serve
serve-HasAnswers s i o h =
    let after = intercept_step-answers s.cache (s.requests i) o s.answers h.stored (h.given i) in
    record {
      stored = after.0;
      given = λ j. elim (Bool-cases (i == j)) [
        | inl same ↦ rw same after.1
        | inr other ↦
            rw other (answered-IsGiven (s.requests j) (s.requests i) o s.answers (h.given j))
      ];
    }

Trace-HasAnswers :
    {lasting : Lasting} {s t : System} → HasAnswers s → Trace lasting s t → HasAnswers t
Trace-HasAnswers h here = h
Trace-HasAnswers h (then_step p (served i o)) = serve-HasAnswers _ i o (Trace-HasAnswers h p)
Trace-HasAnswers h (then_step p (record_expires _)) = record {
  stored = tt;
  given = (Trace-HasAnswers h p).given;
}
Trace-HasAnswers h (then_step p (lock_expires _)) =
    let before = Trace-HasAnswers h p in record { stored = before.stored; given = before.given }

-- In every state that requests with one key reach from none, in any interleaving and with keys that
-- expire or not, what a request was replied is a body and a status, 200 where it is 0, that the
-- handler answered.
pub replies_are_answers :
    {lasting : Lasting} {s : System}
    → Trace lasting init s
    → (i code : ℕ) (body : Json) → s.requests i ≡ replied code body
    → IsOneOf (answer_of code body) s.answers
replies_are_answers {s = s} p i code body e =
    subst (λ r. IsGiven r s.answers) e
      ((Trace-HasAnswers (record { stored = tt; given = λ j. tt }) p).given i)
