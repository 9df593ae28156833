-- ===== src/Examples/Events.antt =====
-- Events of the outbox: one that waits and one that is stuck.
use expentra.Prelude.{
  filter, map, ◌++◌, ℕ, String, true, false, none, some, List, [], ◌∷◌, ◌≡◌, ◌≤◌, ◌||◌, ◌+◌, ◌==◌,
  is_some, All, refl, arith, length,
}
use expentra.Prelude.Result.{Exception, not_found}
use expentra.Policy.Json.{text, Fields, end, field, get}
use expentra.Store.{next_id}
use expentra.Outbox.Publishing.{Publishing, schedule_relay, schedule_repeated, publish_event}
use expentra.Outbox.EndToEnd.{published_is_enqueued}
use expentra.Outbox.{
  OutboxEvent, AppendOutboxEventInput, append, is_claimable, insert_event, sort_events, has_id,
  claim_pending_batch, is_stuck, reclaim_stuck_dispatched, mark_processed, clear_dispatched,
  count_pending, oldest_pending_age_seconds, mark_dispatched,
}
use expentra.Outbox.Redaction.{
  redact_processed_domain_event_payload, stored_payload, stored_payload-get,
}
use expentra.Outbox.Claims.{claims_are_disjoint, reclaimed_are_claimed}
use expentra.Outbox.Delivery.{
  HandlerRegistration, register, resolve_handlers, HandlerRuns, answers, Ending, returns, stops,
  throws, delete_fails, Settled, fulfilled, acquire_run, end_run, end_acquired, Outcomes,
  acquire_all, end_all, settle, dispatch, process, Worker, on_failed,
}
use expentra.Outbox.Delivery.Once.{times, RunStep, RunSteps, no_runs}
use expentra.Outbox.Delivery.Once.Attempts.{handlers_run_at_most_once}
use expentra.Outbox.Relay.{
  Relay, enqueue_domain_event, relay_events, process_relay, is_in_flight, job_data,
}
use expentra.Outbox.Relay.Enqueued.{process_relay-returned}

abbrev reset_payload : Fields
reset_payload = field "email" (text "user@example.com") (field "resetToken" (text "123456") end)

abbrev reset_event : OutboxEvent
reset_event = record {
  id = 1;
  event_type = "auth.password-reset";
  payload = reset_payload;
  correlation_id = none;
  idempotency_key = none;
  processed_at = none;
  dispatched_at = none;
  created_at = 1000;
}

abbrev stuck_event : OutboxEvent
stuck_event = record {
  id = 2;
  event_type = "expense.submitted";
  payload = end;
  correlation_id = some "c-1";
  idempotency_key = some "expense.submitted:7:1000";
  processed_at = none;
  dispatched_at = some 2000;
  created_at = 1000;
}

abbrev rows : List OutboxEvent
rows = stuck_event ∷ reset_event ∷ []

-- The rows of an event are processed.
abbrev IsDoneFor : ℕ → List OutboxEvent → Type 0
IsDoneFor id events =
    All (λ row. is_some row.processed_at ≡ true) (filter (λ row. row.id == id) events)

abbrev relay : Relay
relay = record { rows = rows; jobs = [] }

abbrev digit : ℕ → String
digit n = "1"

abbrev registry : List HandlerRegistration
registry =
    record { event_type = "auth.password-reset"; factories = (λ payload. "auth-email" ∷ []) ∷ [] }
    ∷ []

abbrev all_end : Ending → Outcomes
all_end ending = record { replies = (λ name. answers); endings = (λ name. ending) }

abbrev worker : HandlerRuns → Worker
worker runs = record { rows = rows; runs = runs }

-- The job of the reset, with all its handlers ending so.
abbrev attempt : Ending → Worker → Settled × Worker
attempt ending before = process digit registry 3000 (all_end ending) (job_data reset_event) before

abbrev user_not_found : Exception
user_not_found = not_found "User not found"

reset_token-redacted :
    get "resetToken" (stored_payload "auth.password-reset" reset_payload) ≡ some (text "[redacted]")
reset_token-redacted = stored_payload-get "auth.password-reset" reset_payload "resetToken"

abbrev auth_key : String
auth_key = "domain-handler:auth.password-reset:auth-email:1"

-- The handler throws at the first attempt and returns at the second, and the third skips it.
retried :
    (attempt returns
      (attempt returns (attempt (throws user_not_found) (worker no_runs)).1).1).1.runs
    ≡ record { held = auth_key ∷ []; running = []; succeeded = auth_key ∷ [] }
unfolding process dispatch settle acquire_all acquire_run end_all end_acquired end_run
    resolve_handlers
retried = refl

-- The handler throws and its key is not deleted: the next attempt returns and marks the event as
-- processed, with no run of the handler.
run_is_lost :
    let (result, after) =
      attempt returns (attempt (delete_fails false user_not_found) (worker no_runs)).1 in
    (result ≡ fulfilled) × (after.runs.succeeded ≡ []) × IsDoneFor 1 after.rows
unfolding process dispatch settle acquire_all acquire_run end_all end_acquired end_run
    resolve_handlers mark_processed redact_processed_domain_event_payload
run_is_lost = (refl, refl, (refl, tt))

-- A worker that stops leaves the key as well.
stopped_is_lost :
    let (result, after) = attempt returns (attempt stops (worker no_runs)).1 in
    (result ≡ fulfilled) × (after.runs.succeeded ≡ []) × IsDoneFor 1 after.rows
unfolding process dispatch settle acquire_all acquire_run end_all end_acquired end_run
    resolve_handlers mark_processed redact_processed_domain_event_payload
stopped_is_lost = (refl, refl, (refl, tt))

-- Two attempts overlap: the second asks while the handler runs for the first.
abbrev overlapped : HandlerRuns
overlapped = record { held = auth_key ∷ []; running = []; succeeded = auth_key ∷ [] }

abbrev under_way : HandlerRuns
under_way = record { held = auth_key ∷ []; running = auth_key ∷ []; succeeded = [] }

overlapped_steps : RunSteps no_runs overlapped
unfolding acquire_run end_run
overlapped_steps = RunSteps.step no_runs under_way overlapped (RunStep.asks auth_key answers refl) (
    RunSteps.step under_way under_way overlapped (RunStep.asks auth_key answers refl) (
      RunSteps.step under_way overlapped overlapped
        (RunStep.ends auth_key returns (ground arith) refl) (RunSteps.start overlapped)))

handlers_run_at_most_once_example :
    ((event_type entity_key : String) (outcomes : Outcomes) (names : List String)
      → RunSteps no_runs (settle event_type entity_key outcomes names overlapped).1)
    × ((key : String) → times overlapped.running key + times overlapped.succeeded key ≤ 1)
handlers_run_at_most_once_example = handlers_run_at_most_once overlapped overlapped_steps

abbrev first_claim : List OutboxEvent × List OutboxEvent
first_claim = claim_pending_batch 5000 50 rows

claims_are_disjoint_example :
    (length (claim_pending_batch 5000 50 rows).0 ≤ 50)
    × All
        (λ r. has_id r.id (claim_pending_batch 5000 50 rows).0 ≡ false)
        (claim_pending_batch 7000 50 (claim_pending_batch 5000 50 rows).1).0
claims_are_disjoint_example = claims_are_disjoint 5000 50 7000 50 rows

reclaimed_are_claimed_example :
    All
      (λ r.
        has_id r.id (claim_pending_batch 402000 50 (reclaim_stuck_dispatched 400000 rows).1).0
        ≡ true)
      (filter (λ r. is_claimable r || is_stuck 400000 r) rows)
unfolding reclaim_stuck_dispatched
reclaimed_are_claimed_example = reclaimed_are_claimed 400000 402000 50 rows (omega arith)

poll_enqueues :
    ((process_relay 5000 (λ id. none) (some "poll") relay).1.rows
      ≡ (claim_pending_batch 5000 50 rows).1)
    × All
        (λ e. is_in_flight (process_relay 5000 (λ id. none) (some "poll") relay).1.jobs e.id ≡ true)
        (claim_pending_batch 5000 50 rows).0
unfolding process_relay relay_events enqueue_domain_event claim_pending_batch sort_events
    insert_event
poll_enqueues = process_relay-returned 5000 (λ id. none) relay refl

abbrev resubmission : AppendOutboxEventInput
resubmission = record {
  event_type = "expense.submitted";
  payload = end;
  idempotency_key = some "expense.submitted:7:1000";
}

-- The key of the stuck event is taken, whatever becomes of that event.
append-taken : append 6000 none resubmission rows ≡ none
unfolding append
append-taken = refl

-- The fifth failure lets the event be claimed again; one before does not.
on_failed-last :
    on_failed 5 none (some 2) rows ≡ record stuck_event { dispatched_at = none } ∷ reset_event ∷ []
unfolding on_failed clear_dispatched
on_failed-last = refl

on_failed-before : on_failed 4 none (some 2) rows ≡ rows
unfolding on_failed
on_failed-before = refl

pending : (count_pending rows ≡ 2) × (oldest_pending_age_seconds 6500 rows ≡ some 5)
unfolding count_pending oldest_pending_age_seconds
pending = (refl, refl)

-- A dispatch that is marked again keeps its time.
mark_dispatched-again : mark_dispatched 9000 2 rows ≡ rows
unfolding mark_dispatched
mark_dispatched-again = refl

register-second :
    resolve_handlers "auth.password-reset" end
      (register "auth.password-reset" (λ payload. "audit" ∷ []) registry)
    ≡ "auth-email" ∷ "audit" ∷ []
unfolding register resolve_handlers
register-second = refl

abbrev overspend : AppendOutboxEventInput
overspend = record { event_type = "budget.overspend"; payload = end; idempotency_key = none }

abbrev overspend_event : OutboxEvent
overspend_event = record {
  id = 3;
  event_type = "budget.overspend";
  payload = end;
  correlation_id = none;
  idempotency_key = none;
  processed_at = none;
  dispatched_at = none;
  created_at = 6000;
}

abbrev with_overspend : Publishing
with_overspend = record { rows = rows ++ overspend_event ∷ []; jobs = [] }

published_is_enqueued_example :
    is_in_flight
      (process_relay 8000
        (λ id. none)
        (some "poll")
        (record { rows = with_overspend.rows; jobs = [] })).1.jobs
      3
    ≡ true
unfolding publish_event append schedule_relay next_id process_relay relay_events
    enqueue_domain_event claim_pending_batch sort_events insert_event
published_is_enqueued_example =
    published_is_enqueued digit 6000 8000 false none overspend (record { rows = rows; jobs = [] })
      with_overspend overspend_event (λ id. none) [] refl (omega arith) refl

-- A relay job of the same millisecond is not added again, and a queue that throws is left alone.
scheduled_once : length (schedule_relay digit 6000 true (schedule_relay digit 6000 true [])) ≡ 1
unfolding schedule_relay
scheduled_once = refl

repeated_jobs :
    map (λ job. job.every) (schedule_repeated (schedule_repeated [])) ≡ some 2000 ∷ some 60000 ∷ []
unfolding schedule_repeated
repeated_jobs = refl
