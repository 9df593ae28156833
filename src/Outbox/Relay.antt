-- ===== src/Outbox/Relay.antt =====
-- core/outbox/processors/outbox-relay.processor.ts, over the rows of the outbox and the jobs of the
-- queue of domain events.
use expentra.Prelude.{
  ℕ, String, Bool, true, false, Option, none, some, List, [], ◌∷◌, ◌++◌, ◌==◌, ◌&&◌, not, any,
  find?, filter, same_text, if◌then◌else◌, ◌≡◌, refl, arith, All, All-map, ◌⊎◌, inl, inr, ==_refl,
  ==_iff,
}
use expentra.Prelude.Result.{Exception, Result, ok, err}
use expentra.Outbox.{OutboxEvent, claim_pending_batch, clear_dispatched, reclaim_stuck_dispatched}
use expentra.Outbox.Delivery.{DomainEventJobData}
pub mod Enqueued

-- The states of a job in the queue.
pub data JobState : Type 0 where
  waiting active delayed prioritized completed failed : JobState

-- A job under the identifier `domain-event-…`.
pub record DomainEventJob : Type 0 where
  pub data_of : DomainEventJobData
  pub state : JobState

abbrev pub has_finished : JobState → Bool
has_finished completed = true
has_finished failed = true
has_finished _ = false

abbrev pub is_job_of : ℕ → DomainEventJob → Bool
is_job_of id job = job.data_of.outbox_event_id == id

abbrev pub job_data : OutboxEvent → DomainEventJobData
job_data event = record {
  outbox_event_id = event.id;
  event_type = event.event_type;
  payload = event.payload;
  correlation_id = event.correlation_id;
}

abbrev pub add_job : OutboxEvent → List DomainEventJob → List DomainEventJob
add_job event jobs = jobs ++ record { data_of = job_data event; state = waiting } ∷ []

abbrev pub remove_job : ℕ → List DomainEventJob → List DomainEventJob
remove_job id jobs = filter (λ job. not (is_job_of id job)) jobs

-- `enqueueDomainEvent`, where the queue answers.
unfoldable pub enqueue_domain_event : OutboxEvent → List DomainEventJob → List DomainEventJob
enqueue_domain_event event jobs = elim (find? (is_job_of event.id) jobs) [
  | none ↦ add_job event jobs
  | some existing ↦
      if has_finished existing.state then add_job event (remove_job event.id jobs) else jobs
]

pub record Relay : Type 0 where
  pub rows : List OutboxEvent
  pub jobs : List DomainEventJob

-- The loop over the events that were claimed; the queue may throw at an event.
unfoldable pub relay_events :
    (ℕ → Option Exception) → List OutboxEvent → Relay → Result (Unit {0}) × Relay
unfolding enqueue_domain_event
relay_events queue [] relay = (ok tt, relay)
relay_events queue (event ∷ events) relay =
    let next =
      relay_events queue events (record relay { jobs = enqueue_domain_event event relay.jobs }) in
    elim (queue event.id) [
      | none ↦ next
      | some x ↦ (err x, record relay { rows = clear_dispatched event.id relay.rows })
    ]

-- `process` of a job with a name, `poll` where it has none.
unfoldable pub process_relay :
    ℕ → (ℕ → Option Exception) → Option String → Relay → Result (Unit {0}) × Relay
unfolding relay_events
process_relay now queue job_name relay =
    let name = elim job_name as (λ _. String) [ none ↦ "poll" | some s ↦ s ] in
    let (events, claimed) = claim_pending_batch now 50 relay.rows in
    if same_text name "reconcile"
    then (ok tt, record relay { rows = (reclaim_stuck_dispatched now relay.rows).1 })
    else relay_events queue events (record relay { rows = claimed })

-- A job of the event that has not finished.
abbrev pub is_in_flight : List DomainEventJob → ℕ → Bool
is_in_flight jobs id = any (λ job. is_job_of id job && not (has_finished job.state)) jobs
