-- ===== src/Outbox/Relay/Enqueued.antt =====
-- core/outbox/processors/outbox-relay.processor.ts: the jobs that a relay leaves.
use expentra.Prelude.{
  ℕ, true, false, Option, none, some, List, [], ◌∷◌, ◌==◌, find?, if◌then◌else◌, ◌≡◌, refl, arith,
  All, Option-cases, ap, sym, ◌∙◌, subst, inl, inr,
}
use expentra.Prelude.Result.{Exception, ok}
use expentra.Outbox.{OutboxEvent, claim_pending_batch}
use expentra.Outbox.Relay.{
  DomainEventJob, has_finished, is_job_of, add_job, remove_job, enqueue_domain_event, Relay,
  relay_events, process_relay, is_in_flight,
}

is_in_flight-add_job :
    (event : OutboxEvent) (jobs : List DomainEventJob) (id : ℕ)
    → is_in_flight (add_job event jobs) id ≡ (if event.id == id then true else is_in_flight jobs id)
is_in_flight-add_job event [] id = ground arith
is_in_flight-add_job event (job ∷ jobs) id = ground (arith, is_in_flight-add_job event jobs id)

is_in_flight-remove_job :
    (jobs : List DomainEventJob) (gone id : ℕ)
    → is_in_flight (remove_job gone jobs) id ≡ (if gone == id then false else is_in_flight jobs id)
is_in_flight-remove_job [] gone id = ground arith
is_in_flight-remove_job (job ∷ jobs) gone id = ground (arith, is_in_flight-remove_job jobs gone id)

found-is_in_flight :
    (jobs : List DomainEventJob) (id : ℕ) (job : DomainEventJob)
    → find? (is_job_of id) jobs ≡ some job
    → has_finished job.state ≡ false
    → is_in_flight jobs id ≡ true
found-is_in_flight [] id job h live = cc
found-is_in_flight (x ∷ xs) id job h live = ground (arith, found-is_in_flight xs id job)

enqueue-is_in_flight :
    (event : OutboxEvent) (jobs : List DomainEventJob) (id : ℕ)
    → is_in_flight (enqueue_domain_event event jobs) id
      ≡ (if event.id == id then true else is_in_flight jobs id)
unfolding enqueue_domain_event
enqueue-is_in_flight event jobs id = elim (Option-cases (find? (is_job_of event.id) jobs)) [
  | inl absent ↦ ground (arith, absent, is_in_flight-add_job event jobs id)
  | inr (job, present) ↦ ground (
    arith,
    present,
    is_in_flight-add_job event (remove_job event.id jobs) id,
    is_in_flight-remove_job jobs event.id id,
    found-is_in_flight jobs event.id job,
  )
]

relay_events-kept :
    (queue : ℕ → Option Exception) (events : List OutboxEvent) (relay : Relay) (id : ℕ)
    → is_in_flight relay.jobs id ≡ true
    → is_in_flight (relay_events queue events relay).1.jobs id ≡ true
unfolding relay_events
relay_events-kept queue [] relay id h = h
relay_events-kept queue (e ∷ es) relay id h =
    let next : Relay = record relay { jobs = enqueue_domain_event e relay.jobs } in
    ground (arith, enqueue-is_in_flight e relay.jobs id, relay_events-kept queue es next id)

relay_events-answered :
    (queue : ℕ → Option Exception) (e : OutboxEvent) (es : List OutboxEvent) (relay : Relay)
    → queue e.id ≡ none
    → relay_events queue (e ∷ es) relay
      ≡ relay_events queue es (record relay { jobs = enqueue_domain_event e relay.jobs })
unfolding relay_events
relay_events-answered queue e es relay answers = ground (arith, answers)

-- The rows are left alone, and every event has a job in flight.
abbrev HasEnqueued : List OutboxEvent → Relay → Relay → Type 0
HasEnqueued events relay after =
    (after.rows ≡ relay.rows) × All (λ e. is_in_flight after.jobs e.id ≡ true) events

relay_events-returned :
    (queue : ℕ → Option Exception) (events : List OutboxEvent) (relay : Relay)
    → (relay_events queue events relay).0 ≡ ok tt
    → HasEnqueued events relay (relay_events queue events relay).1
unfolding relay_events
relay_events-returned queue [] relay h = (refl, tt)
relay_events-returned queue (e ∷ es) relay h = elim (Option-cases (queue e.id)) [
  | inl answers ↦
      let next : Relay = record relay { jobs = enqueue_domain_event e relay.jobs } in
      let first = relay_events-answered queue e es relay answers in
      let (rows, rest) = relay_events-returned queue es next (ap (λ o. o.0) (sym first) ∙ h) in
      let live =
        relay_events-kept queue es next e.id
          (ground (arith, enqueue-is_in_flight e relay.jobs e.id)) in
      subst (λ o. HasEnqueued (e ∷ es) relay o.1) (sym first) (rows, (live, rest))
  | inr (x, throws) ↦ absurd (ground (arith, throws))
]

-- A poll of the relay that returns marks the rows of one claim as dispatched, changes no row
-- otherwise, and leaves a job in flight for each event that it claimed.
pub process_relay-returned :
    (now : ℕ) (queue : ℕ → Option Exception) (relay : Relay)
    → let (events, claimed) = claim_pending_batch now 50 relay.rows in
      let (result, after) = process_relay now queue (some "poll") relay in
      result ≡ ok tt
      → (after.rows ≡ claimed) × All (λ e. is_in_flight after.jobs e.id ≡ true) events
unfolding process_relay
process_relay-returned now queue relay h =
    let claim = claim_pending_batch now 50 relay.rows in
    relay_events-returned queue claim.0 (record relay { rows = claim.1 }) h
