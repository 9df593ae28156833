-- ===== src/Outbox/EndToEnd.antt =====
-- core/outbox: an event from its publication to the queue of domain events.
use expentra.Prelude.{
  ℕ, String, Bool, true, Option, some, List, [], ◌∷◌, ◌++◌, ◌==◌, filter, length, ◌≤◌, ◌≡◌, ◌∙◌,
  arith, All, inl, inr, Bool-cases, subst,
}
use expentra.Prelude.Result.{Exception, ok}
use expentra.Outbox.{
  OutboxEvent, AppendOutboxEventInput, append, is_claimable, has_id, claim_pending_batch,
}
use expentra.Outbox.Claims.{has_id-claim_pending_batch}
use expentra.Outbox.Publishing.{Publishing, publish_event}
use expentra.Outbox.Relay.{DomainEventJob, Relay, process_relay, is_in_flight}
use expentra.Outbox.Relay.Enqueued.{process_relay-returned}

-- A row that is published can be claimed.
filter-last :
    (rows : List OutboxEvent) (row : OutboxEvent)
    → is_claimable row ≡ true
    → has_id row.id (filter is_claimable (rows ++ row ∷ [])) ≡ true
filter-last [] row h = ground arith
filter-last (x ∷ xs) row h = ground (arith, filter-last xs row h)

publish_event-claimable :
    (number_text : ℕ → String) (now : ℕ) (answers : Bool) (correlation : Option String)
    (input : AppendOutboxEventInput) (state after : Publishing) (row : OutboxEvent)
    → publish_event number_text now answers correlation input state ≡ some (row, after)
    → (is_claimable row ≡ true) × (after.rows ≡ state.rows ++ row ∷ [])
unfolding publish_event append
publish_event-claimable number_text now answers correlation input state after row h = ground arith

All-has_id :
    (P : ℕ → Type 0) (rows : List OutboxEvent) (id : ℕ)
    → All (λ e. P e.id) rows
    → has_id id rows ≡ true
    → P id
All-has_id P [] id h found = cc
All-has_id P (x ∷ xs) id (h, hs) found = elim (Bool-cases (x.id == id)) [
  | inl same ↦ subst P (ground arith) h
  | inr other ↦ All-has_id P xs id hs (ground arith)
]

-- Where a publication was stored and no more than 50 rows are then claimable, a poll of the relay
-- that returns leaves a job in flight for the published event, whatever jobs the queue of domain
-- events had and whether or not the relay was told to look.
pub published_is_enqueued :
    (number_text : ℕ → String) (now later : ℕ) (answers : Bool) (correlation : Option String)
    (input : AppendOutboxEventInput) (state after : Publishing) (row : OutboxEvent)
    (queue : ℕ → Option Exception) (jobs : List DomainEventJob)
    → publish_event number_text now answers correlation input state ≡ some (row, after)
    → length (filter is_claimable after.rows) ≤ 50
    → (process_relay later queue (some "poll") (record { rows = after.rows; jobs = jobs })).0
      ≡ ok tt
    → is_in_flight
        (process_relay later queue (some "poll") (record { rows = after.rows; jobs = jobs })).1.jobs
        row.id
      ≡ true
published_is_enqueued number_text now later answers correlation input state after row queue jobs
      published few returned =
    let relay : Relay = record { rows = after.rows; jobs = jobs } in
    let (open_, stored) =
      publish_event-claimable number_text now answers correlation input state after row published in
    let enqueued = process_relay-returned later queue relay returned in
    All-has_id (λ id. is_in_flight (process_relay later queue (some "poll") relay).1.jobs id ≡ true)
      (claim_pending_batch later 50 after.rows).0 row.id enqueued.1
      (has_id-claim_pending_batch later 50 row.id after.rows few
        ∙ rw stored (filter-last state.rows row open_))
