-- ===== src/Outbox.antt =====
-- core/outbox/services/outbox.service.ts, over the rows of the table `outbox_events`, and
-- database/entities/outbox-event.entity.ts.
use expentra.Prelude.{
  ℕ, zero, suc, String, Bool, true, false, Option, none, some, List, [], ◌∷◌, ◌++◌, map, ◌+◌, ◌*◌,
  ◌-◌, ◌/◌, ◌==◌, ◌&&◌, not, ltb, leb, is_none, is_some, any, filter, length, same_text,
  if◌then◌else◌,
}
use expentra.Store.{next_id}
use expentra.Policy.Json.{Json, text, Fields, end, field, get}
pub mod Redaction
pub mod Claims
pub mod Delivery
pub mod Relay
pub mod Publishing
pub mod EndToEnd

pub record OutboxEvent : Type 0 where
  pub id : ℕ
  pub event_type : String
  pub payload : Fields
  pub correlation_id : Option String
  pub idempotency_key : Option String
  pub processed_at : Option ℕ
  pub dispatched_at : Option ℕ
  pub created_at : ℕ

pub record AppendOutboxEventInput : Type 0 where
  pub event_type : String
  pub payload : Fields
  pub idempotency_key : Option String

abbrev pub has_idempotency_key : Option String → OutboxEvent → Bool
has_idempotency_key none row = false
has_idempotency_key (some key) row = elim row.idempotency_key [
  | none ↦ false
  | some k ↦ same_text k key
]

-- `append`, without the job that asks the relay to look; nothing where the column of idempotency
-- keys, which is unique, refuses the row.
unfoldable pub append :
    ℕ
    → Option String
    → AppendOutboxEventInput
    → List OutboxEvent
    → Option (OutboxEvent × List OutboxEvent)
append now correlation input rows =
    let row : OutboxEvent = record {
      id = next_id (map (λ r. r.id) rows);
      event_type = input.event_type;
      payload = input.payload;
      correlation_id = correlation;
      idempotency_key = input.idempotency_key;
      processed_at = none;
      dispatched_at = none;
      created_at = now;
    } in
    if any (has_idempotency_key input.idempotency_key) rows
    then none
    else some (row, rows ++ row ∷ [])

abbrev pub is_claimable : OutboxEvent → Bool
is_claimable row = is_none row.processed_at && is_none row.dispatched_at

-- `orderBy('outbox.id', 'ASC')`
unfoldable pub insert_event : OutboxEvent → List OutboxEvent → List OutboxEvent
insert_event e [] = e ∷ []
insert_event e (x ∷ xs) =
    let rest = insert_event e xs in if leb e.id x.id then e ∷ x ∷ xs else x ∷ rest

unfoldable pub sort_events : List OutboxEvent → List OutboxEvent
unfolding insert_event
sort_events [] = []
sort_events (e ∷ es) = insert_event e (sort_events es)

-- `limit(n)`
abbrev pub take {ℓ} : {A : Type ℓ} → ℕ → List A → List A
take zero xs = []
take (suc n) [] = []
take (suc n) (x ∷ xs) = x ∷ take n xs

abbrev pub has_id : ℕ → List OutboxEvent → Bool
has_id id rows = any (λ row. row.id == id) rows

abbrev pub mark_dispatched_at : Option ℕ → OutboxEvent → OutboxEvent
mark_dispatched_at at row = record row { dispatched_at = at }

-- A change of the rows that pass a test.
abbrev pub update_where :
    (OutboxEvent → Bool) → (OutboxEvent → OutboxEvent) → List OutboxEvent → List OutboxEvent
update_where p f [] = []
update_where p f (x ∷ xs) = (if p x then f x else x) ∷ update_where p f xs

-- `claimPendingBatch`, where no other transaction has locked rows: the rows it returns, and the table.
unfoldable pub claim_pending_batch : ℕ → ℕ → List OutboxEvent → List OutboxEvent × List OutboxEvent
unfolding sort_events
claim_pending_batch now limit rows =
    let claimed = take limit (sort_events (filter is_claimable rows)) in
    (
      map (mark_dispatched_at (some now)) claimed,
      update_where (λ row. has_id row.id claimed) (mark_dispatched_at (some now)) rows,
    )

unfoldable pub count_pending : List OutboxEvent → ℕ
count_pending rows = length (filter (λ row. is_none row.processed_at) rows)

-- The earliest creation among the rows.
abbrev pub oldest : List OutboxEvent → Option ℕ
oldest [] = none
oldest (x ∷ xs) = elim (oldest xs) [
  | none ↦ some x.created_at
  | some at ↦ if ltb at x.created_at then some at else some x.created_at
]

unfoldable pub oldest_pending_age_seconds : ℕ → List OutboxEvent → Option ℕ
oldest_pending_age_seconds now rows =
    elim (oldest (filter (λ row. is_none row.processed_at) rows)) [
      | none ↦ none
      | some at ↦ some ((now - at) / 1000)
    ]

unfoldable pub mark_dispatched : ℕ → ℕ → List OutboxEvent → List OutboxEvent
mark_dispatched now id rows =
    update_where (λ row. row.id == id && is_none row.dispatched_at) (mark_dispatched_at (some now))
      rows

unfoldable pub clear_dispatched : ℕ → List OutboxEvent → List OutboxEvent
clear_dispatched id rows = update_where (λ row. row.id == id) (mark_dispatched_at none) rows

abbrev pub mark_processed_at : ℕ → Option Fields → OutboxEvent → OutboxEvent
mark_processed_at now none row = record row { processed_at = some now }
mark_processed_at now (some payload) row = record row { processed_at = some now; payload = payload }

unfoldable pub mark_processed : ℕ → ℕ → Option Fields → List OutboxEvent → List OutboxEvent
mark_processed now id payload rows =
    update_where (λ row. row.id == id && is_none row.processed_at) (mark_processed_at now payload)
      rows

-- `OUTBOX_STUCK_DISPATCHED_MINUTES`
abbrev pub stuck_dispatched_minutes : ℕ
stuck_dispatched_minutes = 5

-- Not processed, and dispatched before the cutoff, `now` less the minutes above.
abbrev pub is_stuck : ℕ → OutboxEvent → Bool
is_stuck now row = is_none row.processed_at && elim row.dispatched_at [
  | none ↦ false
  | some at ↦ ltb (at + stuck_dispatched_minutes * 60 * 1000) now
]

-- `reclaimStuckDispatched`: the number of rows, and the table.
unfoldable pub reclaim_stuck_dispatched : ℕ → List OutboxEvent → ℕ × List OutboxEvent
reclaim_stuck_dispatched now rows = (
  length (filter (is_stuck now) rows),
  update_where (is_stuck now) (mark_dispatched_at none) rows,
)
