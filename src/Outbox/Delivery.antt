-- ===== src/Outbox/Delivery.antt =====
-- core/outbox: `runOnce` of services/domain-event-idempotency.service.ts, the registry and the
-- dispatcher of handlers, and processors/domain-event.processor.ts.
use expentra.Prelude.{
  ℕ, String, Bool, true, false, Option, none, some, List, [], ◌∷◌, ◌++◌, map, not, any, filter,
  same_text, ltb, ◌==◌, ◌<>◌, if◌then◌else◌,
}
use expentra.Prelude.Result.{Exception}
use expentra.Policy.Json.{Fields}
use expentra.Outbox.{OutboxEvent, mark_processed, clear_dispatched}
use expentra.Outbox.Redaction.{redact_processed_domain_event_payload}
pub mod Once

-- The factories of an event type make the definitions of its handlers from a payload; of a definition
-- there is its name here, and how a run of it ends is given where it is run.
pub record HandlerRegistration : Type 0 where
  pub event_type : String
  pub factories : List (Fields → List String)

-- `register`
unfoldable pub register :
    String → (Fields → List String) → List HandlerRegistration → List HandlerRegistration
register event_type factory [] = record { event_type = event_type; factories = factory ∷ [] } ∷ []
register event_type factory (r ∷ rs) =
    let rest = r ∷ register event_type factory rs in
    if same_text r.event_type event_type
    then record r { factories = r.factories ++ factory ∷ [] } ∷ rs
    else rest

abbrev pub flat_map : List (Fields → List String) → Fields → List String
flat_map [] payload = []
flat_map (f ∷ fs) payload = f payload ++ flat_map fs payload

-- `resolve`: the names of the handlers.
unfoldable pub resolve_handlers : String → Fields → List HandlerRegistration → List String
resolve_handlers event_type payload [] = []
resolve_handlers event_type payload (r ∷ rs) =
    let rest = resolve_handlers event_type payload rs in
    if same_text r.event_type event_type then flat_map r.factories payload else rest

-- The keys that Redis holds, those of the runs that are under way, and the history of the handlers
-- that ran without a throw, by key.
pub record HandlerRuns : Type 0 where
  pub held : List String
  pub running : List String
  pub succeeded : List String

abbrev pub holds_key : List String → String → Bool
holds_key keys key = any (λ k. same_text k key) keys

abbrev pub hold : String → HandlerRuns → HandlerRuns
hold key runs = record runs { held = key ∷ runs.held }

-- `del`
abbrev pub let_go : String → HandlerRuns → HandlerRuns
let_go key runs = record runs { held = filter (λ k. not (same_text k key)) runs.held }

abbrev pub remove_first : String → List String → List String
remove_first key [] = []
remove_first key (k ∷ ks) =
    let rest = k ∷ remove_first key ks in if same_text k key then ks else rest

abbrev pub handler_key : String → String → String → String
handler_key event_type entity_key handler_name =
    "domain-handler:" <> event_type <> ":" <> handler_name <> ":" <> entity_key

-- How the call of `setIfNotExists` ends: with its answer, or with a throw, after which Redis may
-- have stored the key.
pub data SetReply : Type 0 where
  answers : SetReply
  fails : Bool → Exception → SetReply

-- What a run has of its key.
pub data Acquisition : Type 0 where
  acquired duplicate : Acquisition
  failed : Exception → Acquisition

-- How the handler of a run ends: it returns; it throws, and its key is deleted; it throws, and then
-- `del` throws, with the key deleted or not; or its worker stops.
pub data Ending : Type 0 where
  returns stops : Ending
  throws : Exception → Ending
  delete_fails : Bool → Exception → Ending

-- How a promise ends, if it does.
pub data Settled : Type 0 where
  fulfilled unsettled : Settled
  rejected : Exception → Settled

-- `runOnce` as far as the answer to `setIfNotExists`.
unfoldable pub acquire_run : String → SetReply → HandlerRuns → Acquisition × HandlerRuns
acquire_run key answers runs =
    if holds_key runs.held key
    then (duplicate, runs)
    else (acquired, record (hold key runs) { running = key ∷ runs.running })
acquire_run key (fails stored x) runs = (failed x, if stored then hold key runs else runs)

-- `runOnce` from the call of the handler.
unfoldable pub end_run : String → Ending → HandlerRuns → Settled × HandlerRuns
end_run key ending runs =
    let rest = record runs { running = remove_first key runs.running } in
    elim ending as (λ _. Settled × HandlerRuns) [
      | returns ↦ (fulfilled, record rest { succeeded = key ∷ runs.succeeded })
      | stops ↦ (unsettled, rest)
      | throws x ↦ (rejected x, let_go key rest)
      | delete_fails deleted x ↦ (rejected x, if deleted then let_go key rest else rest)
    ]

-- `runOnce` after the answer to `setIfNotExists`.
unfoldable pub end_acquired : String → Acquisition → Ending → HandlerRuns → Settled × HandlerRuns
unfolding end_run
end_acquired key acquired ending runs = end_run key ending runs
end_acquired key duplicate ending runs = (fulfilled, runs)
end_acquired key (failed x) ending runs = (rejected x, runs)

-- How the calls of Redis and the handlers end, by the handler's name.
pub record Outcomes : Type 0 where
  pub replies : String → SetReply
  pub endings : String → Ending

-- The call of each handler, up to its first `await`: the keys are asked for in one go.
unfoldable pub acquire_all :
    String
    → String
    → Outcomes
    → List String
    → HandlerRuns
    → List (String × Acquisition) × HandlerRuns
unfolding acquire_run
acquire_all event_type entity_key outcomes [] runs = ([], runs)
acquire_all event_type entity_key outcomes (name ∷ names) runs =
    let (first, between) =
      acquire_run (handler_key event_type entity_key name) (outcomes.replies name) runs in
    let (rest, after) = acquire_all event_type entity_key outcomes names between in
    ((name, first) ∷ rest, after)

-- What `dispatch` makes of a result and of those that follow: the first that was rejected is
-- thrown, once all have settled.
abbrev pub settle_with : Settled → Settled → Settled
settle_with fulfilled rest = rest
settle_with unsettled rest = unsettled
settle_with (rejected x) unsettled = unsettled
settle_with (rejected x) fulfilled = rejected x
settle_with (rejected x) (rejected y) = rejected x

unfoldable pub end_all :
    String → String → Outcomes → List (String × Acquisition) → HandlerRuns → Settled × HandlerRuns
unfolding end_acquired
end_all event_type entity_key outcomes [] runs = (fulfilled, runs)
end_all event_type entity_key outcomes ((name, acquisition) ∷ others) runs =
    let (first, between) =
      end_acquired (handler_key event_type entity_key name) acquisition (outcomes.endings name)
        runs in
    let (rest, after) = end_all event_type entity_key outcomes others between in
    (settle_with first rest, after)

-- `Promise.allSettled` over the handlers, with the loop over its results; no other attempt runs
-- meanwhile.
unfoldable pub settle :
    String → String → Outcomes → List String → HandlerRuns → Settled × HandlerRuns
unfolding acquire_all end_all
settle event_type entity_key outcomes names runs =
    let (acquisitions, between) = acquire_all event_type entity_key outcomes names runs in
    end_all event_type entity_key outcomes acquisitions between

-- `dispatch`
unfoldable pub dispatch :
    (ℕ → String)
    → List HandlerRegistration
    → Outcomes
    → String
    → Fields
    → ℕ
    → HandlerRuns
    → Settled × HandlerRuns
unfolding settle resolve_handlers
dispatch number_text registry outcomes event_type payload outbox_event_id runs =
    settle event_type (number_text outbox_event_id) outcomes
      (resolve_handlers event_type payload registry) runs

-- `DomainEventJobData`
pub record DomainEventJobData : Type 0 where
  pub outbox_event_id : ℕ
  pub event_type : String
  pub payload : Fields
  pub correlation_id : Option String

-- What a job works on.
pub record Worker : Type 0 where
  pub rows : List OutboxEvent
  pub runs : HandlerRuns

-- `process` of a job; a job that does not settle is one whose worker stopped.
unfoldable pub process :
    (ℕ → String)
    → List HandlerRegistration
    → ℕ
    → Outcomes
    → DomainEventJobData
    → Worker
    → Settled × Worker
unfolding dispatch
process number_text registry now outcomes job worker =
    let (result, runs) =
      dispatch number_text registry outcomes job.event_type job.payload job.outbox_event_id
        worker.runs in
    let payload = redact_processed_domain_event_payload job.event_type job.payload in
    elim result as (λ _. Settled × Worker) [
      | fulfilled ↦ (
        fulfilled,
        record { rows = mark_processed now job.outbox_event_id payload worker.rows; runs = runs },
      )
      | unsettled ↦ (unsettled, record worker { runs = runs })
      | rejected x ↦ (rejected x, record worker { runs = runs })
    ]

-- `DOMAIN_EVENT_MAX_ATTEMPTS`
abbrev pub domain_event_max_attempts : ℕ
domain_event_max_attempts = 5

-- `onFailed`, for a job that was made so many times.
unfoldable pub on_failed : ℕ → Option ℕ → Option ℕ → List OutboxEvent → List OutboxEvent
on_failed attempts_made attempts outbox_event_id rows =
    let most = elim attempts as (λ _. ℕ) [ none ↦ domain_event_max_attempts | some n ↦ n ] in
    if ltb attempts_made most then rows else elim outbox_event_id [
      | none ↦ rows
      | some id ↦ if id == 0 then rows else clear_dispatched id rows
    ]
