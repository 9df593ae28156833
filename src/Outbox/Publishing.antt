-- ===== src/Outbox/Publishing.antt =====
-- core/outbox: `scheduleRelay` of services/outbox.service.ts, services/domain-event.publisher.ts and
-- services/outbox-relay-scheduler.service.ts, over the queue of relay jobs.
use expentra.Prelude.{
  ℕ, String, Bool, Option, none, some, List, [], ◌∷◌, ◌++◌, ◌<>◌, any, same_text, if◌then◌else◌,
}
use expentra.Outbox.{OutboxEvent, AppendOutboxEventInput, append}

-- A job for the relay: how long it waits, in milliseconds, or how often it is repeated.
pub record RelayJob : Type 0 where
  pub name : String
  pub job_id : String
  pub delay : ℕ
  pub every : Option ℕ

abbrev pub has_job : List RelayJob → String → Bool
has_job jobs id = any (λ job. same_text job.job_id id) jobs

-- A queue takes a job unless it has one of that identifier.
abbrev pub add_relay_job : RelayJob → List RelayJob → List RelayJob
add_relay_job job jobs = if has_job jobs job.job_id then jobs else jobs ++ job ∷ []

-- `onModuleInit` of the scheduler.
unfoldable pub schedule_repeated : List RelayJob → List RelayJob
schedule_repeated jobs =
    add_relay_job
      (record {
        name = "reconcile";
        job_id = "outbox-relay-reconcile";
        delay = 0;
        every = some 60000;
      })
      (add_relay_job
        (record { name = "poll"; job_id = "outbox-relay-poll"; delay = 0; every = some 2000 }) jobs)

pub record Publishing : Type 0 where
  pub rows : List OutboxEvent
  pub jobs : List RelayJob

module _ (number_text : ℕ → String) where
  -- `scheduleRelay`; where the queue throws, nothing but a warning comes of it.
  unfoldable pub schedule_relay : ℕ → Bool → List RelayJob → List RelayJob
  schedule_relay now queue_answers jobs =
      let added =
        add_relay_job
          (record {
            name = "relay";
            job_id = "outbox-relay-" <> number_text now;
            delay = 250;
            every = none;
          })
          jobs in
      if queue_answers then added else jobs

  -- `publish`, by a transaction that keeps its writes; nothing where the row is refused.
  unfoldable pub publish_event :
      ℕ
      → Bool
      → Option String
      → AppendOutboxEventInput
      → Publishing
      → Option (OutboxEvent × Publishing)
  unfolding schedule_relay
  publish_event now queue_answers correlation input state =
      elim (append now correlation input state.rows) [
        | none ↦ none
        | some (row, rows) ↦
            some (row, record { rows = rows; jobs = schedule_relay now queue_answers state.jobs })
      ]
