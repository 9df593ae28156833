-- ===== src/Outbox/Delivery/Once.antt =====
-- core/outbox/services/domain-event-idempotency.service.ts: how often a handler runs for an event,
-- whatever attempts overlap and whatever calls of Redis throw.
use expentra.Prelude.{
  ℕ, suc, ◌+◌, ltb, ◌&&◌, ◌≤◌, String, true, false, List, [], ◌∷◌, not, filter, same_text, ◌≡◌,
  refl, if◌then◌else◌, arith, eq_iff,
}
pub mod Attempts
use expentra.Outbox.Delivery.{
  HandlerRuns, holds_key, remove_first, SetReply, answers, fails, acquire_run, Ending, returns,
  stops, throws, delete_fails, end_run,
}

-- How often a key is in a list of keys.
abbrev pub times : List String → String → ℕ
times [] key = 0
times (k ∷ ks) key = let rest = times ks key in if same_text k key then suc rest else rest

-- One step of a run of a handler: its key is asked for, or its handler ends.
pub data RunStep (runs runs' : HandlerRuns) : Type 0 where
  asks :
      (key : String) (reply : SetReply)
      → (acquire_run key reply runs).1 ≡ runs'
      → RunStep runs runs'
  ends :
      (key : String) (ending : Ending)
      → 1 ≤ times runs.running key
      → (end_run key ending runs).1 ≡ runs'
      → RunStep runs runs'

-- The steps of any runs, of any attempts, in the order in which Redis has them.
pub data RunSteps : HandlerRuns → HandlerRuns → Type 0 where
  start : (runs : HandlerRuns) → RunSteps runs runs
  step :
      (runs runs' last : HandlerRuns)
      → RunStep runs runs'
      → RunSteps runs' last
      → RunSteps runs last

abbrev pub no_runs : HandlerRuns
no_runs = record { held = []; running = []; succeeded = [] }

-- A key that is free has neither a run under way nor one that returned; one that is held has one of
-- them at most.
abbrev pub RunsOnce : HandlerRuns → Type 0
RunsOnce runs =
    (key : String)
    → times runs.running key + times runs.succeeded key ≤ (if holds_key runs.held key then 1 else 0)

holds_key-let_go :
    (keys : List String) (key k : String)
    → holds_key (filter (λ x. not (same_text x key)) keys) k
      ≡ (if same_text key k then false else holds_key keys k)
holds_key-let_go [] key k = ground arith
holds_key-let_go (x ∷ xs) key k = grind (arith, holds_key-let_go xs key k, eq_iff)

pub times-remove_first :
    (keys : List String) (key k : String)
    → times (remove_first key keys) k + (if same_text key k && ltb 0 (times keys k) then 1 else 0)
      ≡ times keys k
times-remove_first [] key k = ground arith
times-remove_first (x ∷ xs) key k = grind (arith, times-remove_first xs key k, eq_iff)

asks-RunsOnce :
    (key : String) (reply : SetReply) (runs : HandlerRuns)
    → RunsOnce runs
    → RunsOnce (acquire_run key reply runs).1
unfolding acquire_run
asks-RunsOnce key answers runs once k = ground (arith, once k, once key, eq_iff key k)
asks-RunsOnce key (fails stored x) runs once k = ground (arith, once k)

ends-RunsOnce :
    (key : String) (ending : Ending) (runs : HandlerRuns)
    → 1 ≤ times runs.running key
    → RunsOnce runs
    → RunsOnce (end_run key ending runs).1
unfolding end_run
ends-RunsOnce key ending runs busy once k = ground (
  arith,
  once k,
  times-remove_first runs.running key k,
  holds_key-let_go runs.held key k,
  eq_iff key k,
)

RunStep-RunsOnce : (runs runs' : HandlerRuns) → RunStep runs runs' → RunsOnce runs → RunsOnce runs'
RunStep-RunsOnce runs runs' (asks key reply h) once k =
    ground (arith, h, asks-RunsOnce key reply runs once k)
RunStep-RunsOnce runs runs' (ends key ending busy h) once k =
    ground (arith, h, ends-RunsOnce key ending runs busy once k)

pub RunSteps-RunsOnce :
    (runs last : HandlerRuns) → RunSteps runs last → RunsOnce runs → RunsOnce last
RunSteps-RunsOnce runs last (start _) once = once
RunSteps-RunsOnce runs last (step _ runs' _ s rest) once =
    RunSteps-RunsOnce runs' last rest (RunStep-RunsOnce runs runs' s once)
