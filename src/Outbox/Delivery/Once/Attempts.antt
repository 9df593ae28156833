-- ===== src/Outbox/Delivery/Once/Attempts.antt =====
-- core/outbox: the attempts of dispatch, as steps of runs.
use expentra.Prelude.{
  ℕ, ◌+◌, ltb, ◌&&◌, ◌≤◌, String, List, [], ◌∷◌, same_text, ◌≡◌, refl, if◌then◌else◌, arith, eq_iff,
}
use expentra.Outbox.Delivery.{
  HandlerRuns, handler_key, SetReply, answers, fails, Acquisition, acquired, duplicate, failed,
  acquire_run, Ending, end_run, end_acquired, Outcomes, acquire_all, end_all, settle,
}
use expentra.Outbox.Delivery.Once.{
  times, RunStep, RunSteps, no_runs, RunSteps-RunsOnce, times-remove_first,
}

-- Whether a run was acquired.
abbrev owns : Acquisition → ℕ
owns acquired = 1
owns duplicate = 0
owns (failed x) = 0

module _ (event_type entity_key : String) where
  -- How many runs of a key were acquired.
  abbrev owned : List (String × Acquisition) → String → ℕ
  owned [] key = 0
  owned ((name, a) ∷ rest) key =
      (if same_text (handler_key event_type entity_key name) key then owns a else 0)
      + owned rest key

RunSteps-append : (a b c : HandlerRuns) → RunSteps a b → RunSteps b c → RunSteps a c
RunSteps-append a b c (RunSteps.start _) rest = rest
RunSteps-append a b c (RunSteps.step _ a' _ s steps) rest =
    RunSteps.step a a' c s (RunSteps-append a' b c steps rest)

acquire_run-owns :
    (key : String) (reply : SetReply) (runs : HandlerRuns) (k : String)
    → times (acquire_run key reply runs).1.running k
      ≡ times runs.running k + (if same_text key k then owns (acquire_run key reply runs).0 else 0)
unfolding acquire_run
acquire_run-owns key answers runs k = ground arith
acquire_run-owns key (fails stored x) runs k = ground arith

end_run-times :
    (key : String) (ending : Ending) (runs : HandlerRuns) (k : String)
    → times (end_run key ending runs).1.running k
        + (if same_text key k && ltb 0 (times runs.running k) then 1 else 0)
      ≡ times runs.running k
unfolding end_run
end_run-times key ending runs k = ground (arith, times-remove_first runs.running key k)

module _ (event_type entity_key : String) (outcomes : Outcomes) where
  acquire_all-RunSteps :
      (names : List String) (runs : HandlerRuns)
      → RunSteps runs (acquire_all event_type entity_key outcomes names runs).1
  unfolding acquire_all
  acquire_all-RunSteps [] runs = RunSteps.start runs
  acquire_all-RunSteps (name ∷ names) runs =
      let key = handler_key event_type entity_key name in
      let between = (acquire_run key (outcomes.replies name) runs).1 in
      RunSteps.step runs between (acquire_all event_type entity_key outcomes (name ∷ names) runs).1
        (RunStep.asks key (outcomes.replies name) refl) (acquire_all-RunSteps names between)

  -- What was acquired is under way.
  acquire_all-owned :
      (names : List String) (runs : HandlerRuns) (k : String)
      → times (acquire_all event_type entity_key outcomes names runs).1.running k
        ≡ owned event_type entity_key (acquire_all event_type entity_key outcomes names runs).0 k
          + times runs.running k
  unfolding acquire_all
  acquire_all-owned [] runs k = ground arith
  acquire_all-owned (name ∷ names) runs k =
      let key = handler_key event_type entity_key name in
      let reply = outcomes.replies name in
      ground (
        arith,
        acquire_run-owns key reply runs k,
        acquire_all-owned names (acquire_run key reply runs).1 k,
      )

  end_all-RunSteps :
      (acquisitions : List (String × Acquisition)) (runs : HandlerRuns)
      → ((k : String) → owned event_type entity_key acquisitions k ≤ times runs.running k)
      → RunSteps runs (end_all event_type entity_key outcomes acquisitions runs).1
  unfolding end_all end_acquired
  end_all-RunSteps [] runs busy = RunSteps.start runs
  end_all-RunSteps ((name, acquired) ∷ rest) runs busy =
      let key = handler_key event_type entity_key name in
      let ending = outcomes.endings name in
      let after = (end_run key ending runs).1 in
      RunSteps.step runs after
        (end_all event_type entity_key outcomes ((name, acquired) ∷ rest) runs).1
        (RunStep.ends key ending (ground (arith, busy key, eq_iff key key)) refl)
        (end_all-RunSteps rest after
          λ k. ground (arith, busy k, end_run-times key ending runs k, eq_iff key k))
  end_all-RunSteps ((name, duplicate) ∷ rest) runs busy =
      end_all-RunSteps rest runs λ k. ground (arith, busy k)
  end_all-RunSteps ((name, failed x) ∷ rest) runs busy =
      end_all-RunSteps rest runs λ k. ground (arith, busy k)

  settle-RunSteps :
      (names : List String) (runs : HandlerRuns)
      → RunSteps runs (settle event_type entity_key outcomes names runs).1
  unfolding settle
  settle-RunSteps names runs =
      let (acquisitions, between) = acquire_all event_type entity_key outcomes names runs in
      RunSteps-append runs between (end_all event_type entity_key outcomes acquisitions between).1
        (acquire_all-RunSteps names runs)
        (end_all-RunSteps acquisitions between λ k. ground (arith, acquire_all-owned names runs k))

-- Where no run has been before and the keys in Redis last: an attempt at an event, whose handlers
-- return, throw or stop and whose calls of Redis answer or throw, is a sequence of steps of runs;
-- and after any steps of any attempts, which may overlap, the runs of a key that are under way and
-- those that returned are one at most.
pub handlers_run_at_most_once :
    (last : HandlerRuns)
    → RunSteps no_runs last
    → ((event_type entity_key : String) (outcomes : Outcomes) (names : List String)
        → RunSteps no_runs (settle event_type entity_key outcomes names last).1)
      × ((key : String) → times last.running key + times last.succeeded key ≤ 1)
handlers_run_at_most_once last steps = (
  λ event_type entity_key outcomes names.
      RunSteps-append no_runs last (settle event_type entity_key outcomes names last).1 steps
        (settle-RunSteps event_type entity_key outcomes names last),
  λ key. ground (arith, RunSteps-RunsOnce no_runs last steps (λ k. ground arith) key),
)
