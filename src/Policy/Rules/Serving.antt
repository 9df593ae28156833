-- ===== src/Policy/Rules/Serving.antt =====
-- The policies that the engine serves, whatever calls the service has had before.
use expentra.Prelude.{String, none, some, List, ◌≡◌, arith, Option-cases, inl, inr}
use expentra.Prelude.Result.{ok, >>=-eq-ok-then}
use expentra.Runtime.{Runtime}
use expentra.Reference.{find_entity_by_reference}
use expentra.Policy.Json.{Js}
use expentra.Policy.Types.{ExpensePolicy, ExpensePolicyRuleType}
use expentra.Policy.Validator.{normalize_rule_config}
use expentra.Policy.Engine.{find_active_policies, load_active_policies}
use expentra.Policy.Rules.{
  CreateExpensePolicyInput, UpdateExpensePolicyInput, PolicyStore, or_else, reconfigured, create,
  update, remove, load,
}

-- One call of the service or of the engine that returned; the runtime may change between calls.
pub data PolicyStep (rt : Runtime) (js : Js) (s s' : PolicyStore) : Type 0 where
  creates :
      (i : CreateExpensePolicyInput) (reference : String) (p : ExpensePolicy)
      → create rt js i reference s ≡ ok (p, s')
      → PolicyStep rt js s s'
  updates :
      (reference : String) (i : UpdateExpensePolicyInput) (p : ExpensePolicy)
      → update rt js reference i s ≡ ok (p, s')
      → PolicyStep rt js s s'
  removes : (reference : String) → remove rt js reference s ≡ ok (tt, s') → PolicyStep rt js s s'
  loads : (load rt js s).1 ≡ s' → PolicyStep rt js s s'

pub data PolicyRun : PolicyStore → PolicyStore → Type 0 where
  start : (s : PolicyStore) → PolicyRun s s
  call :
      (rt : Runtime) (js : Js) (s s' last : PolicyStore)
      → PolicyStep rt js s s'
      → PolicyRun s' last
      → PolicyRun s last

-- What the cache holds is what the table has.
abbrev pub IsFresh : PolicyStore → Type 0
IsFresh s =
    (kept : List ExpensePolicy) → s.cache.policies ≡ some kept → kept ≡ find_active_policies s.table

module _ (rt : Runtime) (js : Js) (s s' : PolicyStore) where
  create-drops :
      (i : CreateExpensePolicyInput) (reference : String) (p : ExpensePolicy)
      → create rt js i reference s ≡ ok (p, s')
      → s'.cache.policies ≡ none
  unfolding create
  create-drops i reference p h =
      let rule_type = or_else ExpensePolicyRuleType.conditional i.rule_type in
      >>=-eq-ok-then (normalize_rule_config js rule_type i.config) _ h λ _ _ rest. ground arith

  update-drops :
      (reference : String) (i : UpdateExpensePolicyInput) (p : ExpensePolicy)
      → update rt js reference i s ≡ ok (p, s')
      → s'.cache.policies ≡ none
  unfolding update
  update-drops reference i p h =
      >>=-eq-ok-then
        (find_entity_by_reference rt.to_upper (λ q. q.reference) s.table reference
          "Expense policy not found")
        _ h
        λ policy _ h1.
          >>=-eq-ok-then (reconfigured rt js policy i.config) _ h1 λ _ _ rest. ground arith

  remove-drops :
      (reference : String) → remove rt js reference s ≡ ok (tt, s') → s'.cache.policies ≡ none
  unfolding remove
  remove-drops reference h =
      >>=-eq-ok-then
        (find_entity_by_reference rt.to_upper (λ q. q.reference) s.table reference
          "Expense policy not found")
        _ h λ _ _ rest. ground arith

  PolicyStep-IsFresh : PolicyStep rt js s s' → IsFresh s → IsFresh s'
  unfolding load load_active_policies
  PolicyStep-IsFresh (creates i reference p h) fresh kept e =
      ground (arith, create-drops i reference p h)
  PolicyStep-IsFresh (updates reference i p h) fresh kept e =
      ground (arith, update-drops reference i p h)
  PolicyStep-IsFresh (removes reference h) fresh kept e = ground (arith, remove-drops reference h)
  PolicyStep-IsFresh (loads h) fresh kept e = ground (arith, fresh kept)

PolicyRun-IsFresh : (s last : PolicyStore) → PolicyRun s last → IsFresh s → IsFresh last
PolicyRun-IsFresh s last (start _) fresh = fresh
PolicyRun-IsFresh s last (call rt js _ s' _ step rest) fresh =
    PolicyRun-IsFresh s' last rest (PolicyStep-IsFresh rt js s s' step fresh)

load-IsFresh :
    (rt : Runtime) (js : Js) (s : PolicyStore)
    → IsFresh s
    → (load rt js s).0 ≡ find_active_policies s.table
unfolding load load_active_policies
load-IsFresh rt js s fresh = elim (Option-cases s.cache.policies) [
  | inl empty ↦ ground arith
  | inr (kept, e) ↦ ground (arith, e, fresh kept e)
]

-- Whatever policies were created, updated and removed by calls that returned, and whatever
-- evaluations ran between, in one process whose calls do not overlap and which alone writes the
-- table: an evaluation runs over the policies that the table has as active, where the cache was
-- empty to begin with.
pub load-current :
    (rt : Runtime) (js : Js) (first s : PolicyStore)
    → first.cache.policies ≡ none
    → PolicyRun first s
    → (load rt js s).0 ≡ find_active_policies s.table
load-current rt js first s empty run =
    load-IsFresh rt js s (PolicyRun-IsFresh first s run λ kept e. absurd (ground arith))
