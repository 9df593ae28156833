-- ===== src/Policy/Engine/Compliance.antt =====
-- Which submissions the policy engine lets pass.
use expentra.Prelude.{
  String, false, none, some, List, [], ◌∷◌, ◌≡◌, ◌↔◌, ◌⊎◌, inl, inr, refl, arith, filter, is_empty,
  All, Option-cases,
}
use expentra.Prelude.Result.{Result, ok, ◌>>◌}
use expentra.Store.{Db}
use expentra.Runtime.{Runtime}
use expentra.Expense.Support.{PolicyEvaluationContext}
use expentra.Policy.Json.{Js}
use expentra.Policy.Types.{ExpensePolicySeverity, same_severity, ExpensePolicy, PolicyViolation}
use expentra.Policy.Engine.{
  justification, refuse_blocking, ask_justifications, partition_violations, evaluate_policy,
  violations_of, evaluate, assert_compliant,
}

-- A violation that a justification lets pass.
abbrev Excused : List (String × String) → PolicyViolation → Type 0
Excused given v =
    (v.severity ≡ ExpensePolicySeverity.warn)
    × (is_empty (justification given v.policy_reference) ≡ false)

-- The two loops of `assertCompliant` on a list of violations.
abbrev checks : List (String × String) → List PolicyViolation → Result (Unit {0})
checks given vs = do
  refuse_blocking (filter (λ v. same_severity v.severity ExpensePolicySeverity.block) vs)
  ask_justifications given (filter (λ v. same_severity v.severity ExpensePolicySeverity.warn) vs)

checks-Excused :
    (given : List (String × String)) (vs : List PolicyViolation)
    → checks given vs ≡ ok tt
    → All (Excused given) vs
unfolding refuse_blocking ask_justifications
checks-Excused given [] h = tt
checks-Excused given (v ∷ vs) h = ground (arith, checks-Excused given vs)

Excused-checks :
    (given : List (String × String)) (vs : List PolicyViolation)
    → All (Excused given) vs
    → checks given vs ≡ ok tt
unfolding refuse_blocking ask_justifications
Excused-checks given [] h = refl
Excused-checks given (v ∷ vs) h = ground (arith, Excused-checks given vs)

module _ (rt : Runtime) (js : Js) (given : List (String × String))
    (context : PolicyEvaluationContext) (db : Db) where
  -- The expense does not violate the policy, or the policy only warns and is justified.
  abbrev pub Complies : ExpensePolicy → Type 0
  Complies p =
      (evaluate_policy rt js context db p ≡ none)
      ⊎ ((p.severity ≡ ExpensePolicySeverity.warn)
          × (is_empty (justification given p.reference) ≡ false))

  evaluate_policy-violation :
      (p : ExpensePolicy) (v : PolicyViolation)
      → evaluate_policy rt js context db p ≡ some v
      → (v.severity ≡ p.severity) × (v.policy_reference ≡ p.reference)
  unfolding evaluate_policy
  evaluate_policy-violation p v h = ground arith

  Excused-Complies :
      (ps : List ExpensePolicy)
      → All (Excused given) (violations_of rt js context db ps)
      → All Complies ps
  unfolding violations_of
  Excused-Complies [] h = tt
  Excused-Complies (p ∷ ps) h = elim (Option-cases (evaluate_policy rt js context db p)) [
    | inl fine ↦ ground (arith, fine, Excused-Complies ps)
    | inr (v, found) ↦
        ground (arith, found, evaluate_policy-violation p v found, Excused-Complies ps)
  ]

  Complies-Excused :
      (ps : List ExpensePolicy)
      → All Complies ps
      → All (Excused given) (violations_of rt js context db ps)
  unfolding violations_of
  Complies-Excused [] h = tt
  Complies-Excused (p ∷ ps) h = elim (Option-cases (evaluate_policy rt js context db p)) [
    | inl fine ↦ ground (arith, fine, Complies-Excused ps)
    | inr (v, found) ↦
        ground (arith, found, evaluate_policy-violation p v found, Complies-Excused ps)
  ]

  -- The policy engine lets a submission pass exactly when each policy that it runs over either
  -- finds no violation, or only warns and has a justification that is not blank.
  pub assert_compliant_iff :
      (ps : List ExpensePolicy)
      → (assert_compliant rt js ps given context db ≡ ok tt) ↔ All Complies ps
  unfolding assert_compliant evaluate partition_violations
  assert_compliant_iff ps = (
    λ h. Excused-Complies ps (checks-Excused given (violations_of rt js context db ps) h),
    λ h. Excused-checks given (violations_of rt js context db ps) (Complies-Excused ps h),
  )
