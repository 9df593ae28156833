-- ===== src/Budget/Evaluation/Limits.antt =====
-- When a submission is let through, and that its evaluation foresees the one of its approval.
use expentra.Prelude.{ℕ, ◌+◌, ◌<◌, true, false, some, ◌≡◌, ◌↔◌, inl, inr, arith, Option-cases}
use expentra.Entities.{DepartmentBudget}
use expentra.Runtime.{Runtime}
use expentra.Budget.Usage.{BudgetUsageSummary}
use expentra.Budget.Evaluation.{build_submit_evaluation, approve_evaluation}

-- A submission against the summary of a department is refused exactly when overspending is blocked,
-- the department has a budget row, and the committed amount with the new one goes beyond the limit.
pub build_submit_evaluation-refused_iff :
    (rt : Runtime) (s : BudgetUsageSummary) (amount : ℕ)
    → ((build_submit_evaluation rt s amount).allowed ≡ false) ↔ (
        (rt.block_submit_on_overspend ≡ true)
        × ((b : DepartmentBudget) × (s.budget ≡ some b))
        × (s.amount_limit < s.committed_amount + amount))
unfolding build_submit_evaluation
build_submit_evaluation-refused_iff rt s amount = elim (Option-cases s.budget) [
  | inl no_row ↦ (λ h. absurd (ground arith), λ h. absurd (ground arith))
  | inr (b, row) ↦ (λ h. (ground arith, (b, row), ground arith), λ h. ground arith)
]

-- What a submission projects is what its approval is held against: once the row of the budget holds
-- the projected amount, the two evaluations agree on whether the limit is exceeded.
pub submit-approve-agree :
    (rt : Runtime) (s after : BudgetUsageSummary) (b b' : DepartmentBudget) (amount : ℕ)
    → s.budget ≡ some b
    → after.budget ≡ some b'
    → after.amount_limit ≡ s.amount_limit
    → after.committed_amount ≡ (build_submit_evaluation rt s amount).projected_committed_amount
    → (approve_evaluation rt after).would_exceed
      ≡ (build_submit_evaluation rt s amount).would_exceed
unfolding build_submit_evaluation approve_evaluation
submit-approve-agree rt s after b b' amount row row' limit committed = ground arith
