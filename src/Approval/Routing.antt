-- ===== src/Approval/Routing.antt =====
-- modules/approval/services/approval-routing.service.ts
pub mod Order
pub mod Progress
pub mod Decisions
pub mod Liveness
pub mod Stranded
use expentra.Prelude.{
  ℕ, zero, suc, ◌-◌, Bool, true, false, Option, none, some, List, [], ◌∷◌, ◌&&◌, ◌||◌, not, ◌==◌,
  ltb, leb, if◌then◌else◌, filter, find?, any, length, eq_option, ◌<>◌,
}
use expentra.Prelude.Result.{Result, ok, err, conflict, throw_if, ◌>>◌, ◌>>=◌}
use expentra.Entities.{
  ExpenseStatus, same_status, ApprovalDecision, same_decision, ApprovalApproverType, same_approver,
  Department, LoadedExpense, ApprovalLevel, ExpenseApproval,
}

-- `shouldSkipDepartmentManagerStage`
unfoldable pub should_skip_department_manager_stage : LoadedExpense → Bool
should_skip_department_manager_stage e = elim e.department [
  | none ↦ false
  | some d ↦ elim d.manager_id [ none ↦ false | some m ↦ e.row.user_id == m ]
]

-- `levelAppliesToExpense`
unfoldable pub level_applies_to_expense : ApprovalLevel → ℕ → Bool
level_applies_to_expense l amount =
    if ltb amount l.minimum_amount
    then false
    else elim l.maximum_amount [ none ↦ true | some most ↦ not (ltb most amount) ]

-- The three filters of `getRequiredLevels` on one level.
unfoldable pub is_required : LoadedExpense → ApprovalLevel → Bool
is_required e l =
    l.is_active
    && level_applies_to_expense l e.row.amount
    && (not (same_approver l.approver_type ApprovalApproverType.department_manager)
        || not (should_skip_department_manager_stage e))

-- `sort((left, right) => left.level - right.level)`, which is stable.
insert_level : ApprovalLevel → List ApprovalLevel → List ApprovalLevel
insert_level l [] = l ∷ []
insert_level l (x ∷ xs) =
    let rest = insert_level l xs in if leb l.level x.level then l ∷ x ∷ xs else x ∷ rest

pub sort_levels : List ApprovalLevel → List ApprovalLevel
unfolding insert_level
sort_levels [] = []
sort_levels (l ∷ ls) = insert_level l (sort_levels ls)

-- `getRequiredLevels`
unfoldable pub get_required_levels : LoadedExpense → List ApprovalLevel → List ApprovalLevel
unfolding sort_levels
get_required_levels e levels = sort_levels (filter (is_required e) levels)

-- `resolveInitialSubmitStatus`
unfoldable pub resolve_initial_submit_status : LoadedExpense → List ApprovalLevel → ExpenseStatus
resolve_initial_submit_status e levels = elim (get_required_levels e levels) [
  | [] ↦ ExpenseStatus.approved
  | first ∷ rest ↦
      if same_approver first.approver_type ApprovalApproverType.finance_manager
      then ExpenseStatus.under_review
      else ExpenseStatus.submitted
]

-- `requiresApprovalChain`
unfoldable pub requires_approval_chain : LoadedExpense → List ApprovalLevel → Bool
requires_approval_chain e levels = ltb 0 (length (get_required_levels e levels))

-- `approvals.find((approval) => approval.approvalLevelId === level.id)`
abbrev pub decision_at : List ExpenseApproval → ApprovalLevel → Option ExpenseApproval
decision_at approvals l = find? (λ a. a.approval_level_id == l.id) approvals

abbrev pub is_approval : ExpenseApproval → Bool
is_approval a = same_decision a.decision ApprovalDecision.approved

-- The loop of `getActiveStage`.
unfoldable pub active_level : List ApprovalLevel → List ExpenseApproval → Option ApprovalLevel
active_level [] approvals = none
active_level (l ∷ ls) approvals = elim (decision_at approvals l) [
  | none ↦ some l
  | some a ↦ elim (is_approval a) [ true ↦ active_level ls approvals | false ↦ none ]
]

-- An expense that waits for approvals.
abbrev pub is_pending : ExpenseStatus → Bool
is_pending s = same_status s ExpenseStatus.submitted || same_status s ExpenseStatus.under_review

-- `getActiveStage`
unfoldable pub get_active_stage :
    LoadedExpense → List ApprovalLevel → List ExpenseApproval → Option ApprovalLevel
get_active_stage e levels approvals =
    if not (is_pending e.row.status)
    then none
    else active_level (get_required_levels e levels) approvals

-- `required.findIndex((level) => level.id === stage.id)`, `none` for -1
unfoldable pub index_of : ApprovalLevel → List ApprovalLevel → Option ℕ
index_of stage [] = none
index_of stage (l ∷ ls) = elim (l.id == stage.id) [
  | true ↦ some 0
  | false ↦ elim (index_of stage ls) [ none ↦ none | some i ↦ some (suc i) ]
]

-- `resolveStatusAfterLevelApproval`
unfoldable pub resolve_status_after_level_approval :
    ApprovalLevel → LoadedExpense → List ApprovalLevel → ExpenseStatus
resolve_status_after_level_approval stage e levels =
    let required = get_required_levels e levels in
    elim (index_of stage required) [
      | none ↦ ExpenseStatus.approved
      | some i ↦
          if leb (length required - 1) i then ExpenseStatus.approved else ExpenseStatus.under_review
    ]

-- The loop of `assertPriorLevelsComplete`, over the first `n` of the required levels.
unfoldable pub prior_levels_complete :
    ℕ → List ApprovalLevel → List ExpenseApproval → ApprovalLevel → Result (Unit {0})
prior_levels_complete zero ls approvals stage = ok tt
prior_levels_complete (suc n) [] approvals stage = ok tt
prior_levels_complete (suc n) (l ∷ ls) approvals stage =
    let later = prior_levels_complete n ls approvals stage in
    if any (λ a. a.approval_level_id == l.id && is_approval a) approvals
    then later
    else err (conflict ("Approval at level " <> l.name <> " is required before " <> stage.name))

-- `assertPriorLevelsComplete`
unfoldable pub assert_prior_levels_complete :
    ApprovalLevel → List ExpenseApproval → List ApprovalLevel → LoadedExpense → Result (Unit {0})
assert_prior_levels_complete stage approvals levels e =
    let required = get_required_levels e levels in
    elim (index_of stage required) [
      | none ↦ err (conflict "Approval stage is not part of this workflow")
      | some i ↦ prior_levels_complete i required approvals stage
    ]

-- The checks of `assertExpenseStatusForStage` at an index.
unfoldable pub status_fits_index : ℕ → ApprovalLevel → LoadedExpense → Result (Unit {0})
status_fits_index i stage e =
    if ltb 0 i && not (same_status e.row.status ExpenseStatus.under_review)
    then err (conflict "Earlier approval stages must be completed before this stage")
    else if i == 0
        && same_approver stage.approver_type ApprovalApproverType.department_manager
        && not (same_status e.row.status ExpenseStatus.submitted)
    then err (conflict "This expense is not awaiting department manager approval")
    else if i == 0
        && same_approver stage.approver_type ApprovalApproverType.finance_manager
        && not (same_status e.row.status ExpenseStatus.under_review)
    then err (conflict "This expense is not awaiting finance approval")
    else ok tt

-- `assertExpenseStatusForStage`
unfoldable pub assert_expense_status_for_stage :
    ApprovalLevel → LoadedExpense → List ApprovalLevel → Result (Unit {0})
assert_expense_status_for_stage stage e levels =
    elim (index_of stage (get_required_levels e levels)) [
      | none ↦ ok tt
      | some i ↦ status_fits_index i stage e
    ]

-- `!activeStage || activeStage.id !== stage.id`
abbrev pub other_stage : Option ApprovalLevel → ApprovalLevel → Bool
other_stage none stage = true
other_stage (some active) stage = not (active.id == stage.id)

-- `assertReadyForStageApproval`
unfoldable pub assert_ready_for_stage_approval :
    ApprovalLevel → LoadedExpense → List ApprovalLevel → List ExpenseApproval → Result (Unit {0})
assert_ready_for_stage_approval stage e levels approvals = do
  throw_if (other_stage (get_active_stage e levels approvals) stage)
      (conflict "Complete earlier approval stages before acting on this one")
  assert_prior_levels_complete stage approvals levels e
  assert_expense_status_for_stage stage e levels
