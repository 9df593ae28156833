-- ===== src/Approval/Levels/Health.antt =====
-- The warnings on the approval workflow and the impact of a level, of
-- modules/approval/services/approval-level.service.ts.
use expentra.Prelude.{
  ℕ, suc, String, Bool, true, Option, none, some, List, [], ◌∷◌, ◌++◌, map, ◌&&◌, not, ◌==◌, ltb,
  leb, any, filter, length, ◌<>◌, if◌then◌else◌,
}
use expentra.Prelude.Result.{Result, ◌>>=◌, ok}
use expentra.Entities.{
  ExpenseStatus, same_status, ApprovalApproverType, same_approver, ApprovalLevel, ExpenseApproval,
}
use expentra.Store.{Db}
use expentra.Runtime.{Runtime}
use expentra.Approval.Decision.{load_active_levels}
use expentra.Approval.Levels.{find_one}

pub record ApprovalLevelHealthWarning : Type 0 where
  pub code : String
  pub title : String
  pub description : String
  pub destructive : Option Bool

pub record ApprovalLevelStatusCounts : Type 0 where
  pub total : ℕ
  pub active : ℕ
  pub inactive : ℕ
  pub department_manager : ℕ
  pub finance_manager : ℕ

pub record ApprovalLevelImpactSummary : Type 0 where
  pub pending_expense_count : ℕ
  pub historical_decision_count : ℕ

abbrev pub is_of : ApprovalApproverType → ApprovalLevel → Bool
is_of t l = same_approver l.approver_type t

-- `getStatusCounts`
pub get_status_counts : Db → ApprovalLevelStatusCounts
get_status_counts db = record {
  total = length db.levels;
  active = length (filter (λ l. l.is_active) db.levels);
  inactive = length (filter (λ l. not l.is_active) db.levels);
  department_manager = length (filter (is_of ApprovalApproverType.department_manager) db.levels);
  finance_manager = length (filter (is_of ApprovalApproverType.finance_manager) db.levels);
}

-- `!level.roleId`
abbrev pub lacks_role : ApprovalLevel → Bool
lacks_role l = elim l.role_id [ none ↦ true | some k ↦ k == 0 ]

abbrev pub finance_without_role : List ApprovalLevel → List ApprovalLevel
finance_without_role = filter (λ l. is_of ApprovalApproverType.finance_manager l && lacks_role l)

-- `.map((level) => level.name).join(', ')`
joined_names : List ApprovalLevel → String
joined_names [] = ""
joined_names (l ∷ []) = l.name
joined_names (l ∷ m ∷ ms) = l.name <> (", " <> joined_names (m ∷ ms))

-- `.sort((a, b) => a - b)`
unfoldable pub insert_number : ℕ → List ℕ → List ℕ
insert_number n [] = n ∷ []
insert_number n (m ∷ ms) = let rest = insert_number n ms in if leb n m then n ∷ m ∷ ms else m ∷ rest

unfoldable pub sort_numbers : List ℕ → List ℕ
unfolding insert_number
sort_numbers [] = []
sort_numbers (n ∷ ns) = insert_number n (sort_numbers ns)

-- The first two neighbours more than one apart.
unfoldable pub first_gap : List ℕ → Option (ℕ × ℕ)
first_gap [] = none
first_gap (a ∷ []) = none
first_gap (a ∷ b ∷ rest) =
    let next = first_gap (b ∷ rest) in if ltb (suc a) b then some (a, b) else next

abbrev pub unless : Bool → ApprovalLevelHealthWarning → List ApprovalLevelHealthWarning
unless c w = if c then [] else w ∷ []

abbrev no_active_levels : ApprovalLevelHealthWarning
no_active_levels = record {
  code = "NO_ACTIVE_LEVELS";
  title = "No active approval levels";
  description = "Expenses will auto-approve until at least one approval level is active.";
  destructive = some true;
}

abbrev pub no_finance_level : ApprovalLevelHealthWarning
no_finance_level = record {
  code = "NO_FINANCE_LEVEL";
  title = "No active finance approval level";
  description = "Add an active finance manager level so expenses can complete finance review.";
  destructive = some true;
}

abbrev pub no_department_manager_level : ApprovalLevelHealthWarning
no_department_manager_level = record {
  code = "NO_DEPARTMENT_MANAGER_LEVEL";
  title = "No department manager level";
  description = "Consider adding a department manager step for first-line review before finance.";
  destructive = none;
}

pub finance_level_missing_role : List ApprovalLevel → ApprovalLevelHealthWarning
unfolding joined_names
finance_level_missing_role levels = record {
  code = "FINANCE_LEVEL_MISSING_ROLE";
  title = "Finance level missing role assignment";
  description = joined_names levels <> " cannot route approvals without a finance role.";
  destructive = some true;
}

abbrev pub finance_warnings : List ApprovalLevel → List ApprovalLevelHealthWarning
finance_warnings levels =
    unless (any (is_of ApprovalApproverType.finance_manager) levels) no_finance_level

abbrev pub manager_warnings : List ApprovalLevel → List ApprovalLevelHealthWarning
manager_warnings levels =
    unless (any (is_of ApprovalApproverType.department_manager) levels) no_department_manager_level

-- The warning on the finance levels without a role.
abbrev pub role_warnings : List ApprovalLevel → List ApprovalLevelHealthWarning
role_warnings [] = []
role_warnings (m ∷ ms) = finance_level_missing_role (m ∷ ms) ∷ []

module _ (number_text : ℕ → String) where
  abbrev pub gap_warnings : Option (ℕ × ℕ) → List ApprovalLevelHealthWarning
  gap_warnings none = []
  gap_warnings (some (previous, current)) =
      record {
        code = "LEVEL_NUMBER_GAP";
        title = "Gap in approval level order";
        description =
            "Active levels jump from "
            <> (number_text previous
                <> (" to "
                    <> (number_text current
                        <> ". Consider using consecutive order numbers for clarity.")));
        destructive = none;
      }
      ∷ []

  -- `buildWorkflowWarnings`
  unfoldable pub build_workflow_warnings : List ApprovalLevel → List ApprovalLevelHealthWarning
  build_workflow_warnings [] = no_active_levels ∷ []
  build_workflow_warnings (l ∷ ls) =
      finance_warnings (l ∷ ls)
      ++ (manager_warnings (l ∷ ls)
          ++ (role_warnings (finance_without_role (l ∷ ls))
              ++ gap_warnings (first_gap (sort_numbers (map (λ x. x.level) (l ∷ ls))))))

  -- `getWorkflowHealth`
  pub get_workflow_health : Db → ApprovalLevelStatusCounts × List ApprovalLevelHealthWarning
  get_workflow_health db = (get_status_counts db, build_workflow_warnings (load_active_levels db))

-- The status of the expenses that wait at a level.
abbrev waiting_status : ApprovalLevel → ExpenseStatus
waiting_status l =
    if is_of ApprovalApproverType.department_manager l
    then ExpenseStatus.submitted
    else ExpenseStatus.under_review

abbrev is_decision_on : ℕ → ℕ → ExpenseApproval → Bool
is_decision_on expense level a = a.expense_id == expense && a.approval_level_id == level

-- `countPendingImpact`
pub count_pending_impact : ApprovalLevel → Db → ℕ
count_pending_impact l db = length (
    filter
      (λ e.
        same_status e.status (waiting_status l)
        && not (any (is_decision_on e.id l.id) db.approvals))
      db.expenses)

-- `getImpactSummary`
pub get_impact_summary : Runtime → String → Db → Result ApprovalLevelImpactSummary
get_impact_summary rt reference db = do
  l ← find_one rt reference db
  ok (record {
    pending_expense_count = count_pending_impact l db;
    historical_decision_count = length (filter (λ a. a.approval_level_id == l.id) db.approvals);
  })
