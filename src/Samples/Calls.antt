-- ===== src/Samples/Calls.antt =====
-- Calls on the sample organisation, each computed from the definitions.
use expentra.Prelude.{
  ℕ, true, false, String, Option, none, some, [], ◌∷◌, ◌++◌, ◌≡◌, inl, inr, refl, arith, trim,
}
use expentra.Prelude.Result.{ok, err, forbidden}
use expentra.Entities.{
  ExpenseStatus, ApprovalDecision, Expense, LoadedExpense, ApprovalDelegation, ApprovalLevel,
  ExpenseApproval,
}
use expentra.Store.{Db, Event}
use expentra.Authorization.Types.{PermissionAction, PermissionResource, PermissionScope, AuthUser}
use expentra.Budget.Books.{KeepsBooks}
use expentra.Approval.Decision.{ApproveExpenseInput}
use expentra.Samples.{
  zone, runtime, no_policies, owner, manager, finance, taxi_reference, taxi, office, loaded,
  manager_level, finance_level, levels, sales_budget, grant, caller,
}
use expentra.Approval.Routing.Progress.{HasUniqueKeys}
use expentra.Budget.Sync.Transition.{IsTransition}
use expentra.Authorization.Types.{same_action, same_resource, same_scope, is_super_admin_user}
use expentra.Authorization.Grants.{
  action_and_resource_match, permission_scope_allows, permission_grants, has_permission,
}
use expentra.Authorization.Access.{
  has_global_approval_permission, is_manager_approver, resolve_expense_department_id, manages,
  is_department_manager_for_expense, can_decide_on_expense, stage_grants, can_act_on_approval_stage,
  can_read_expense, can_mutate_expense_draft,
}
use expentra.Authorization.Policy.{
  assert_can_mutate_expense_draft, assert_can_reimburse_expense, assert_can_read_expense,
  assert_can_decide_on_expense,
}
use expentra.Budget.Period.{resolve_budget_year}
use expentra.Budget.Sync.{
  to_expense_budget_snapshot, is_reimbursement_transition, attribution_changed,
  expense_budget_attribution_changed, apply_committed_amount_delta, apply_reimbursed_amount_delta,
  resolve_department_for_submit, add_delta, apply_deltas, sync_reimbursed_amount_for_expense,
  accumulate, sync_committed_amount_for_expense_transition,
}
use expentra.Budget.Sync.Transition.{in_ledger, share}
use expentra.Budget.Ledger.{total}
use expentra.Budget.Usage.{
  summary_of_row, fetch_department_budget_summary, assert_valid_year, get_department_summary,
}
use expentra.Budget.Evaluation.{
  with_projected_metrics, build_submit_evaluation, evaluate_expense_submit, approve_evaluation,
  evaluate_expense_approve,
}
use expentra.Approval.Routing.{
  should_skip_department_manager_stage, level_applies_to_expense, is_required, get_required_levels,
  resolve_initial_submit_status, requires_approval_chain, active_level, get_active_stage, index_of,
  resolve_status_after_level_approval, prior_levels_complete, assert_prior_levels_complete,
  status_fits_index, assert_expense_status_for_stage, assert_ready_for_stage_approval,
}
use expentra.Approval.Decision.{
  normalize_expense_id, load_active_levels, join_expense, load_expense_for_decision, approvals_of,
  assert_no_decision_at_level, persist_approval_decision, next_approval_id, assert_can_act_on_stage,
  assert_over_budget_approval_allowed, save_and_sync, stage_to_decide, stage_open_to,
  approved_expense, publish_approval, approval_row, complete_approval, approve_in_transaction,
  approve,
}
use expentra.Approval.Rejection.{
  rejected_expense, add_rejection_comment, rejection_row, complete_rejection, reject_in_transaction,
  reject,
}
use expentra.Expense.Support.{
  assert_non_empty_title, assert_positive_amount, assert_draft_status, assert_incurred_at,
  load_expense_for_mutation, find_one, build_submit_policy_context,
}
use expentra.Expense.Submit.{
  assign_department, with_active_department, manager_is_missing, assert_submittable,
  submitted_expense, complete_submission, submit_in_transaction, submission_context, submit,
}
use expentra.Expense.Reimbursement.{
  build_reimbursement_reference, reimbursed_expense, reimburse_in_transaction, reimburse,
}
use expentra.Reference.{normalize_entity_reference, is_entity_reference, find_entity_by_reference}
use expentra.Approval.Delegation.{revoke, save_delegation}
use expentra.Store.{
  transaction, find_expense, find_user, find_department, replace_expense, saved_row, save_expense,
  publish, next_id,
}
use expentra.Prelude.{trim, without_dashes, first_chars, last_chars}

abbrev pub plain : ApproveExpenseInput
plain = record { comment = none; over_budget_acknowledged = false }

abbrev pub submitted_taxi : Expense
submitted_taxi = record taxi { status = ExpenseStatus.submitted; submitted_at = some 1000 }

abbrev pub submitted_office : Db
submitted_office = record office {
  expenses = submitted_taxi ∷ [];
  budgets = record sales_budget { committed_amount = 500 } ∷ [];
  events = Event.expense_submitted 7 1 1 1000 ∷ Event.expense_budget_committed 7 1 10 1000 ∷ [];
}

abbrev pub taken : ℕ → ApprovalLevel → ℕ → ApprovalDecision → Option String → ExpenseApproval
taken id l by d comment = record {
  id = id;
  expense_id = 7;
  approval_level_id = l.id;
  approver_id = by;
  decision = d;
  comment = comment;
  decided_at = 1000;
  metadata = none;
}

abbrev pub reviewed_office : Db
reviewed_office = record submitted_office {
  expenses = record submitted_taxi { status = ExpenseStatus.under_review } ∷ [];
  approvals = taken 1 manager_level 2 ApprovalDecision.approved none ∷ [];
  events = submitted_office.events ++ Event.expense_pending_finance 7 1 2 1000 ∷ [];
}

abbrev pub approved_taxi : Expense
approved_taxi = record submitted_taxi { status = ExpenseStatus.approved; approved_at = some 1000 }

abbrev pub approved_office : Db
approved_office = record reviewed_office {
  expenses = approved_taxi ∷ [];
  approvals =
      reviewed_office.approvals ++ taken 2 finance_level 3 ApprovalDecision.approved none ∷ [];
  events = reviewed_office.events ++ Event.expense_approved 7 1 3 1000 ∷ [];
}

abbrev pub paid_taxi : Expense
paid_taxi = record approved_taxi {
  status = ExpenseStatus.reimbursed;
  reimbursed_at = some 1000;
  reimbursement_reference = some "PAY-20260101-A7B9C2";
}

abbrev pub paid_office : Db
paid_office = record approved_office {
  expenses = paid_taxi ∷ [];
  budgets = record sales_budget { committed_amount = 500; reimbursed_amount = 500 } ∷ [];
  events = approved_office.events ++ Event.expense_reimbursed 7 1 3 1000 ∷ [];
}

abbrev pub rejected_office : Db
rejected_office = record submitted_office {
  expenses =
      record submitted_taxi { status = ExpenseStatus.rejected; rejected_at = some 1000 } ∷ [];
  budgets = sales_budget ∷ [];
  approvals = taken 1 manager_level 2 ApprovalDecision.rejected (some "No receipt") ∷ [];
  comments =
      record { id = 1; expense_id = 7; user_id = 2; body = "No receipt"; created_at = 1000 } ∷ [];
  events =
      submitted_office.events
      ++ Event.expense_comment_added 7 2 1 ∷ Event.expense_rejected 7 1 2 1000 ∷ [];
}

abbrev pub loaded_draft : LoadedExpense
loaded_draft = loaded ExpenseStatus.draft

pub submits :
    submit runtime no_policies owner taxi_reference office ≡ (ok submitted_taxi, submitted_office)
unfolding same_action same_resource same_scope is_super_admin_user action_and_resource_match
    permission_scope_allows permission_grants has_permission can_read_expense
    can_mutate_expense_draft assert_can_mutate_expense_draft assert_can_read_expense
    resolve_budget_year to_expense_budget_snapshot is_reimbursement_transition attribution_changed
    expense_budget_attribution_changed apply_committed_amount_delta resolve_department_for_submit
    add_delta apply_deltas accumulate sync_committed_amount_for_expense_transition in_ledger
    summary_of_row fetch_department_budget_summary assert_valid_year get_department_summary
    with_projected_metrics build_submit_evaluation evaluate_expense_submit
    should_skip_department_manager_stage level_applies_to_expense is_required get_required_levels
    resolve_initial_submit_status requires_approval_chain load_active_levels join_expense
    save_and_sync assert_non_empty_title assert_positive_amount assert_draft_status
    assert_incurred_at load_expense_for_mutation find_one build_submit_policy_context
    assign_department with_active_department manager_is_missing assert_submittable submitted_expense
    complete_submission submit_in_transaction submission_context submit normalize_entity_reference
    is_entity_reference find_entity_by_reference transaction find_expense find_department
    replace_expense saved_row save_expense publish trim
submits = refl

pub manager_approves :
    approve runtime manager 7 plain submitted_office
    ≡ (ok (taken 1 manager_level 2 ApprovalDecision.approved none), reviewed_office)
unfolding is_super_admin_user has_permission has_global_approval_permission is_manager_approver
    resolve_expense_department_id manages is_department_manager_for_expense can_decide_on_expense
    stage_grants can_act_on_approval_stage assert_can_decide_on_expense resolve_budget_year
    to_expense_budget_snapshot is_reimbursement_transition attribution_changed
    expense_budget_attribution_changed sync_committed_amount_for_expense_transition in_ledger
    summary_of_row fetch_department_budget_summary assert_valid_year get_department_summary
    approve_evaluation evaluate_expense_approve should_skip_department_manager_stage
    level_applies_to_expense is_required get_required_levels active_level get_active_stage index_of
    resolve_status_after_level_approval prior_levels_complete assert_prior_levels_complete
    status_fits_index assert_expense_status_for_stage assert_ready_for_stage_approval
    normalize_expense_id load_active_levels join_expense load_expense_for_decision approvals_of
    assert_no_decision_at_level persist_approval_decision next_approval_id assert_can_act_on_stage
    assert_over_budget_approval_allowed save_and_sync stage_to_decide stage_open_to approved_expense
    publish_approval approval_row complete_approval approve_in_transaction approve transaction
    find_expense find_department replace_expense saved_row save_expense publish next_id
manager_approves = refl

pub finance_approves :
    approve runtime finance 7 plain reviewed_office
    ≡ (ok (taken 2 finance_level 3 ApprovalDecision.approved none), approved_office)
unfolding same_action same_resource same_scope is_super_admin_user action_and_resource_match
    permission_scope_allows permission_grants has_permission has_global_approval_permission
    can_decide_on_expense stage_grants can_act_on_approval_stage assert_can_decide_on_expense
    resolve_budget_year to_expense_budget_snapshot is_reimbursement_transition attribution_changed
    expense_budget_attribution_changed sync_committed_amount_for_expense_transition in_ledger
    summary_of_row fetch_department_budget_summary assert_valid_year get_department_summary
    approve_evaluation evaluate_expense_approve should_skip_department_manager_stage
    level_applies_to_expense is_required get_required_levels active_level get_active_stage index_of
    resolve_status_after_level_approval prior_levels_complete assert_prior_levels_complete
    status_fits_index assert_expense_status_for_stage assert_ready_for_stage_approval
    normalize_expense_id load_active_levels join_expense load_expense_for_decision approvals_of
    assert_no_decision_at_level persist_approval_decision next_approval_id assert_can_act_on_stage
    assert_over_budget_approval_allowed save_and_sync stage_to_decide stage_open_to approved_expense
    publish_approval approval_row complete_approval approve_in_transaction approve transaction
    find_expense find_department replace_expense saved_row save_expense publish next_id
finance_approves = refl

pub finance_reimburses :
    reimburse runtime finance taxi_reference approved_office ≡ (ok paid_taxi, paid_office)
unfolding same_action same_resource same_scope is_super_admin_user action_and_resource_match
    permission_scope_allows permission_grants has_permission assert_can_reimburse_expense
    resolve_budget_year to_expense_budget_snapshot is_reimbursement_transition
    apply_reimbursed_amount_delta resolve_department_for_submit sync_reimbursed_amount_for_expense
    sync_committed_amount_for_expense_transition save_and_sync load_expense_for_mutation
    build_reimbursement_reference reimbursed_expense reimburse_in_transaction reimburse
    normalize_entity_reference is_entity_reference find_entity_by_reference transaction find_expense
    replace_expense saved_row save_expense publish trim without_dashes first_chars last_chars
finance_reimburses = refl

pub manager_rejects :
    reject runtime manager 7 " No receipt " submitted_office
    ≡ (ok (taken 1 manager_level 2 ApprovalDecision.rejected (some "No receipt")), rejected_office)
unfolding is_super_admin_user has_permission has_global_approval_permission is_manager_approver
    resolve_expense_department_id manages is_department_manager_for_expense can_decide_on_expense
    stage_grants can_act_on_approval_stage assert_can_decide_on_expense resolve_budget_year
    to_expense_budget_snapshot is_reimbursement_transition attribution_changed
    expense_budget_attribution_changed apply_committed_amount_delta resolve_department_for_submit
    add_delta apply_deltas accumulate sync_committed_amount_for_expense_transition in_ledger
    should_skip_department_manager_stage level_applies_to_expense is_required get_required_levels
    active_level get_active_stage index_of prior_levels_complete assert_prior_levels_complete
    status_fits_index assert_expense_status_for_stage assert_ready_for_stage_approval
    normalize_expense_id load_active_levels join_expense load_expense_for_decision approvals_of
    assert_no_decision_at_level persist_approval_decision next_approval_id assert_can_act_on_stage
    save_and_sync stage_to_decide stage_open_to rejected_expense add_rejection_comment rejection_row
    complete_rejection reject_in_transaction reject transaction find_expense find_department
    replace_expense saved_row save_expense publish next_id trim
manager_rejects = refl

pub owner_is_refused :
    approve runtime owner 7 plain submitted_office
    ≡ (err (forbidden "You cannot approve or reject your own expense"), submitted_office)
unfolding assert_can_decide_on_expense normalize_expense_id join_expense load_expense_for_decision
    stage_open_to approve_in_transaction approve transaction find_expense
owner_is_refused = refl

pub office-KeepsBooks : KeepsBooks zone office
unfolding to_expense_budget_snapshot in_ledger share total
office-KeepsBooks = record {
  unique = (tt, tt);
  attributed = (inl refl, tt);
  ledger = (λ _ _. (refl, refl), tt);
}

pub chain_keys : HasUniqueKeys (get_required_levels (loaded ExpenseStatus.submitted) levels)
unfolding should_skip_department_manager_stage level_applies_to_expense is_required
    get_required_levels
chain_keys = ((ground arith, tt), (tt, tt))

pub chain_order :
    get_required_levels (loaded ExpenseStatus.submitted) levels ≡ manager_level ∷ finance_level ∷ []
unfolding should_skip_department_manager_stage level_applies_to_expense is_required
    get_required_levels
chain_order = refl

pub chain_starts :
    ExpenseStatus.submitted ≡ resolve_initial_submit_status (loaded ExpenseStatus.submitted) levels
unfolding should_skip_department_manager_stage level_applies_to_expense is_required
    get_required_levels resolve_initial_submit_status
chain_starts = refl

pub taxi_found : find_expense office 7 ≡ some taxi
unfolding find_expense
taxi_found = refl

pub taxi_submits :
    IsTransition (to_expense_budget_snapshot taxi) (to_expense_budget_snapshot submitted_taxi)
unfolding to_expense_budget_snapshot in_ledger
taxi_submits = record {
  attributed_before = inl refl;
  attributed_after = inr (10, 1000, refl, ground arith, refl);
  not_reimbursed = ground arith;
  from_approved = λ h. absurd (ground arith);
  same_department = λ h. absurd (ground arith);
  same_time = λ h. absurd (ground arith);
  same_amount = λ h. absurd (ground arith);
}

-- The submitted expense after every level was removed.
abbrev pub unlevelled_office : Db
unlevelled_office = record submitted_office { levels = [] }

pub unlevelled_loads :
    load_expense_for_decision unlevelled_office 7 manager ≡ ok (loaded ExpenseStatus.submitted)
unfolding is_super_admin_user has_permission has_global_approval_permission is_manager_approver
    resolve_expense_department_id manages can_decide_on_expense assert_can_decide_on_expense
    normalize_expense_id join_expense load_expense_for_decision find_expense find_user
    find_department
unlevelled_loads = refl

pub unlevelled_chain :
    requires_approval_chain (loaded ExpenseStatus.submitted) (load_active_levels unlevelled_office)
    ≡ false
unfolding get_required_levels requires_approval_chain load_active_levels
unlevelled_chain = refl

abbrev pub colleague : AuthUser
colleague = caller 4 [] []

pub submitted_found : find_expense submitted_office 7 ≡ some submitted_taxi
unfolding find_expense
submitted_found = refl

pub colleague_lacks :
    can_decide_on_expense colleague (join_expense submitted_office submitted_taxi) ≡ false
unfolding is_super_admin_user has_permission has_global_approval_permission is_manager_approver
    can_decide_on_expense
colleague_lacks = refl

pub owner_reads : can_read_expense owner (loaded_draft) ≡ true
unfolding same_action same_resource same_scope is_super_admin_user action_and_resource_match
    permission_scope_allows permission_grants has_permission can_read_expense
owner_reads = refl

pub grants_approval :
    permission_grants
      (grant PermissionAction.approve PermissionResource.approval PermissionScope.global)
      PermissionAction.approve
      PermissionResource.approval
      (some PermissionScope.global)
    ≡ true
unfolding same_action same_resource same_scope action_and_resource_match permission_scope_allows
    permission_grants
grants_approval = refl

-- A delegation of the manager's to a colleague, before and after its revocation.
abbrev pub lent : ApprovalDelegation
lent = record {
  id = 51;
  reference = "DLG1749078456123A7B9C2";
  delegator_id = 2;
  delegate_id = 4;
  starts_at = 900;
  ends_at = 2000;
  is_active = true;
}

abbrev pub lending_office : Db
lending_office = record office { delegations = lent ∷ [] }

abbrev pub withdrawn_office : Db
withdrawn_office = record office {
  delegations = record lent { is_active = false } ∷ [];
  events = Event.delegation_revoked 2 51 ∷ [];
}

pub manager_revokes :
    revoke runtime 2 "DLG1749078456123A7B9C2" lending_office ≡ ok (tt, withdrawn_office)
unfolding trim save_delegation revoke publish normalize_entity_reference is_entity_reference
    find_entity_by_reference
manager_revokes = refl
