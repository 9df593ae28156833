-- ===== src/Examples.antt =====
-- The theorems at work on the sample organisation.
pub mod Budgets
pub mod Policies
pub mod Queue
pub mod Requests
pub mod Events
pub mod Expenses
pub mod Levels
use expentra.Prelude.{
  ◌+◌, ◌<◌, true, false, String, none, some, List, [], ◌∷◌, ◌++◌, ◌≡◌, ◌≢◌, ◌↔◌, ◌⊎◌, inr, refl,
  length, trim, is_empty, filter, not, ◌==◌,
}
use expentra.Prelude.Result.{ok, forbidden}
use expentra.Entities.{
  ExpenseStatus, ApprovalDecision, ApprovalApproverType, LoadedExpense, ApprovalLevel,
  ExpenseApproval, DepartmentBudget, ApprovalDelegation,
}
use expentra.Reference.{find_entity_by_reference}
use expentra.Store.{save_expense}
use expentra.Authorization.Types.{PermissionAction, PermissionResource, PermissionScope}
use expentra.Authorization.Grants.{permission_grants}
use expentra.Authorization.Grants.Scopes.{permission_grants-unscoped}
use expentra.Authorization.Access.{can_decide_on_expense, can_act_on_approval_stage}
use expentra.Authorization.Access.Deciding.{
  IsGlobalApprover, Manages, MayAct, can_decide_on_expense_iff, can_act_on_approval_stage_iff,
}
use expentra.Authorization.Access.Reading.{can_read_expense-draft}
use expentra.Authorization.Policy.{
  assert_can_decide_on_expense, assert_can_reimburse_expense,
  assert_no_separation_of_duties_conflicts, has_name,
}
use expentra.Authorization.Policy.Duties.{
  assert_can_decide_on_expense_iff, assert_no_separation_of_duties_conflicts_iff,
}
use expentra.Budget.Sync.{to_expense_budget_snapshot, sync_committed_amount_for_expense_transition}
use expentra.Budget.Sync.Frame.{SameButBudgets, sync-SameButBudgets}
use expentra.Budget.Ledger.{LedgerHolds, save-sync-LedgerHolds}
use expentra.Budget.Books.{KeepsBooks}
use expentra.Budget.Usage.{BudgetUsageSummary}
use expentra.Budget.Evaluation.{build_submit_evaluation}
use expentra.Budget.Evaluation.Limits.{build_submit_evaluation-refused_iff}
use expentra.Approval.Routing.{
  get_required_levels, is_required, get_active_stage, assert_ready_for_stage_approval,
  resolve_status_after_level_approval,
}
use expentra.Approval.Routing.Order.{IsOrdered, AppliesTo, get_required_levels-IsOrdered_perm}
use expentra.Approval.Routing.Liveness.{
  with_status, OnTrack-ready, approve_stages, approve_stages-submitted,
}
use expentra.Approval.Routing.Stranded.{approval_strands}
use expentra.Approval.Decision.{approve, load_active_levels, complete_approval}
use expentra.Approval.Decision.Approving.{Decides}
use expentra.Approval.Decision.Outcome.{
  approve-failed, marked_approved, approve-heal_is_lost, approve-needs_own_right,
}
use expentra.Approval.Rejection.{complete_rejection, approve_by_reference, bulk_loop}
use expentra.Approval.Rejection.Stored.{StoresRejection, reject-stored}
use expentra.Approval.Decision.Stored.{StoresApproval, approve-stored}
use expentra.Approval.Delegation.{find_active_delegations_for_delegate, can_act_as_delegate}
use expentra.Approval.Delegation.Lending.{OneLends, can_act_as_delegate_iff}
use expentra.Approval.Delegation.Revoking.{revoke-in_force}
use expentra.Approval.Rejection.Bulk.{bulk_loop-total}
use expentra.Expense.Support.{PolicyEvaluationContext}
use expentra.Expense.Submit.{submission_context}
use expentra.Expense.Submit.Outcome.{Submits, submit-returned}
use expentra.Expense.Reimbursement.Outcome.{Reimburses, reimburse-returned}
use expentra.Samples.{
  zone, runtime, no_policies, owner, manager, finance, taxi_reference, taxi, office, loaded,
  decision, manager_level, finance_level, levels, sales_budget, grant,
}
use expentra.Samples.Calls.{
  plain, taken, submitted_taxi, submitted_office, reviewed_office, approved_office, paid_taxi,
  paid_office, rejected_office, submits, manager_approves, finance_approves, finance_reimburses,
  manager_rejects, owner_is_refused, office-KeepsBooks, chain_keys, chain_order, chain_starts,
  taxi_found, taxi_submits, unlevelled_office, unlevelled_loads, unlevelled_chain, colleague,
  submitted_found, manager_revokes, lent, lending_office, withdrawn_office, colleague_lacks,
  owner_reads, loaded_draft, grants_approval,
}
use mathlib.Core.List.{Perm}
use expentra.Workflow.{Step, Run, Run-KeepsBooks}

abbrev whole_run : Run zone office paid_office
whole_run =
    Run.call runtime office submitted_office paid_office refl
      (Step.submits no_policies owner taxi_reference (ok submitted_taxi) submits)
      (Run.call runtime submitted_office reviewed_office paid_office refl
        (Step.approves manager 7 plain (ok (taken 1 manager_level 2 ApprovalDecision.approved none))
          manager_approves)
        (Run.call runtime reviewed_office approved_office paid_office refl
          (Step.approves finance 7 plain
            (ok (taken 2 finance_level 3 ApprovalDecision.approved none)) finance_approves)
          (Run.call runtime approved_office paid_office paid_office refl
            (Step.reimburses finance taxi_reference (ok paid_taxi) finance_reimburses)
            (Run.stop paid_office))))

Run-KeepsBooks_example : KeepsBooks zone paid_office
Run-KeepsBooks_example = Run-KeepsBooks zone office paid_office whole_run office-KeepsBooks

abbrev first_approval : ExpenseApproval
first_approval = taken 1 manager_level 2 ApprovalDecision.approved none

approve-stored_example :
    (e : LoadedExpense) × (stage : ApprovalLevel) × Decides runtime manager 7 submitted_office
      first_approval e stage
    × (first_approval.decision ≡ ApprovalDecision.approved)
    × StoresApproval runtime e stage submitted_office reviewed_office
    × (reviewed_office
        ≡ complete_approval runtime e stage
            (load_active_levels submitted_office)
            2
            (record submitted_office {
              approvals = submitted_office.approvals ++ first_approval ∷ [];
            }))
approve-stored_example =
    approve-stored runtime manager 7 plain submitted_office reviewed_office first_approval
      manager_approves

abbrev first_rejection : ExpenseApproval
first_rejection = taken 1 manager_level 2 ApprovalDecision.rejected (some "No receipt")

reject-stored_example :
    (is_empty (trim " No receipt ") ≡ false)
    × ((e : LoadedExpense) × (stage : ApprovalLevel) × Decides runtime manager 7 submitted_office
          first_rejection e stage
        × (first_rejection.decision ≡ ApprovalDecision.rejected)
        × StoresRejection runtime e rejected_office
        × (rejected_office
            ≡ complete_rejection runtime e.row 2 (trim " No receipt ") (record submitted_office {
              approvals = submitted_office.approvals ++ first_rejection ∷ [];
            })))
reject-stored_example =
    reject-stored runtime manager 7 " No receipt " submitted_office rejected_office first_rejection
      manager_rejects

approve_stages-submitted_example :
    (approve_stages
      (decision ApprovalDecision.approved)
      levels
      (length (get_required_levels (loaded ExpenseStatus.submitted) levels))
      (loaded ExpenseStatus.submitted)
      []).row.status
    ≡ ExpenseStatus.approved
approve_stages-submitted_example =
    approve_stages-submitted (decision ApprovalDecision.approved) levels (λ l. refl) (λ l. refl)
      (loaded ExpenseStatus.submitted) chain_keys chain_starts

save-sync-LedgerHolds_example : LedgerHolds zone (
    sync_committed_amount_for_expense_transition zone
      (some (to_expense_budget_snapshot taxi))
      (some (to_expense_budget_snapshot submitted_taxi))
      (save_expense submitted_taxi office))
save-sync-LedgerHolds_example =
    save-sync-LedgerHolds zone office taxi submitted_taxi office-KeepsBooks.unique taxi_found
      taxi_submits office-KeepsBooks.ledger

can_act_on_approval_stage_iff_example :
    (can_act_on_approval_stage manager (loaded ExpenseStatus.submitted) manager_level ≡ true)
    ↔ MayAct ApprovalApproverType.department_manager manager (loaded ExpenseStatus.submitted)
can_act_on_approval_stage_iff_example =
    can_act_on_approval_stage_iff manager (loaded ExpenseStatus.submitted) manager_level

abbrev finance_first : List ExpenseApproval
finance_first = decision ApprovalDecision.approved finance_level ∷ []

approval_strands_example :
    (resolve_status_after_level_approval manager_level (loaded ExpenseStatus.submitted) levels
      ≡ ExpenseStatus.under_review)
    × (get_active_stage
          (with_status
            (resolve_status_after_level_approval manager_level
              (loaded ExpenseStatus.submitted)
              levels)
            (loaded ExpenseStatus.submitted))
          levels
          (finance_first ++ decision ApprovalDecision.approved manager_level ∷ [])
        ≡ none)
approval_strands_example =
    approval_strands (loaded ExpenseStatus.submitted) levels finance_first [] manager_level
      finance_level [] (decision ApprovalDecision.approved manager_level) chain_keys chain_order tt
      refl ((decision ApprovalDecision.approved finance_level, refl, refl), tt) refl refl

approve-heal_is_lost_example :
    approve runtime manager 7 plain unlevelled_office ≡ (marked_approved, unlevelled_office)
approve-heal_is_lost_example =
    approve-heal_is_lost runtime manager 7 unlevelled_office (loaded ExpenseStatus.submitted)
      unlevelled_loads refl unlevelled_chain plain refl

approve-needs_own_right_example :
    approve runtime colleague 7 plain submitted_office ≢ (ok first_approval, reviewed_office)
approve-needs_own_right_example =
    approve-needs_own_right runtime colleague 7 plain submitted_office reviewed_office
      submitted_taxi submitted_found colleague_lacks first_approval

abbrev references : List String
references = taxi_reference ∷ "unknown" ∷ []

abbrev sales_summary : BudgetUsageSummary
sales_summary = record {
  year = 2026;
  currency = "NGN";
  amount_limit = 600;
  committed_amount = 500;
  reimbursed_amount = 0;
  remaining = 100;
  utilization = 8333;
  over_budget = false;
  near_limit = true;
  budget = some sales_budget;
}

revoke-in_force_example :
    (d : ApprovalDelegation) × (find_entity_by_reference runtime.to_upper
        (λ x. x.reference)
        (lent ∷ [])
        "DLG1749078456123A7B9C2"
        "Delegation not found"
      ≡ ok d)
    × (d.delegator_id ≡ 2)
    × (find_active_delegations_for_delegate runtime 4 withdrawn_office
        ≡ filter
            (λ x. not (x.id == d.id))
            (find_active_delegations_for_delegate runtime 4 lending_office))
revoke-in_force_example =
    revoke-in_force runtime 2 4 "DLG1749078456123A7B9C2" lending_office withdrawn_office
      manager_revokes

can_act_as_delegate_iff_example :
    can_act_as_delegate runtime colleague
        (loaded ExpenseStatus.submitted)
        manager_level
        lending_office
      ≡ true
    ↔ OneLends runtime colleague
        (loaded ExpenseStatus.submitted)
        manager_level
        lending_office
        (lent ∷ [])
can_act_as_delegate_iff_example =
    can_act_as_delegate_iff runtime colleague (loaded ExpenseStatus.submitted) manager_level
      lending_office
