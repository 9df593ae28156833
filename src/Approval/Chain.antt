-- ===== src/Approval/Chain.antt =====
-- The chain that `ApprovalRoutingService.buildApprovalChain` shows for an expense.
use expentra.Prelude.{ℕ, String, Option, none, some, List, map, if◌then◌else◌}
use expentra.Entities.{ApprovalApproverType, LoadedExpense, ApprovalLevel, ExpenseApproval}
use expentra.Approval.Routing.{
  decision_at, is_approval, other_stage, get_active_stage, get_required_levels,
}

pub data ApprovalChainStepStatus : Type 0 where
  waiting pending approved rejected : ApprovalChainStepStatus

pub record ApprovalChainActor : Type 0 where
  pub reference : String
  pub email : String
  pub first_name : Option String
  pub last_name : Option String

pub record ApprovalChainStep : Type 0 where
  pub level : ℕ
  pub name : String
  pub approver_type : ApprovalApproverType
  pub status : ApprovalChainStepStatus
  pub decided_at : Option ℕ
  pub decided_by : Option ApprovalChainActor

-- The function that `buildApprovalChain` maps over the required levels; `actor` gives the joined
-- approver of a decision as `toChainActor` shows it.
chain_step :
    (ExpenseApproval → Option ApprovalChainActor)
    → Option ApprovalLevel
    → List ExpenseApproval
    → ApprovalLevel
    → ApprovalChainStep
chain_step actor active approvals l = elim (decision_at approvals l) [
  | some a ↦ record {
    level = l.level;
    name = l.name;
    approver_type = l.approver_type;
    status = if is_approval a then approved else rejected;
    decided_at = some a.decided_at;
    decided_by = actor a;
  }
  | none ↦ record {
    level = l.level;
    name = l.name;
    approver_type = l.approver_type;
    status = if other_stage active l then waiting else pending;
    decided_at = none;
    decided_by = none;
  }
]

-- `buildApprovalChain`
pub build_approval_chain :
    (ExpenseApproval → Option ApprovalChainActor)
    → LoadedExpense
    → List ApprovalLevel
    → List ExpenseApproval
    → List ApprovalChainStep
build_approval_chain actor e levels approvals =
    let active = get_active_stage e levels approvals in
    map (chain_step actor active approvals) (get_required_levels e levels)
