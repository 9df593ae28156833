-- ===== src/Entities/Enums.antt =====
-- database/entities/expense.enums.ts and approval-approver-type.enum.ts, with `===` on each.
use expentra.Prelude.{ℕ, Bool, ◌≡◌, ◌↔◌, true, arith, ◌==◌}

pub data ExpenseStatus : Type 0 where
  draft submitted under_review approved rejected reimbursed : ExpenseStatus

pub data ExpenseCategory : Type 0 where
  travel meals supplies others : ExpenseCategory

pub data ApprovalDecision : Type 0 where
  approved rejected : ApprovalDecision

pub data ApprovalApproverType : Type 0 where
  department_manager finance_manager : ApprovalApproverType

abbrev pub status_code : ExpenseStatus → ℕ
status_code ExpenseStatus.draft = 0
status_code ExpenseStatus.submitted = 1
status_code ExpenseStatus.under_review = 2
status_code ExpenseStatus.approved = 3
status_code ExpenseStatus.rejected = 4
status_code ExpenseStatus.reimbursed = 5

abbrev pub same_status : ExpenseStatus → ExpenseStatus → Bool
same_status a b = status_code a == status_code b

pub same_status_iff : (a b : ExpenseStatus) → (same_status a b ≡ true) ↔ (a ≡ b)
same_status_iff a b = ground arith

abbrev pub category_code : ExpenseCategory → ℕ
category_code travel = 0
category_code meals = 1
category_code supplies = 2
category_code others = 3

abbrev pub same_category : ExpenseCategory → ExpenseCategory → Bool
same_category a b = category_code a == category_code b

abbrev pub decision_code : ApprovalDecision → ℕ
decision_code ApprovalDecision.approved = 0
decision_code ApprovalDecision.rejected = 1

abbrev pub same_decision : ApprovalDecision → ApprovalDecision → Bool
same_decision a b = decision_code a == decision_code b

abbrev pub approver_code : ApprovalApproverType → ℕ
approver_code department_manager = 0
approver_code finance_manager = 1

abbrev pub same_approver : ApprovalApproverType → ApprovalApproverType → Bool
same_approver a b = approver_code a == approver_code b
