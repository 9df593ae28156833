-- ===== src/Authorization/Access/Deciding.antt =====
-- Who may decide on an expense and act on a stage of its approval (approval-access.policy.ts).
use expentra.Prelude.{
  ℕ, true, Option, none, some, ◌≡◌, ◌↔◌, ◌⊎◌, ◌≢◌, inl, inr, arith, List, [], ◌∷◌, includes, ltb,
  refl, ◌||◌, length, Bool-cases,
}
use expentra.Entities.{LoadedExpense, ApprovalLevel, ApprovalApproverType}
use expentra.Authorization.Types.{AuthUser, is_super_admin_user}
use expentra.Authorization.Grants.Approvers.{Any, IsApproverPermission, global_approver_iff}
use expentra.Authorization.Access.{
  has_global_approval_permission, is_manager_approver, can_decide_on_expense, stage_grants, manages,
  can_act_on_approval_stage, is_department_manager_for_expense, resolve_expense_department_id,
}

-- The caller is a super admin or holds a global permission to approve, to reject or to manage.
abbrev pub IsGlobalApprover : AuthUser → Type 0
IsGlobalApprover u = (is_super_admin_user u ≡ true) ⊎ Any IsApproverPermission u.permissions

-- The caller manages the department of the expense.
abbrev pub Manages : AuthUser → LoadedExpense → Type 0
Manages u e =
    (d : ℕ) × (resolve_expense_department_id e ≡ some d)
    × (d ≢ 0)
    × (includes u.managed_department_ids d ≡ true)

pub has_global_approval_permission_iff :
    (u : AuthUser) → (has_global_approval_permission u ≡ true) ↔ IsGlobalApprover u
unfolding has_global_approval_permission
has_global_approval_permission_iff u = global_approver_iff u

manages_iff :
    (u : AuthUser) (o : Option ℕ)
    → (manages u o ≡ true)
      ↔ ((d : ℕ) × (o ≡ some d) × (d ≢ 0) × (includes u.managed_department_ids d ≡ true))
unfolding manages
manages_iff u none = (λ h. cc, λ (d, r, z, m). cc)
manages_iff u (some d) = (λ h. (d, refl, ground arith, ground arith), λ (d', r, z, m). ground arith)

is_manager_approver_of_includes :
    (u : AuthUser) (d : ℕ)
    → includes u.managed_department_ids d ≡ true
    → is_manager_approver u ≡ true
unfolding is_manager_approver
is_manager_approver_of_includes u d h = go u.managed_department_ids h
  where
    go : (ds : List ℕ) → includes ds d ≡ true → ltb 0 (length ds) ≡ true
    go [] k = cc
    go (x ∷ xs) k = ground arith

pub is_department_manager_for_expense_iff :
    (u : AuthUser) (e : LoadedExpense)
    → (is_department_manager_for_expense u e ≡ true) ↔ Manages u e
unfolding is_department_manager_for_expense
is_department_manager_for_expense_iff u e = manages_iff u (resolve_expense_department_id e)

manages-is_manager_approver :
    (u : AuthUser) (o : Option ℕ) → manages u o ≡ true → is_manager_approver u ≡ true
manages-is_manager_approver u o h =
    let (d, r, z, m) = (manages_iff u o).0 h in is_manager_approver_of_includes u d m

-- The decision as one disjunction: the test on `isManagerApprover` is implied.
can_decide_on_expense_lem :
    (u : AuthUser) (e : LoadedExpense)
    → can_decide_on_expense u e
      ≡ (has_global_approval_permission u || is_department_manager_for_expense u e)
unfolding can_decide_on_expense is_department_manager_for_expense
can_decide_on_expense_lem u e =
    ground (arith, manages-is_manager_approver u (resolve_expense_department_id e))

-- A caller may decide on an expense exactly when they are a global approver or manage its
-- department.
pub can_decide_on_expense_iff :
    (u : AuthUser) (e : LoadedExpense)
    → (can_decide_on_expense u e ≡ true) ↔ (IsGlobalApprover u ⊎ Manages u e)
can_decide_on_expense_iff u e =
    let global = has_global_approval_permission_iff u in
    let manager = is_department_manager_for_expense_iff u e in
    let split = can_decide_on_expense_lem u e in
    (
      λ h. elim (Bool-cases (has_global_approval_permission u)) [
        | inl g ↦ inl (global.0 g)
        | inr g ↦ inr (manager.0 (ground arith))
      ],
      elim [ inl g ↦ rw (split, global.1 g) | inr m ↦ rw (split, manager.1 m) (ground arith) ],
    )

-- Who may act on a stage: the department manager's stage is for the manager of the expense's
-- department alone, and the finance stage for global approvers alone.
abbrev pub MayAct : ApprovalApproverType → AuthUser → LoadedExpense → Type 0
MayAct ApprovalApproverType.department_manager u e = Manages u e
MayAct ApprovalApproverType.finance_manager u e = IsGlobalApprover u

stage_grants_iff :
    (t : ApprovalApproverType) (u : AuthUser) (e : LoadedExpense)
    → (stage_grants t u e ≡ true) ↔ MayAct t u e
unfolding stage_grants
stage_grants_iff ApprovalApproverType.department_manager u e =
    is_department_manager_for_expense_iff u e
stage_grants_iff ApprovalApproverType.finance_manager u e = has_global_approval_permission_iff u

stage_grants_decides :
    (t : ApprovalApproverType) (u : AuthUser) (e : LoadedExpense)
    → stage_grants t u e ≡ true
    → can_decide_on_expense u e ≡ true
unfolding stage_grants
stage_grants_decides ApprovalApproverType.department_manager u e h =
    rw (can_decide_on_expense_lem u e, h) (ground arith)
stage_grants_decides ApprovalApproverType.finance_manager u e h =
    rw (can_decide_on_expense_lem u e, h)

-- A caller may act on a stage of an expense exactly when it is a department manager's stage and
-- they manage the department of the expense, or a finance stage and they are a global approver.
pub can_act_on_approval_stage_iff :
    (u : AuthUser) (e : LoadedExpense) (stage : ApprovalLevel)
    → (can_act_on_approval_stage u e stage ≡ true) ↔ MayAct stage.approver_type u e
unfolding can_act_on_approval_stage
can_act_on_approval_stage_iff u e stage =
    let grants = stage_grants_iff stage.approver_type u e in
    (
      λ h. grants.0 (ground arith),
      λ m. ground (arith, grants.1 m, stage_grants_decides stage.approver_type u e (grants.1 m)),
    )
