-- ===== src/Approval/Delegation.antt =====
-- modules/approval/services/delegation.service.ts
pub mod Lending
pub mod Revoking
use expentra.Prelude.{
  ℕ, Bool, true, false, none, some, List, [], ◌∷◌, ◌++◌, map, ◌&&◌, ◌||◌, not, ◌==◌, ltb, leb,
  if◌then◌else◌, filter, any, eq_option, String,
}
use expentra.Prelude.Int.{ℤ, pos, negsuc}
use expentra.Prelude.Result.{Result, ok, bad_request, forbidden, throw_if, ◌>>=◌, ◌>>◌}
use expentra.Entities.{User, LoadedExpense, ApprovalLevel, ApprovalDelegation}
use expentra.Store.{Db, Event, publish, next_id, find_user}
use expentra.Runtime.{Runtime}
use expentra.Reference.{find_entity_by_reference}
use expentra.Authorization.Types.{AuthUser}
use expentra.Authorization.Mapper.{to_auth_user}
use expentra.Authorization.Access.{can_decide_on_approval, can_act_on_approval_stage}
use expentra.Budget.Period.{resolve_budget_year, compare_calendar_dates}

pub record CreateDelegationInput : Type 0 where
  pub delegate_reference : String
  pub starts_at : ℕ
  pub ends_at : ℕ

-- `findManagedDepartmentIds`
pub find_managed_department_ids : ℕ → Db → List ℕ
find_managed_department_ids user_id db =
    map (λ d. d.id)
      (filter (λ d. eq_option d.manager_id (some user_id) && d.is_active) db.departments)

abbrev is_negative : ℤ → Bool
is_negative (pos n) = false
is_negative (negsuc n) = true

-- `delegationRepository.save` of a row that exists.
unfoldable pub save_delegation :
    ApprovalDelegation → List ApprovalDelegation → List ApprovalDelegation
save_delegation d [] = []
save_delegation d (x ∷ xs) = (if x.id == d.id then d else x) ∷ save_delegation d xs

module _ (rt : Runtime) where
  -- `assertDelegationDates`
  pub assert_delegation_dates : ℕ → ℕ → Result (Unit {0})
  assert_delegation_dates starts_at ends_at = do
    let current_year = resolve_budget_year rt.zone rt.now
    let starts_year = resolve_budget_year rt.zone starts_at
    let ends_year = resolve_budget_year rt.zone ends_at
    throw_if (ltb starts_year current_year || ltb ends_year current_year)
        (bad_request "Delegation dates cannot be before the current year")
    throw_if (is_negative (compare_calendar_dates rt.zone starts_at rt.now))
        (bad_request "Delegation start date cannot be in the past")
    throw_if (is_negative (compare_calendar_dates rt.zone ends_at rt.now))
        (bad_request "Delegation end date cannot be in the past")

  -- The delegate that `create` accepts.
  pub accepted_delegate : AuthUser → CreateDelegationInput → Db → Result User
  accepted_delegate delegator input db = do
    throw_if (not (can_decide_on_approval delegator))
        (forbidden "Only approvers can create approval delegations")
    throw_if (leb input.ends_at input.starts_at) (bad_request "Delegation end must be after start")
    assert_delegation_dates input.starts_at input.ends_at
    delegate ←
        find_entity_by_reference rt.to_upper (λ u. u.reference) db.users input.delegate_reference
          "Delegate user not found"
    throw_if (delegate.id == delegator.id) (bad_request "You cannot delegate approval to yourself")
    throw_if (not delegate.is_active) (bad_request "Delegate user is not active")
    ok delegate

  -- `DelegationService.create`; the last argument but one is the reference that the insertion
  -- generates.
  unfoldable pub create :
      AuthUser → CreateDelegationInput → String → Db → Result (ApprovalDelegation × Db)
  create delegator input reference db = do
    delegate ← accepted_delegate delegator input db
    let delegation : ApprovalDelegation = record {
      id = next_id (map (λ d. d.id) db.delegations);
      reference = reference;
      delegator_id = delegator.id;
      delegate_id = delegate.id;
      starts_at = input.starts_at;
      ends_at = input.ends_at;
      is_active = true;
    }
    let stored = record db { delegations = db.delegations ++ delegation ∷ [] }
    ok (
      delegation,
      publish (Event.delegation_created delegator.id delegation.id delegate.id) stored,
    )

  -- `DelegationService.revoke`
  unfoldable pub revoke : ℕ → String → Db → Result (Unit {0} × Db)
  unfolding save_delegation
  revoke delegator_id reference db = do
    delegation ←
        find_entity_by_reference rt.to_upper (λ d. d.reference) db.delegations reference
          "Delegation not found"
    throw_if (not (delegation.delegator_id == delegator_id))
        (forbidden "You can only revoke your own delegations")
    let stored = record db {
      delegations = save_delegation (record delegation { is_active = false }) db.delegations;
    }
    ok (tt, publish (Event.delegation_revoked delegator_id delegation.id) stored)

  -- The rows of `findActiveDelegationsForDelegate`.
  pub is_active_for : ℕ → ApprovalDelegation → Bool
  is_active_for delegate_id d =
      d.delegate_id == delegate_id && d.is_active && leb d.starts_at rt.now && leb rt.now d.ends_at

  -- `findActiveDelegationsForDelegate`
  pub find_active_delegations_for_delegate : ℕ → Db → List ApprovalDelegation
  find_active_delegations_for_delegate delegate_id db =
      filter (is_active_for delegate_id) db.delegations

  -- `delegatorCanActOnStage`
  pub delegator_can_act_on_stage : User → LoadedExpense → ApprovalLevel → Db → Bool
  delegator_can_act_on_stage delegator e stage db =
      can_act_on_approval_stage
        (to_auth_user delegator (find_managed_department_ids delegator.id db)) e stage

  -- The body of the loop of `canActAsDelegate`.
  pub delegation_grants : LoadedExpense → ApprovalLevel → Db → ApprovalDelegation → Bool
  delegation_grants e stage db d = elim (find_user db d.delegator_id) [
    | none ↦ false
    | some delegator ↦ delegator_can_act_on_stage delegator e stage db
  ]

  -- `canActAsDelegate`
  pub can_act_as_delegate : AuthUser → LoadedExpense → ApprovalLevel → Db → Bool
  can_act_as_delegate u e stage db =
      any (delegation_grants e stage db) (find_active_delegations_for_delegate u.id db)
