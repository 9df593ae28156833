-- ===== src/Approval/Delegation/Lending.antt =====
-- Who may act as a delegate, by modules/approval/services/delegation.service.ts.
use expentra.Prelude.{
  ◌≡◌, ◌≤◌, ◌↔◌, ◌⊎◌, inl, inr, List, [], ◌∷◌, some, true, any, filter, arith, refl,
}
use expentra.Entities.{User, LoadedExpense, ApprovalLevel, ApprovalDelegation}
use expentra.Store.{Db, find_user}
use expentra.Runtime.{Runtime}
use expentra.Authorization.Types.{AuthUser}
use expentra.Approval.Delegation.{
  is_active_for, find_active_delegations_for_delegate, delegator_can_act_on_stage,
  delegation_grants, can_act_as_delegate,
}

module _ (rt : Runtime) (u : AuthUser) (e : LoadedExpense) (stage : ApprovalLevel) (db : Db) where
  abbrev pub Lends : ApprovalDelegation → Type 0
  Lends d =
      (d.delegate_id ≡ u.id)
      × (d.is_active ≡ true)
      × (d.starts_at ≤ rt.now)
      × (rt.now ≤ d.ends_at)
      × ((delegator : User) × (find_user db d.delegator_id ≡ some delegator)
          × (delegator_can_act_on_stage rt delegator e stage db ≡ true))

  abbrev pub OneLends : List ApprovalDelegation → Type 0
  OneLends [] = ⊥
  OneLends (d ∷ ds) = Lends d ⊎ OneLends ds

  Lends-granted :
      (d : ApprovalDelegation)
      → Lends d
      → (is_active_for rt u.id d ≡ true) × (delegation_grants rt e stage db d ≡ true)
  unfolding is_active_for delegation_grants
  Lends-granted d (mine, active, begun, lasting, (delegator, found, able)) =
      (ground arith, ground arith)

  granted-Lends :
      (d : ApprovalDelegation)
      → is_active_for rt u.id d ≡ true
      → delegation_grants rt e stage db d ≡ true
      → Lends d
  unfolding is_active_for delegation_grants
  granted-Lends d in_force grants = ground arith

  any-OneLends :
      (ds : List ApprovalDelegation)
      → any (delegation_grants rt e stage db) (filter (is_active_for rt u.id) ds) ≡ true
      → OneLends ds
  any-OneLends [] h = cc h
  any-OneLends (d ∷ ds) h = ground (arith, any-OneLends ds, granted-Lends d)

  OneLends-any :
      (ds : List ApprovalDelegation)
      → OneLends ds
      → any (delegation_grants rt e stage db) (filter (is_active_for rt u.id) ds) ≡ true
  OneLends-any [] h = absurd h
  OneLends-any (d ∷ ds) (inl h) =
      let (in_force, grants) = Lends-granted d h in rw (in_force, grants) refl
  OneLends-any (d ∷ ds) (inr h) = let rest = OneLends-any ds h in ground (arith, rest)

  -- A caller may act on a stage of an expense as a delegate exactly when some stored delegation
  -- names them as its delegate, is active, has begun and has not ended, and its delegator is a
  -- stored user who may act on that stage by the rights they have now.
  pub can_act_as_delegate_iff : can_act_as_delegate rt u e stage db ≡ true ↔ OneLends db.delegations
  unfolding can_act_as_delegate find_active_delegations_for_delegate
  can_act_as_delegate_iff = (any-OneLends db.delegations, OneLends-any db.delegations)
