-- ===== src/Approval/Delegation/Revoking.antt =====
-- What a revocation of modules/approval/services/delegation.service.ts does to the delegations in
-- force.
use expentra.Prelude.{ℕ, String, List, [], ◌∷◌, ◌≡◌, refl, false, not, ◌==◌, filter, arith}
use expentra.Prelude.Result.{Result, ok, forbidden, >>=-eq-ok-then, throw_if}
use expentra.Entities.{ApprovalDelegation}
use expentra.Store.{Db, publish}
use expentra.Runtime.{Runtime}
use expentra.Reference.{find_entity_by_reference}
use expentra.Approval.Delegation.{
  revoke, is_active_for, find_active_delegations_for_delegate, save_delegation,
}

abbrev revoked : ApprovalDelegation → ApprovalDelegation
revoked d = record d { is_active = false }

revoked-not-is_active_for :
    (rt : Runtime) (user_id : ℕ) (d : ApprovalDelegation)
    → is_active_for rt user_id (revoked d) ≡ false
unfolding is_active_for
revoked-not-is_active_for rt user_id d = ground arith

save_delegation-revoked :
    (rt : Runtime) (user_id : ℕ) (d : ApprovalDelegation) (ds : List ApprovalDelegation)
    → filter (is_active_for rt user_id) (save_delegation (revoked d) ds)
      ≡ filter (λ x. not (x.id == d.id)) (filter (is_active_for rt user_id) ds)
unfolding save_delegation
save_delegation-revoked rt user_id d [] = refl
save_delegation-revoked rt user_id d (x ∷ xs) =
    let rest = save_delegation-revoked rt user_id d xs in
    let off = revoked-not-is_active_for rt user_id d in ground (arith, rest, off)

abbrev returned : Db → Result (Unit {0} × Db)
returned db = ok (tt, db)

stored_delegations : (a b : Db) → returned a ≡ returned b → b.delegations ≡ a.delegations
stored_delegations a b h = cc h

-- A revocation that returns found the delegation under its reference, which is the caller's own,
-- and the delegations in force for any delegate are then those in force before, without it.
pub revoke-in_force :
    (rt : Runtime) (user_id delegate_id : ℕ) (reference : String) (db db' : Db)
    → revoke rt user_id reference db ≡ ok (tt, db')
    → (d : ApprovalDelegation) × (find_entity_by_reference rt.to_upper
          (λ x. x.reference)
          db.delegations
          reference
          "Delegation not found"
        ≡ ok d)
      × (d.delegator_id ≡ user_id)
      × (find_active_delegations_for_delegate rt delegate_id db'
          ≡ filter
              (λ x. not (x.id == d.id))
              (find_active_delegations_for_delegate rt delegate_id db))
unfolding revoke find_active_delegations_for_delegate publish
revoke-in_force rt user_id delegate_id reference db db' h =
    >>=-eq-ok-then
      (find_entity_by_reference rt.to_upper (λ d. d.reference) db.delegations reference
        "Delegation not found")
      _ h
      λ d found rest.
        >>=-eq-ok-then
          (throw_if (not (d.delegator_id == user_id))
            (forbidden "You can only revoke your own delegations"))
          _ rest
          λ t own done.
            let force = save_delegation-revoked rt delegate_id d db.delegations in
            (d, found, ground (arith, own), rw (stored_delegations _ db' done) force)
