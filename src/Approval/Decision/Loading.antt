-- ===== src/Approval/Decision/Loading.antt =====
-- What the checks of a decision have established when they let it pass.
use expentra.Prelude.{
  ℕ, String, true, false, some, List, [], ◌∷◌, ◌++◌, ◌≡◌, ◌≢◌, ◌⊎◌, inl, inr, arith, Option-cases,
}
use expentra.Prelude.Result.{ok}
use expentra.Entities.{Expense, LoadedExpense, ApprovalLevel, ExpenseApproval}
use expentra.Store.{Db, find_expense}
use expentra.Store.Keys.{find-append-next}
use expentra.Runtime.{Runtime}
use expentra.Authorization.Types.{AuthUser}
use expentra.Authorization.Access.{can_decide_on_expense, can_act_on_approval_stage}
use expentra.Authorization.Policy.{assert_can_decide_on_expense}
use expentra.Authorization.Policy.Duties.{assert_can_decide_on_expense_iff}
use expentra.Approval.Routing.{get_active_stage}
use expentra.Approval.Delegation.{can_act_as_delegate}
use expentra.Approval.Decision.{
  normalize_expense_id, join_expense, load_expense_for_decision, load_active_levels, approvals_of,
  stage_to_decide, no_active_stage, assert_can_act_on_stage, has_decision,
  persist_approval_decision, load_approval_decision, next_approval_id,
}

-- The row behind a load that passed, and what the load checked.
pub record Loads (db : Db) (id : ℕ) (u : AuthUser) (e : LoadedExpense) : Type 0 where
  pub row : Expense
  pub found : find_expense db id ≡ some row
  pub joined : e ≡ join_expense db row
  pub not_own : row.user_id ≢ u.id
  pub decides : can_decide_on_expense u e ≡ true

pub load_expense_for_decision-Loads :
    (db : Db) (id : ℕ) (u : AuthUser) (e : LoadedExpense)
    → load_expense_for_decision db id u ≡ ok e
    → Loads db id u e
unfolding load_expense_for_decision normalize_expense_id join_expense
load_expense_for_decision-Loads db id u e h = elim (Option-cases (find_expense db id)) [
  | inl missing ↦ absurd (ground arith)
  | inr (row, found) ↦
      let checked : (e ≡ join_expense db row)
          × (assert_can_decide_on_expense u (join_expense db row) ≡ ok tt) =
        (ground arith, ground arith) in
      let duties = (assert_can_decide_on_expense_iff u (join_expense db row)).0 checked.1 in
      record {
        row = row;
        found = found;
        joined = checked.0;
        not_own = duties.0;
        decides = rw checked.0 duties.1;
      }
]

pub no_active_stage-not-ok {ℓ} :
    {A : Type ℓ} (rt : Runtime) (e : LoadedExpense) (levels : List ApprovalLevel) (db : Db) (a : A)
    → no_active_stage rt e levels db ≢ ok a
unfolding no_active_stage
no_active_stage-not-ok rt e levels db a h = ground arith

pub stage_to_decide-active :
    (rt : Runtime) (e : LoadedExpense) (db : Db) (stage : ApprovalLevel)
    → stage_to_decide rt e db ≡ ok stage
    → get_active_stage e (load_active_levels db) (approvals_of e.row.id db) ≡ some stage
unfolding stage_to_decide
stage_to_decide-active rt e db stage h =
    ground (arith, no_active_stage-not-ok rt e (load_active_levels db) db stage)

pub assert_can_act_on_stage-ok :
    (rt : Runtime) (u : AuthUser) (stage : ApprovalLevel) (e : LoadedExpense) (db : Db)
    → assert_can_act_on_stage rt u stage e db ≡ ok tt
    → (can_act_on_approval_stage u e stage ≡ true) ⊎ (can_act_as_delegate rt u e stage db ≡ true)
unfolding assert_can_act_on_stage
assert_can_act_on_stage-ok rt u stage e db h = ground arith

pub persist_approval_decision-ok :
    (a b : ExpenseApproval) (name : String) (db db' : Db)
    → a.id ≡ next_approval_id db
    → persist_approval_decision a name db ≡ ok (b, db')
    → (b ≡ a)
      × (db' ≡ record db { approvals = db.approvals ++ a ∷ [] })
      × (has_decision a.expense_id a.approval_level_id db ≡ false)
unfolding persist_approval_decision load_approval_decision next_approval_id
persist_approval_decision-ok a b name db db' fresh h =
    ground (arith, find-append-next (λ x. x.id) db.approvals a fresh)
