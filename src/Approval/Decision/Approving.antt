-- ===== src/Approval/Decision/Approving.antt =====
-- What an approval that returns has checked and written.
use expentra.Prelude.{
  ℕ, Bool, true, false, Option, some, [], ◌∷◌, ◌++◌, ◌≡◌, ◌⊎◌, refl, String, subst, sym, ap,
}
use expentra.Prelude.Result.{ok, >>=-eq-ok-then}
use expentra.Entities.{ApprovalDecision, LoadedExpense, ApprovalLevel, ExpenseApproval}
use expentra.Store.{Db}
use expentra.Runtime.{Runtime}
use expentra.Authorization.Types.{AuthUser}
use expentra.Authorization.Access.{can_act_on_approval_stage}
use expentra.Approval.Routing.{get_active_stage, assert_ready_for_stage_approval}
use expentra.Approval.Delegation.{can_act_as_delegate}
use expentra.Approval.Decision.{
  stage_open_to, load_expense_for_decision, load_active_levels, approvals_of, stage_to_decide,
  assert_can_act_on_stage, assert_no_decision_at_level, assert_over_budget_approval_allowed,
  has_decision, persist_approval_decision, complete_approval, approval_row, approve_in_transaction,
}
use expentra.Approval.Decision.Loading.{
  Loads, load_expense_for_decision-Loads, stage_to_decide-active, assert_can_act_on_stage-ok,
  persist_approval_decision-ok,
}

-- The stage that is open to a caller on the expense of a key.
pub record IsOpenTo (rt : Runtime) (u : AuthUser) (id : ℕ) (db : Db) (e : LoadedExpense)
    (stage : ApprovalLevel) : Type 0 where
  pub loads : Loads db id u e
  pub active : get_active_stage e (load_active_levels db) (approvals_of e.row.id db) ≡ some stage
  pub ready :
      assert_ready_for_stage_approval stage e (load_active_levels db) (approvals_of e.row.id db)
      ≡ ok tt
  pub may_act :
      (can_act_on_approval_stage u e stage ≡ true) ⊎ (can_act_as_delegate rt u e stage db ≡ true)

pub stage_open_to-IsOpenTo :
    (rt : Runtime) (u : AuthUser) (id : ℕ) (db : Db) (e : LoadedExpense) (stage : ApprovalLevel)
    → stage_open_to rt u id db ≡ ok (e, stage)
    → IsOpenTo rt u id db e stage
unfolding stage_open_to
stage_open_to-IsOpenTo rt u id db e stage h =
    >>=-eq-ok-then (load_expense_for_decision db id u) _ h λ e' loaded h1.
      >>=-eq-ok-then (stage_to_decide rt e' db) _ h1 λ stage' active h2.
        >>=-eq-ok-then
          (assert_ready_for_stage_approval stage' e' (load_active_levels db)
            (approvals_of e'.row.id db))
          _ h2
          λ _ ready h3. >>=-eq-ok-then (assert_can_act_on_stage rt u stage' e' db) _ h3 λ _ may h4.
            let same_e : e' ≡ e = cc h4 in
            let same_stage : stage' ≡ stage = cc h4 in
            let opened : IsOpenTo rt u id db e' stage' = record {
              loads = load_expense_for_decision-Loads db id u e' loaded;
              active = stage_to_decide-active rt e' db stage' active;
              ready = ready;
              may_act = assert_can_act_on_stage-ok rt u stage' e' db may;
            } in
            subst (λ s. IsOpenTo rt u id db e s) same_stage
              (subst (λ v. IsOpenTo rt u id db v stage') same_e opened)

-- The decision `a` was taken at a stage that was open to the caller and had none, and is the row
-- that the table of approvals gains.
pub record Decides (rt : Runtime) (u : AuthUser) (id : ℕ) (db : Db) (a : ExpenseApproval)
    (e : LoadedExpense) (stage : ApprovalLevel) : Type 0 where
  pub opened : IsOpenTo rt u id db e stage
  pub undecided : has_decision e.row.id stage.id db ≡ false
  pub of_expense : a.expense_id ≡ e.row.id
  pub at_stage : a.approval_level_id ≡ stage.id
  pub by_caller : a.approver_id ≡ u.id

module _ (rt : Runtime) (u : AuthUser) (id : ℕ) (comment : Option String) (acknowledged : Bool)
    (db db' : Db) (a : ExpenseApproval) where
  pub approve_in_transaction-ok :
      approve_in_transaction rt u id comment acknowledged db ≡ ok (a, db')
      → (e : LoadedExpense) × (stage : ApprovalLevel) × Decides rt u id db a e stage
        × (a.decision ≡ ApprovalDecision.approved)
        × (db'
            ≡ complete_approval rt e stage
                (load_active_levels db)
                u.id
                (record db { approvals = db.approvals ++ a ∷ [] }))
  unfolding approve_in_transaction approval_row
  approve_in_transaction-ok h =
      >>=-eq-ok-then (stage_open_to rt u id db) _ h λ (e, stage) opened h1.
        >>=-eq-ok-then (assert_over_budget_approval_allowed rt e stage comment acknowledged db) _ h1
          λ check budget h2.
            >>=-eq-ok-then (assert_no_decision_at_level e.row.id stage db) _ h2 λ _ free h3.
              >>=-eq-ok-then
                (persist_approval_decision
                  (approval_row rt u comment acknowledged e.row stage check db) stage.name db)
                _ h3
                λ (saved, stored) persisted h4.
                  let row = approval_row rt u comment acknowledged e.row stage check db in
                  let (same, grown, undecided) =
                    persist_approval_decision-ok row saved stage.name db stored refl persisted in
                  let is_row : a ≡ row = cc (h4, same) in
                  let decides : Decides rt u id db row e stage = record {
                    opened = stage_open_to-IsOpenTo rt u id db e stage opened;
                    undecided = undecided;
                    of_expense = refl;
                    at_stage = refl;
                    by_caller = refl;
                  } in
                  (
                    e,
                    stage,
                    subst (λ v. Decides rt u id db v e stage) (sym is_row) decides,
                    ap (λ v. v.decision) is_row,
                    cc (h4, grown),
                  )
