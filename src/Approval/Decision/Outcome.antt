-- ===== src/Approval/Decision/Outcome.antt =====
-- The outcome of `ApprovalService.approve`, on every branch.
use expentra.Prelude.{
  ℕ, true, false, none, some, [], ◌∷◌, ◌++◌, ◌≡◌, ◌≢◌, refl, arith, trimmed, ltb, subst, sym, ap,
}
use expentra.Prelude.Result.{Exception, Result, ok, err, conflict}
use expentra.Entities.{
  ExpenseStatus, ApprovalDecision, Expense, LoadedExpense, ApprovalLevel, ExpenseApproval,
}
use expentra.Store.{saved_row, Db, transaction, find_expense}
use expentra.Runtime.{Runtime}
use expentra.Authorization.Types.{AuthUser}
use expentra.Authorization.Access.{can_decide_on_expense}
use expentra.Budget.Books.{KeepsBooks}
use expentra.Approval.Routing.{is_pending, requires_approval_chain}
use expentra.Approval.Decision.{
  ApproveExpenseInput, load_active_levels, complete_approval, approve_in_transaction, approve,
  join_expense, normalize_expense_id, stage_open_to, stage_to_decide, no_active_stage,
  save_and_sync, heal_expense_with_no_approval_chain, load_expense_for_decision, approvals_of,
}
use expentra.Approval.Routing.Progress.{get_active_stage-no_chain}
use expentra.Approval.Decision.Loading.{load_expense_for_decision-Loads}
use expentra.Approval.Decision.Approving.{Decides, approve_in_transaction-ok}
use expentra.Approval.Decision.Books.{Loads-found, find-save_and_sync, complete_approval-KeepsBooks}

module _ (rt : Runtime) (u : AuthUser) (id : ℕ) (input : ApproveExpenseInput) (db db' : Db) where
  -- An approval that fails, at whichever check, changes no table.
  pub approve-failed : (x : Exception) → approve rt u id input db ≡ (err x, db') → db' ≡ db
  unfolding approve normalize_expense_id transaction
  approve-failed x h = ground arith

  -- An approval that returns was made by a caller who does not own the expense, may decide on it,
  -- and may act on its stage themselves or as a delegate; the stage was the active one, ready and
  -- without a decision. The approvals gain that one row, which names the expense, the stage and the
  -- caller, and what else is written is what `complete_approval` writes.
  pub approve-returned :
      (a : ExpenseApproval)
      → approve rt u id input db ≡ (ok a, db')
      → (e : LoadedExpense) × (stage : ApprovalLevel) × Decides rt u id db a e stage
        × (a.decision ≡ ApprovalDecision.approved)
        × (db'
            ≡ complete_approval rt e stage
                (load_active_levels db)
                u.id
                (record db { approvals = db.approvals ++ a ∷ [] }))
  unfolding approve normalize_expense_id transaction
  approve-returned a h =
      approve_in_transaction-ok rt u id (trimmed input.comment) input.over_budget_acknowledged db
        db' a (ground arith)

-- Whatever an approval does, the budget rows hold the sums over the expenses.
pub approve-KeepsBooks :
    (rt : Runtime) (u : AuthUser) (id : ℕ) (input : ApproveExpenseInput) (db db' : Db)
    (r : Result ExpenseApproval)
    → approve rt u id input db ≡ (r, db')
    → KeepsBooks rt.zone db
    → KeepsBooks rt.zone db'
approve-KeepsBooks rt u id input db db' (err x) h b =
    subst (KeepsBooks rt.zone) (sym (approve-failed rt u id input db db' x h)) b
approve-KeepsBooks rt u id input db db' (ok a) h b =
    let (e, stage, decides, _, written) = approve-returned rt u id input db db' a h in
    subst (KeepsBooks rt.zone) (sym written) (
      complete_approval-KeepsBooks rt u id e stage db decides.opened (load_active_levels db) u.id
        (record db { approvals = db.approvals ++ a ∷ [] }) refl refl b)

abbrev pub marked_approved {ℓ} : {A : Type ℓ} → Result A
marked_approved =
    err (conflict "This expense has no approval stages configured and was marked approved")

module _ (rt : Runtime) (u : AuthUser) (id : ℕ) (db : Db) (e : LoadedExpense)
    (loaded : load_expense_for_decision db id u ≡ ok e) (pending : is_pending e.row.status ≡ true)
    (no_chain : requires_approval_chain e (load_active_levels db) ≡ false) where
  -- The entity that is saved.
  healed_row : Expense
  healed_row = record e.row {
    status = ExpenseStatus.approved;
    approved_at = some rt.now;
    rejected_at = none;
  }

  heal-some :
      heal_expense_with_no_approval_chain rt e (load_active_levels db) db
      ≡ some (saved_row e.row healed_row, save_and_sync rt e.row healed_row db)
  unfolding heal_expense_with_no_approval_chain healed_row
  heal-some =
      let l = load_expense_for_decision-Loads db id u e loaded in
      ground (arith, find-save_and_sync rt e.row healed_row e.row db (Loads-found db id u e l))

  stage_to_decide-healed : stage_to_decide rt e db ≡ marked_approved
  unfolding stage_to_decide no_active_stage
  stage_to_decide-healed = ground (
    arith,
    get_active_stage-no_chain e (load_active_levels db) (approvals_of e.row.id db) no_chain,
    heal-some,
  )

  stage_open_to-healed : stage_open_to rt u id db ≡ marked_approved
  unfolding stage_open_to
  stage_open_to-healed = ground (arith, loaded, stage_to_decide-healed)

  -- An approval of an expense that loads for the caller, waits for approvals and has no required
  -- level fails with the message that the expense was marked approved, and changes no table.
  pub approve-heal_is_lost :
      (input : ApproveExpenseInput)
      → ltb 0 id ≡ true
      → approve rt u id input db ≡ (marked_approved, db)
  unfolding approve normalize_expense_id transaction approve_in_transaction
  approve-heal_is_lost input positive = ground (arith, stage_open_to-healed)

-- A caller who may not decide on an expense by their own rights never approves it, whatever
-- delegations name them.
pub approve-needs_own_right :
    (rt : Runtime) (u : AuthUser) (id : ℕ) (input : ApproveExpenseInput) (db db' : Db)
    (row : Expense)
    → find_expense db id ≡ some row
    → can_decide_on_expense u (join_expense db row) ≡ false
    → (a : ExpenseApproval) → approve rt u id input db ≢ (ok a, db')
approve-needs_own_right rt u id input db db' row found lacks a h =
    let (e, stage, decides, _, written) = approve-returned rt u id input db db' a h in
    let l = decides.opened.loads in
    let same : l.row ≡ row = cc (l.found, found) in
    cc (l.decides, l.joined, ap (join_expense db) same, lacks)
