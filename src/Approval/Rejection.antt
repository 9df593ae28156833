-- ===== src/Approval/Rejection.antt =====
-- modules/approval/services/approval.service.ts: `reject`, and the actions by reference and in bulk.
pub mod Outcome
pub mod Stored
pub mod Bulk
use expentra.Prelude.{
  ℕ, Bool, true, false, Option, none, some, List, [], ◌∷◌, ◌++◌, map, ◌&&◌, not, ◌==◌, ltb, length,
  if◌then◌else◌, is_empty, trim, String,
}
use expentra.Prelude.Result.{
  Exception, Result, ok, err, bad_request, forbidden, not_found, conflict, throw_if, ◌>>=◌, ◌>>◌,
}
use expentra.Entities.{
  ExpenseStatus, ApprovalDecision, Expense, LoadedExpense, ApprovalLevel, ExpenseApproval,
  ExpenseComment,
}
use expentra.Store.{Db, Event, transaction, find_expense, publish, next_id}
use expentra.Runtime.{Runtime}
use expentra.Reference.{find_entity_by_reference}
use expentra.Authorization.Types.{AuthUser}
use expentra.Authorization.Policy.{assert_can_decide_on_expense}
use expentra.Approval.Decision.{
  ApproveExpenseInput, normalize_expense_id, load_active_levels, join_expense, stage_open_to,
  assert_no_decision_at_level, persist_approval_decision, next_approval_id, save_and_sync, approve,
}

-- What the loop of a bulk action collects.
pub record BulkApprovalResult : Type 0 where
  pub succeeded : List String
  pub failed : List (String × String)
  pub partial_success : Bool
  pub all_succeeded : Bool

-- `toBulkActionErrorMessage`
pub to_bulk_action_error_message : Exception → String
to_bulk_action_error_message (bad_request m) = m
to_bulk_action_error_message (forbidden m) = m
to_bulk_action_error_message (not_found m) = m
to_bulk_action_error_message (conflict m) = m

-- `buildBulkApprovalResult`
pub build_bulk_approval_result : List String → List (String × String) → BulkApprovalResult
build_bulk_approval_result succeeded failed = record {
  succeeded = succeeded;
  failed = failed;
  partial_success = ltb 0 (length succeeded) && ltb 0 (length failed);
  all_succeeded = length failed == 0;
}

-- The loop of the bulk actions over an action on one reference, with what was collected.
pub bulk_loop {ℓ} :
    {A : Type ℓ}
    → (String → Db → Result A × Db)
    → List String
    → List String
    → List (String × String)
    → Db
    → BulkApprovalResult × Db
bulk_loop act [] succeeded failed db = (build_bulk_approval_result succeeded failed, db)
bulk_loop act (r ∷ rs) succeeded failed db =
    let outcome = act r db in
    elim outcome.0 [
      | ok _ ↦ bulk_loop act rs (succeeded ++ r ∷ []) failed outcome.1
      | err x ↦
          bulk_loop act rs succeeded (failed ++ (r, to_bulk_action_error_message x) ∷ []) outcome.1
    ]

module _ (rt : Runtime) where
  -- The entity that `reject` saves; the time of approval is set to undefined, and so not written.
  unfoldable pub rejected_expense : Expense → Expense
  rejected_expense e = record e {
    status = ExpenseStatus.rejected;
    rejected_at = some rt.now;
    approved_at = none;
  }

  -- The comment and the two events that `reject` adds.
  unfoldable pub add_rejection_comment : Expense → ℕ → String → Db → Db
  add_rejection_comment e author body db =
      let key = next_id (map (λ c. c.id) db.comments) in
      let comment : ExpenseComment = record {
        id = key;
        expense_id = e.id;
        user_id = author;
        body = body;
        created_at = rt.now;
      } in
      publish (Event.expense_rejected e.id e.user_id author rt.now) (
        publish (Event.expense_comment_added e.id author key)
          (record db { comments = db.comments ++ comment ∷ [] }))

  -- The row that `reject` inserts.
  unfoldable pub rejection_row : AuthUser → String → Expense → ApprovalLevel → Db → ExpenseApproval
  rejection_row u comment e stage db = record {
    id = next_approval_id db;
    expense_id = e.id;
    approval_level_id = stage.id;
    approver_id = u.id;
    decision = ApprovalDecision.rejected;
    comment = some comment;
    decided_at = rt.now;
    metadata = none;
  }

  -- What `reject` writes after the decision.
  unfoldable pub complete_rejection : Expense → ℕ → String → Db → Db
  complete_rejection e approver_id comment db =
      let after = rejected_expense e in
      add_rejection_comment after approver_id comment (save_and_sync rt e after db)

  -- The body of the transaction of `reject`.
  unfoldable pub reject_in_transaction : AuthUser → ℕ → String → Db → Result (ExpenseApproval × Db)
  reject_in_transaction u id comment db = do
    (e, stage) ← stage_open_to rt u id db
    assert_no_decision_at_level e.row.id stage db
    (saved, stored) ←
        persist_approval_decision (rejection_row u comment e.row stage db) stage.name db
    ok (saved, complete_rejection e.row u.id comment stored)

  -- `ApprovalService.reject`
  unfoldable pub reject : AuthUser → ℕ → String → Db → Result ExpenseApproval × Db
  reject u id input_comment db = elim (normalize_expense_id id) [
    | err x ↦ (err x, db)
    | ok normalized ↦
        let comment = trim input_comment in
        if is_empty comment
        then (err (bad_request "Rejection comment is required"), db)
        else transaction (reject_in_transaction u normalized comment) db
  ]

  -- `resolveExpenseIdForDecision`
  pub resolve_expense_id_for_decision : AuthUser → String → Db → Result ℕ
  resolve_expense_id_for_decision u reference db = do
    resolved ←
        find_entity_by_reference rt.to_upper (λ e. e.reference) db.expenses reference
          "Expense not found"
    elim (find_expense db resolved.id) [
      | none ↦ err (not_found "Expense not found")
      | some e ↦ assert_can_decide_on_expense u (join_expense db e) >> ok e.id
    ]

  -- An action on the expense of a reference: `approveByReference`, `rejectByReference`.
  by_reference :
      (ℕ → Db → Result ExpenseApproval × Db) → AuthUser → String → Db → Result ExpenseApproval × Db
  by_reference act u reference db = elim (resolve_expense_id_for_decision u reference db) [
    | err x ↦ (err x, db)
    | ok id ↦ act id db
  ]

  pub approve_by_reference :
      AuthUser → ApproveExpenseInput → String → Db → Result ExpenseApproval × Db
  unfolding by_reference
  approve_by_reference u input reference db =
      by_reference (λ id. approve rt u id input) u reference db

  pub reject_by_reference : AuthUser → String → String → Db → Result ExpenseApproval × Db
  unfolding by_reference
  reject_by_reference u comment reference db =
      by_reference (λ id. reject u id comment) u reference db

  -- `bulkApproveByReference`
  pub bulk_approve_by_reference :
      AuthUser → ApproveExpenseInput → List String → Db → BulkApprovalResult × Db
  bulk_approve_by_reference u input references db =
      bulk_loop (approve_by_reference u input) references [] [] db

  -- `bulkRejectByReference`
  pub bulk_reject_by_reference : AuthUser → String → List String → Db → BulkApprovalResult × Db
  bulk_reject_by_reference u comment references db =
      bulk_loop (reject_by_reference u comment) references [] [] db
