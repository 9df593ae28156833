-- ===== src/Expense/Reimbursement.antt =====
-- modules/expense/services/expense-reimbursement.service.ts
pub mod Outcome
use expentra.Prelude.{
  ℕ, Bool, true, false, Option, none, some, List, [], ◌∷◌, ◌&&◌, not, any, if◌then◌else◌, same_text,
  String, ◌<>◌, without_dashes, first_chars, last_chars,
}
use expentra.Prelude.Result.{Exception, Result, ok, err, bad_request, throw_if, ◌>>=◌, ◌>>◌}
use expentra.Entities.{ExpenseStatus, same_status, Expense}
use expentra.Store.{Db, Event, transaction, publish}
use expentra.Runtime.{Runtime}
use expentra.Authorization.Types.{AuthUser}
use expentra.Authorization.Policy.{assert_can_reimburse_expense}
use expentra.Approval.Decision.{save_and_sync}
use expentra.Approval.Rejection.{BulkApprovalResult, bulk_loop}
use expentra.Expense.Support.{load_expense_for_mutation}

-- `[...new Set(references)]`: the first of each text, in order.
pub unique_references : List String → List String → List String
unique_references seen [] = []
unique_references seen (r ∷ rs) =
    let fresh = r ∷ unique_references (r ∷ seen) rs in
    let rest = unique_references seen rs in if any (λ s. same_text s r) seen then rest else fresh

module _ (rt : Runtime) where
  -- `buildReimbursementReference` of expense-detail.util.ts
  unfoldable pub build_reimbursement_reference : String → ℕ → String
  build_reimbursement_reference reference at =
      "PAY-"
      <> without_dashes (first_chars 10 (rt.to_iso_string at))
      <> "-"
      <> rt.to_upper (last_chars 6 (without_dashes reference))

  -- The expense that `reimburse` saves.
  unfoldable pub reimbursed_expense : Expense → Expense
  reimbursed_expense e = record e {
    status = ExpenseStatus.reimbursed;
    reimbursed_at = some rt.now;
    reimbursement_reference = some (build_reimbursement_reference e.reference rt.now);
  }

  -- The body of the transaction of `reimburse`.
  unfoldable pub reimburse_in_transaction : AuthUser → String → Db → Result (Expense × Db)
  reimburse_in_transaction u reference db = do
    e ← load_expense_for_mutation rt reference db
    throw_if (not (same_status e.status ExpenseStatus.approved))
        (bad_request "Only approved expenses can be marked as reimbursed")
    let after = reimbursed_expense e
    ok (
      after,
      publish (Event.expense_reimbursed after.id after.user_id u.id rt.now)
          (save_and_sync rt e after db),
    )

  -- `ExpenseReimbursementService.reimburse`
  unfoldable pub reimburse : AuthUser → String → Db → Result Expense × Db
  reimburse u reference db = elim (assert_can_reimburse_expense u) [
    | err x ↦ (err x, db)
    | ok _ ↦ transaction (reimburse_in_transaction u reference) db
  ]

  -- `bulkReimburse`
  pub bulk_reimburse : AuthUser → List String → Db → Result BulkApprovalResult × Db
  unfolding unique_references
  bulk_reimburse u references db = elim (assert_can_reimburse_expense u) [
    | err x ↦ (err x, db)
    | ok _ ↦
        let outcome = bulk_loop (reimburse u) (unique_references [] references) [] [] db in
        (ok outcome.0, outcome.1)
  ]
