-- ===== src/Expense/Support.antt =====
-- modules/expense/services/expense-mutation.support.ts, and the read that the other services begin
-- with (`findOne` of expense-query.service.ts).
pub mod Loading
use expentra.Prelude.{
  ℕ, Bool, true, false, Option, none, some, List, [], ◌∷◌, filter, length, ◌==◌, ltb, ◌<>◌, not,
  if◌then◌else◌, is_empty, trim, String,
}
use expentra.Prelude.Result.{
  Exception, Result, ok, err, bad_request, not_found, throw_if, ◌>>=◌, ◌>>◌,
}
use expentra.Entities.{ExpenseStatus, same_status, ExpenseCategory, Expense, LoadedExpense}
use expentra.Store.{Db, find_expense}
use expentra.Runtime.{Runtime}
use expentra.Reference.{find_entity_by_reference}
use expentra.Authorization.Types.{ExpenseDraftMutation, AuthUser}
use expentra.Authorization.Policy.{assert_can_read_expense}
use expentra.Budget.Period.{resolve_budget_year}
use expentra.Approval.Decision.{join_expense}

-- `PolicyEvaluationContext`, less the justifications.
pub record PolicyEvaluationContext : Type 0 where
  pub expense_id : ℕ
  pub user_id : ℕ
  pub amount : ℕ
  pub category : ExpenseCategory
  pub submitted_at : ℕ
  pub attachment_count : ℕ

-- `assertNonEmptyTitle`
unfoldable pub assert_non_empty_title : String → Result (Unit {0})
assert_non_empty_title title =
    throw_if (is_empty (trim title)) (bad_request "Expense title cannot be empty")

-- `assertPositiveAmount`
unfoldable pub assert_positive_amount : ℕ → Result (Unit {0})
assert_positive_amount amount =
    throw_if (not (ltb 0 amount))
      (bad_request "Expense amount must be a positive whole number in minor units")

-- The verb of `assertDraftStatus`.
abbrev verb : ExpenseDraftMutation → String
verb ExpenseDraftMutation.delete = "deleted"
verb ExpenseDraftMutation.submit = "submitted"
verb ExpenseDraftMutation.modify = "modified"

abbrev only_drafts : ExpenseDraftMutation → Exception
only_drafts action = bad_request ("Only draft expenses can be " <> verb action)

abbrev unless_delete : ExpenseDraftMutation → String → Exception
unless_delete ExpenseDraftMutation.delete message = bad_request message
unless_delete action message = only_drafts action

-- The `switch` of `assertDraftStatus`.
pub refuse_status : ExpenseStatus → ExpenseDraftMutation → Exception
refuse_status ExpenseStatus.submitted ExpenseDraftMutation.submit =
    bad_request "Expense has already been submitted"
refuse_status ExpenseStatus.submitted action =
    unless_delete action "Cannot delete an expense that has been submitted for approval"
refuse_status ExpenseStatus.approved action =
    unless_delete action "Cannot delete an approved expense"
refuse_status ExpenseStatus.rejected action =
    unless_delete action "Cannot delete a rejected expense"
refuse_status status action = only_drafts action

-- `assertDraftStatus`
unfoldable pub assert_draft_status : Expense → ExpenseDraftMutation → Result (Unit {0})
assert_draft_status e action =
    if same_status e.status ExpenseStatus.draft then ok tt else err (refuse_status e.status action)

-- `countExpenseAttachments`
pub count_expense_attachments : ℕ → Db → ℕ
count_expense_attachments expense_id db = elim (find_expense db expense_id) [
  | none ↦ 0
  | some _ ↦ length (filter (λ a. a == expense_id) db.attachments)
]

module _ (rt : Runtime) where
  -- `assertIncurredAt`
  unfoldable pub assert_incurred_at : Option ℕ → Result (Unit {0})
  assert_incurred_at none = ok tt
  assert_incurred_at (some t) =
      throw_if (ltb (resolve_budget_year rt.zone t) (resolve_budget_year rt.zone rt.now))
        (bad_request "Incurred date cannot be before the current year")

  -- `loadExpenseForMutation`
  unfoldable pub load_expense_for_mutation : String → Db → Result Expense
  load_expense_for_mutation reference db = do
    resolved ←
        find_entity_by_reference rt.to_upper (λ e. e.reference) db.expenses reference
          "Expense not found"
    elim (find_expense db resolved.id) [
      | none ↦ err (not_found "Expense not found")
      | some e ↦ ok e
    ]

  -- `ExpenseQueryService.findOne`
  unfoldable pub find_one : AuthUser → String → Db → Result LoadedExpense
  find_one u reference db = do
    e ← load_expense_for_mutation reference db
    assert_can_read_expense u (join_expense db e)
    ok (join_expense db e)

  -- `buildSubmitPolicyContext`
  unfoldable pub build_submit_policy_context : AuthUser → Expense → Db → PolicyEvaluationContext
  build_submit_policy_context u draft db = record {
    expense_id = draft.id;
    user_id = u.id;
    amount = draft.amount;
    category = draft.category;
    submitted_at = elim draft.submitted_at [ none ↦ rt.now | some t ↦ t ];
    attachment_count = count_expense_attachments draft.id db;
  }
