-- ===== src/Expense/Comments.antt =====
-- The comments of modules/expense/services/expense-comment.service.ts: adding one, and the list that
-- shows older rejections among them.
use expentra.Prelude.{
  ℕ, ◌-◌, String, Bool, true, none, some, List, [], ◌∷◌, ◌++◌, map, ◌&&◌, ◌||◌, not, ◌==◌, ltb, leb,
  any, filter, is_empty, same_text, trim, if◌then◌else◌,
}
use expentra.Prelude.Result.{Result, ok, bad_request, conflict, throw_if, ◌>>=◌, ◌>>◌}
use expentra.Entities.{
  ExpenseStatus, same_status, ApprovalDecision, same_decision, Expense, LoadedExpense,
  ExpenseApproval, ExpenseComment,
}
use expentra.Store.{Db, Event, publish, next_id, find_user}
use expentra.Runtime.{Runtime}
use expentra.Reference.{find_entity_by_reference}
use expentra.Authorization.Types.{AuthUser}
use expentra.Authorization.Policy.{assert_can_read_expense}

-- `assertCanAddComment`
pub assert_can_add_comment : Expense → Result (Unit {0})
assert_can_add_comment e =
    throw_if
      (same_status e.status ExpenseStatus.approved || same_status e.status ExpenseStatus.reimbursed)
      (conflict "Comments cannot be added after an expense has been approved")

-- `approval.comment?.trim()`
abbrev comment_body : ExpenseApproval → String
comment_body a = elim a.comment [ none ↦ "" | some c ↦ trim c ]

-- The milliseconds between two times.
abbrev apart : ℕ → ℕ → ℕ
apart s t = if leb s t then t - s else s - t

-- `hasMatchingRejectionComment`
pub has_matching_rejection_comment : ExpenseApproval → List ExpenseComment → Bool
has_matching_rejection_comment a comments =
    if is_empty (comment_body a)
    then true
    else any
        (λ c.
          c.user_id == a.approver_id
          && same_text (trim c.body) (comment_body a)
          && ltb (apart c.created_at a.decided_at) 60000)
        comments

-- `toCommentFromRejectionApproval`
abbrev to_comment_from_rejection_approval : ExpenseApproval → ExpenseComment
to_comment_from_rejection_approval a = record {
  id = a.id;
  expense_id = a.expense_id;
  user_id = a.approver_id;
  body = comment_body a;
  created_at = a.decided_at;
}

-- A stable sort by `createdAt`.
insert_comment : ExpenseComment → List ExpenseComment → List ExpenseComment
insert_comment c [] = c ∷ []
insert_comment c (x ∷ xs) =
    let rest = insert_comment c xs in if leb c.created_at x.created_at then c ∷ x ∷ xs else x ∷ rest

pub sort_comments : List ExpenseComment → List ExpenseComment
unfolding insert_comment
sort_comments [] = []
sort_comments (c ∷ cs) = insert_comment c (sort_comments cs)

module _ (rt : Runtime) where
  -- `loadReadableExpense`
  pub load_readable_expense : AuthUser → String → Db → Result LoadedExpense
  load_readable_expense u reference db = do
    e ←
        find_entity_by_reference rt.to_upper (λ x. x.reference) db.expenses reference
          "Expense not found"
    let loaded : LoadedExpense = record {
      row = e;
      user = find_user db e.user_id;
      department = none;
    }
    assert_can_read_expense u loaded
    ok loaded

  -- `addComment`
  pub add_comment : AuthUser → String → String → Db → Result (ExpenseComment × Db)
  add_comment u reference body db = do
    throw_if (is_empty (trim body)) (bad_request "Comment body cannot be empty")
    e ← load_readable_expense u reference db
    assert_can_add_comment e.row
    let comment : ExpenseComment = record {
      id = next_id (map (λ c. c.id) db.comments);
      expense_id = e.row.id;
      user_id = u.id;
      body = trim body;
      created_at = rt.now;
    }
    let stored = record db { comments = db.comments ++ comment ∷ [] }
    ok (comment, publish (Event.expense_comment_added e.row.id u.id comment.id) stored)

  -- `listComments`
  pub list_comments : AuthUser → String → Db → Result (List ExpenseComment)
  list_comments u reference db = do
    e ← load_readable_expense u reference db
    let comments = filter (λ c. c.expense_id == e.row.id) db.comments
    let rejections =
        filter
          (λ a.
            a.expense_id == e.row.id
            && same_decision a.decision ApprovalDecision.rejected
            && not (is_empty (comment_body a))
            && not (has_matching_rejection_comment a comments))
          db.approvals
    ok (sort_comments (comments ++ map to_comment_from_rejection_approval rejections))
