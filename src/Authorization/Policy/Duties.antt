-- ===== src/Authorization/Policy/Duties.antt =====
-- Separation of duties: on an expense, and within a role.
use expentra.Prelude.{true, false, List, String, ◌≡◌, ◌↔◌, ◌⊎◌, ◌≢◌, arith}
use expentra.Prelude.Result.{ok}
use expentra.Entities.{LoadedExpense}
use expentra.Authorization.Types.{AuthUser}
use expentra.Authorization.Access.{can_decide_on_expense}
use expentra.Authorization.Policy.{
  assert_can_decide_on_expense, assert_no_separation_of_duties_conflicts, has_name,
}

-- The check before a decision passes exactly for callers who do not own the expense and may decide
-- on it.
pub assert_can_decide_on_expense_iff :
    (u : AuthUser) (e : LoadedExpense)
    → (assert_can_decide_on_expense u e ≡ ok tt)
      ↔ ((e.row.user_id ≢ u.id) × (can_decide_on_expense u e ≡ true))
unfolding assert_can_decide_on_expense
assert_can_decide_on_expense_iff u e = (λ h. (ground arith, ground arith), λ h. ground arith)

-- The permissions of a role are accepted exactly when the one to submit expenses is not among them,
-- or neither the one to approve nor the one to reject is.
pub assert_no_separation_of_duties_conflicts_iff :
    (names : List String)
    → (assert_no_separation_of_duties_conflicts names ≡ ok tt) ↔ (
        (has_name names "expense.submit" ≡ false)
        ⊎ ((has_name names "approval.approve" ≡ false)
            × (has_name names "approval.reject" ≡ false)))
unfolding assert_no_separation_of_duties_conflicts
assert_no_separation_of_duties_conflicts_iff names = (λ h. ground arith, λ h. ground arith)
