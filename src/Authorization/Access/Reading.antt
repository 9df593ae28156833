-- ===== src/Authorization/Access/Reading.antt =====
-- Who may read an expense (expense-access.policy.ts).
use expentra.Prelude.{true, ◌≡◌, arith}
use expentra.Entities.{ExpenseStatus, LoadedExpense}
use expentra.Authorization.Types.{AuthUser}
use expentra.Authorization.Access.{can_read_expense}

-- A draft that a caller can read is their own, whatever permissions they hold.
pub can_read_expense-draft :
    (u : AuthUser) (e : LoadedExpense)
    → e.row.status ≡ ExpenseStatus.draft
    → can_read_expense u e ≡ true
    → e.row.user_id ≡ u.id
unfolding can_read_expense
can_read_expense-draft u e d h = ground arith
