-- ===== src/Workflow.antt =====
-- The calls that move expenses, as steps of the database, and what every run of them keeps. The
-- runtime may change from call to call, but for its time zone.
pub mod Recalculated
use expentra.Prelude.{ℕ, String, ◌≡◌, subst, sym}
use expentra.Prelude.Result.{Result, ok}
use expentra.Entities.{Expense, ExpenseApproval}
use expentra.Store.{Db}
use expentra.Runtime.{Runtime}
use expentra.Authorization.Types.{AuthUser}
use expentra.Budget.Period.{Zone}
use expentra.Budget.Books.{KeepsBooks}
use expentra.Approval.Decision.{ApproveExpenseInput, approve}
use expentra.Approval.Decision.Outcome.{approve-KeepsBooks}
use expentra.Approval.Rejection.{reject}
use expentra.Approval.Rejection.Outcome.{reject-KeepsBooks}
use expentra.Expense.Support.{PolicyEvaluationContext}
use expentra.Expense.Submit.{submit}
use expentra.Expense.Submit.Outcome.{submit-KeepsBooks}
use expentra.Expense.Reimbursement.{reimburse}
use expentra.Expense.Reimbursement.Outcome.{reimburse-KeepsBooks}
use expentra.Expense.Draft.{
  CreateExpenseInput, UpdateExpenseInput, create, update, remove, reopen_rejected,
}
use expentra.Expense.Draft.Outcome.{update-KeepsBooks, reopen-KeepsBooks}
use expentra.Expense.Draft.Lifetime.{create-KeepsBooks, remove-keeps}

-- One call of a service, whatever its outcome; `rt` is the runtime that it sees.
pub data Step (rt : Runtime) (db db' : Db) : Type 0 where
  creates :
      (user_id : ℕ) (i : CreateExpenseInput) (reference : String) (e : Expense)
      → create rt user_id i reference db ≡ ok (e, db')
      → Step rt db db'
  updates :
      (u : AuthUser) (reference : String) (i : UpdateExpenseInput) (r : Result Expense)
      → update rt u reference i db ≡ (r, db')
      → Step rt db db'
  removes :
      (u : AuthUser) (reference : String) (r : Result (Unit {0}))
      → remove rt u reference db ≡ (r, db')
      → Step rt db db'
  submits :
      (policies : PolicyEvaluationContext → Db → Result (Unit {0})) (u : AuthUser)
      (reference : String) (r : Result Expense)
      → submit rt policies u reference db ≡ (r, db')
      → Step rt db db'
  approves :
      (u : AuthUser) (id : ℕ) (i : ApproveExpenseInput) (r : Result ExpenseApproval)
      → approve rt u id i db ≡ (r, db')
      → Step rt db db'
  rejects :
      (u : AuthUser) (id : ℕ) (comment : String) (r : Result ExpenseApproval)
      → reject rt u id comment db ≡ (r, db')
      → Step rt db db'
  reopens :
      (u : AuthUser) (reference : String) (r : Result Expense)
      → reopen_rejected rt u reference db ≡ (r, db')
      → Step rt db db'
  reimburses :
      (u : AuthUser) (reference : String) (r : Result Expense)
      → reimburse rt u reference db ≡ (r, db')
      → Step rt db db'

Step-KeepsBooks :
    (rt : Runtime) (db db' : Db) → Step rt db db' → KeepsBooks rt.zone db → KeepsBooks rt.zone db'
Step-KeepsBooks rt db db' (creates user_id i reference e h) b =
    create-KeepsBooks rt user_id i reference db db' e h b
Step-KeepsBooks rt db db' (updates u reference i r h) b =
    update-KeepsBooks rt u reference i db db' r h b
Step-KeepsBooks rt db db' (removes u reference r h) b = remove-keeps rt u reference db db' r h b
Step-KeepsBooks rt db db' (submits policies u reference r h) b =
    submit-KeepsBooks rt policies u reference db db' r h b
Step-KeepsBooks rt db db' (approves u id i r h) b = approve-KeepsBooks rt u id i db db' r h b
Step-KeepsBooks rt db db' (rejects u id comment r h) b =
    reject-KeepsBooks rt u id comment db db' r h b
Step-KeepsBooks rt db db' (reopens u reference r h) b =
    reopen-KeepsBooks rt u reference db db' r h b
Step-KeepsBooks rt db db' (reimburses u reference r h) b =
    reimburse-KeepsBooks rt u reference db db' r h b

-- A sequence of calls in one time zone.
pub data Run (z : Zone) : Db → Db → Type 0 where
  stop : (db : Db) → Run z db db
  call :
      (rt : Runtime) (db db' last : Db)
      → rt.zone ≡ z
      → Step rt db db'
      → Run z db' last
      → Run z db last

-- Whatever creations, updates, removals, submissions, approvals, rejections, reopenings and
-- reimbursements of expenses are called, in whatever order, by whomever and with whatever outcome,
-- in one time zone: where expense keys were unique, every expense that counts named a department
-- and a time of submission, and every live budget row held the sums over the expenses of its
-- department and year, all three still hold.
pub Run-KeepsBooks : (z : Zone) (db last : Db) → Run z db last → KeepsBooks z db → KeepsBooks z last
Run-KeepsBooks z db last (stop _) b = b
Run-KeepsBooks z db last (call rt _ db' _ same step rest) b =
    let before = subst (λ v. KeepsBooks v db) (sym same) b in
    let after = subst (λ v. KeepsBooks v db') same (Step-KeepsBooks rt db db' step before) in
    Run-KeepsBooks z db' last rest after
