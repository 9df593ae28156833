-- ===== src/Policy/History.antt =====
-- modules/policy/engine/policy-evaluation.cache.ts: what the expenses before a submission say of it.
-- The cache asks the database once for each category and window; the tables do not change within an
-- evaluation, so its answers are those of the queries.
use expentra.Prelude.{
  ℕ, suc, ◌+◌, ◌-◌, ◌*◌, String, Bool, false, Option, none, some, List, [], ◌∷◌, ◌&&◌, ◌||◌, not,
  ◌==◌, any, ltb, leb, same_text, if◌then◌else◌,
}
use expentra.Entities.{ExpenseStatus, same_status, same_category, Expense}
use expentra.Store.{Db}
use expentra.Runtime.{Runtime}
use expentra.Budget.Period.{Zone, Range}
use expentra.Expense.Support.{PolicyEvaluationContext}
use expentra.Policy.Types.{category_text}

-- `ACTIVE_EXPENSE_STATUSES`
abbrev pub is_active_status : ExpenseStatus → Bool
is_active_status s =
    same_status s ExpenseStatus.submitted
    || same_status s ExpenseStatus.under_review
    || same_status s ExpenseStatus.approved
    || same_status s ExpenseStatus.reimbursed

-- A comparison with a null column does not hold.
abbrev at_least : ℕ → Option ℕ → Bool
at_least t none = false
at_least t (some s) = leb t s

abbrev below : ℕ → Option ℕ → Bool
below t none = false
below t (some s) = ltb s t

-- `monthRange`
pub month_range : Zone → ℕ → Range
month_range z t =
    let date = z.utc t in
    record {
      start = z.date_utc date.year date.month 1 0;
      stop = z.date_utc date.year (suc date.month) 1 0;
    }

-- A row of the query of `loadMonthlyCategorySpend`.
pub spends_in : PolicyEvaluationContext → String → Range → Expense → Bool
spends_in context category month e =
    e.user_id == context.user_id
    && same_text (category_text e.category) category
    && is_active_status e.status
    && at_least month.start e.submitted_at
    && below month.stop e.submitted_at
    && not (e.id == context.expense_id)

-- `SUM(expense.amount)` over the rows that pass.
pub sum_amounts : (Expense → Bool) → List Expense → ℕ
sum_amounts p [] = 0
sum_amounts p (e ∷ es) = (if p e then e.amount else 0) + sum_amounts p es

-- `loadMonthlyCategorySpend`
unfoldable pub load_monthly_category_spend : Runtime → PolicyEvaluationContext → String → Db → ℕ
unfolding sum_amounts spends_in month_range
load_monthly_category_spend rt context category db =
    sum_amounts (spends_in context category (month_range rt.zone context.submitted_at)) db.expenses
    + (if same_text (category_text context.category) category then context.amount else 0)

-- A row of the query of `loadDuplicateExpense`.
pub is_duplicate : PolicyEvaluationContext → ℕ → Expense → Bool
is_duplicate context since e =
    e.user_id == context.user_id
    && e.amount == context.amount
    && same_category e.category context.category
    && not (same_status e.status ExpenseStatus.draft)
    && not (same_status e.status ExpenseStatus.rejected)
    && not (e.id == context.expense_id)
    && at_least since e.submitted_at

-- `loadDuplicateExpense`; moving the UTC date moves the time by whole days.
unfoldable pub load_duplicate_expense : PolicyEvaluationContext → ℕ → Db → Bool
unfolding is_duplicate
load_duplicate_expense context window_days db =
    any (is_duplicate context (context.submitted_at - window_days * 86400000)) db.expenses
