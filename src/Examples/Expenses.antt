-- ===== src/Examples/Expenses.antt =====
-- The expense of the sample organisation submitted, and submitted again after its rejection.
use expentra.Expense.Submit.Stored.{Submission, submit-Submission}
use expentra.Samples.Calls.{submitted_office}
use expentra.Store.{find_expense}
use expentra.Runtime.{Runtime}
use expentra.Prelude.{none, some, [], ◌∷◌, ◌++◌, trim}
use expentra.Entities.{ExpenseStatus, Expense}
use expentra.Store.{Db, Event}
use expentra.Samples.Calls.{submitted_taxi, rejected_office, submits}
use expentra.Samples.{runtime, no_policies, owner, taxi_reference, office}
use expentra.Store.{find_expense}
use expentra.Prelude.{trim}

submit-Submission_example : Submission runtime owner office submitted_taxi submitted_office
submit-Submission_example =
    submit-Submission runtime owner taxi_reference office submitted_office no_policies
      submitted_taxi submits

abbrev rejected_taxi : Expense
rejected_taxi = record submitted_taxi { status = ExpenseStatus.rejected; rejected_at = some 1000 }

-- The times of the row stay.
abbrev reopened_office : Db
reopened_office = record rejected_office {
  expenses = record rejected_taxi { status = ExpenseStatus.draft } ∷ [];
  approvals = [];
  events = rejected_office.events ++ Event.expense_reopened 7 1 ∷ [];
}

abbrev later : Runtime
later = record runtime { now = 90000 }

abbrev resubmitted_taxi : Expense
resubmitted_taxi = record submitted_taxi { rejected_at = none }

abbrev resubmitted_office : Db
resubmitted_office = record reopened_office {
  expenses = record resubmitted_taxi { rejected_at = some 1000 } ∷ [];
  budgets = submitted_office.budgets;
  events =
      reopened_office.events
      ++ Event.expense_submitted 7 1 1 1000 ∷ Event.expense_budget_committed 7 1 10 1000 ∷ [];
}
