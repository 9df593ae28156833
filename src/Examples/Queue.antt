-- ===== src/Examples/Queue.antt =====
-- The queue of the manager of the sample organisation.
use expentra.Prelude.{true, none, refl, ◌≡◌, ◌↔◌, includes}
use expentra.Entities.{LoadedExpense, ApprovalLevel}
use expentra.Samples.{runtime, manager}
use expentra.Samples.Calls.{submitted_office}
use expentra.Approval.Levels.{LevelCatalog}
use expentra.Approval.Levels.Serving.{LevelRun, get_active_levels-current}
use expentra.Approval.Queue.{get_actionable_expense_ids}
use expentra.Approval.Queue.Actionable.{IsActionable, get_actionable_expense_ids_iff}

abbrev catalog : LevelCatalog
catalog = record { db = submitted_office; cache = none }

get_actionable_expense_ids_iff_example :
    (includes (get_actionable_expense_ids runtime manager catalog).0 7 ≡ true) ↔ (
      (e : LoadedExpense) × (stage : ApprovalLevel) × IsActionable runtime manager submitted_office
        7 e stage)
get_actionable_expense_ids_iff_example =
    get_actionable_expense_ids_iff runtime manager catalog 7 (tt, tt)
      (get_active_levels-current catalog catalog (LevelRun.start catalog) refl runtime)
