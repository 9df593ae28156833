-- ===== src/Examples/Levels.antt =====
-- The administration of the levels of the sample organisation: a third level is created.
use expentra.Prelude.{ℕ, String, true, none, some, [], ◌∷◌, ◌++◌, ◌≡◌, refl, arith, trim}
use expentra.Prelude.Int.{pos}
use expentra.Prelude.Result.{ok}
use expentra.Entities.{ApprovalApproverType, ApprovalLevel}
use expentra.Store.{next_id}
use expentra.Reference.{normalize_entity_reference, is_entity_reference, find_entity_by_reference}
use expentra.Samples.{runtime, office, levels}
use expentra.Approval.Levels.{
  CreateApprovalLevelInput, LevelCatalog, resolve_amount_range, assert_level_available,
  resolve_role_for_approver_type, create,
}
use expentra.Approval.Levels.Kept.{KeepsLevels}
use expentra.Approval.Levels.Serving.{LevelStep, LevelRun, LevelRun-KeepsLevels}

abbrev three : ℕ → String
three n = "3"

abbrev director_input : CreateApprovalLevelInput
director_input = record {
  approver_type = ApprovalApproverType.finance_manager;
  role_reference = some "ROL1749078456123A7B9C2";
  name = " Director ";
  level = 3;
  minimum_amount = some (pos 200);
  maximum_amount = none;
  is_active = none;
  description = none;
}

abbrev director : ApprovalLevel
director = record {
  id = 23;
  reference = "APL1749078456123A7B9C4";
  role_id = some 5;
  approver_type = ApprovalApproverType.finance_manager;
  name = "Director";
  level = 3;
  minimum_amount = 200;
  maximum_amount = none;
  is_active = true;
  description = none;
}

abbrev two_levels : LevelCatalog
two_levels = record { db = office; cache = none }

abbrev three_levels : LevelCatalog
three_levels = record { db = record office { levels = levels ++ director ∷ [] }; cache = none }

creates_level :
    create runtime three director_input "APL1749078456123A7B9C4" two_levels
    ≡ ok (director, three_levels)
unfolding create resolve_role_for_approver_type assert_level_available resolve_amount_range trim
    next_id normalize_entity_reference is_entity_reference find_entity_by_reference
creates_level = refl

office-KeepsLevels : KeepsLevels office
office-KeepsLevels = record {
  ids = ((λ e. absurd (ground (arith, e)), tt), (tt, tt));
  numbers = ((λ e. absurd (ground (arith, e)), tt), (tt, tt));
  formed = (
    record { named = refl; range = λ m e. absurd (ground (arith, e)); role = (5, refl, refl) },
    (record { named = refl; range = λ m e. absurd (ground (arith, e)); role = refl }, tt),
  );
  decided = tt;
}

abbrev level_run : LevelRun two_levels three_levels
level_run =
    LevelRun.call runtime three two_levels three_levels three_levels
      (LevelStep.creates director_input "APL1749078456123A7B9C4" director creates_level)
      (LevelRun.start three_levels)

LevelRun-KeepsLevels_example : KeepsLevels three_levels.db
LevelRun-KeepsLevels_example =
    LevelRun-KeepsLevels two_levels three_levels level_run office-KeepsLevels
