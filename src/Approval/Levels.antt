-- ===== src/Approval/Levels.antt =====
-- modules/approval/services/approval-level.service.ts, with the cache of
-- approval-level-catalog.service.ts, in one process.
pub mod Rows
pub mod Kept
pub mod Lifetime
pub mod Updated
pub mod Serving
pub mod Health
pub mod Warnings
use expentra.Prelude.{
  ℕ, String, Bool, true, false, Option, none, some, List, [], ◌∷◌, ◌++◌, map, ◌&&◌, ◌||◌, not, ◌==◌,
  ◌+◌, ltb, any, filter, find?, is_empty, is_some, is_none, trim, ◌<>◌, if◌then◌else◌,
}
use expentra.Prelude.Int.{ℤ, pos, negsuc, pos_part}
use expentra.Prelude.Result.{Result, ok, err, bad_request, conflict, throw_if, ◌>>=◌, ◌>>◌}
use expentra.Entities.{ApprovalApproverType, ApprovalLevel, ExpenseApproval, Role}
use expentra.Store.{Db, next_id}
use expentra.Runtime.{Runtime}
use expentra.Reference.{find_entity_by_reference}
use expentra.Approval.Decision.{load_active_levels}

-- An amount is an integer until `resolveAmountRange` has checked it.
pub record CreateApprovalLevelInput : Type 0 where
  pub approver_type : ApprovalApproverType
  pub role_reference : Option String
  pub name : String
  pub level : ℕ
  pub minimum_amount : Option ℤ
  pub maximum_amount : Option ℤ
  pub is_active : Option Bool
  pub description : Option String

-- A column that can be null is `some none` to clear it.
pub record UpdateApprovalLevelInput : Type 0 where
  pub approver_type : Option ApprovalApproverType
  pub role_reference : Option String
  pub name : Option String
  pub level : Option ℕ
  pub minimum_amount : Option ℤ
  pub maximum_amount : Option (Option ℤ)
  pub is_active : Option Bool
  pub description : Option (Option String)

-- The active levels that `ApprovalLevelCatalogService` keeps.
pub record CachedLevels : Type 0 where
  pub expires_at : ℕ
  pub levels : List ApprovalLevel

pub record LevelCatalog : Type 0 where
  pub db : Db
  pub cache : Option CachedLevels

abbrev pub cache_ttl_ms : ℕ
cache_ttl_ms = 60000

-- The levels that were loaded, kept.
abbrev keep_levels : ℕ → LevelCatalog → List ApprovalLevel × LevelCatalog
keep_levels now s = (
  load_active_levels s.db,
  record s {
    cache = some (record { expires_at = now + cache_ttl_ms; levels = load_active_levels s.db });
  },
)

-- `getActiveLevels` outside a transaction.
unfoldable pub get_active_levels : Runtime → LevelCatalog → List ApprovalLevel × LevelCatalog
get_active_levels rt s = elim s.cache [
  | none ↦ keep_levels rt.now s
  | some kept ↦ if ltb rt.now kept.expires_at then (kept.levels, s) else keep_levels rt.now s
]

-- The table after a write, with the cache dropped by `invalidate`.
abbrev pub with_levels : List ApprovalLevel → LevelCatalog → LevelCatalog
with_levels levels s = record { db = record s.db { levels = levels }; cache = none }

abbrev pub or_else {ℓ} : {A : Type ℓ} → A → Option A → A
or_else a none = a
or_else a (some b) = b

abbrev pub map_option {ℓ κ} : {A : Type ℓ} {B : Type κ} → (A → B) → Option A → Option B
map_option f none = none
map_option f (some a) = some (f a)

-- `assertNonEmpty`
abbrev pub assert_non_empty : String → Result (Unit {0})
assert_non_empty name = throw_if (is_empty name) (bad_request "Approval level name is required")

abbrev pub is_below : ℤ → ℕ → Bool
is_below (pos m) n = ltb m n
is_below (negsuc m) n = true

-- `resolveAmountRange`
unfoldable pub resolve_amount_range : Option ℤ → Option ℤ → Result (ℕ × Option ℕ)
resolve_amount_range minimum maximum = do
  let least = or_else (pos 0) minimum
  throw_if (is_below least 0) (bad_request "Minimum amount cannot be negative")
  throw_if (elim maximum [ none ↦ false | some m ↦ is_below m (pos_part least) ])
      (bad_request "Maximum amount must be greater than or equal to minimum amount")
  ok (pos_part least, map_option pos_part maximum)

-- `assertLevelAvailable`; the text of the number is the runtime's.
unfoldable pub assert_level_available :
    (ℕ → String) → ℕ → (ApprovalLevel → Bool) → List ApprovalLevel → Result (Unit {0})
assert_level_available number_text level excluded levels =
    elim (find? (λ l. l.level == level) levels) [
      | none ↦ ok tt
      | some existing ↦ throw_if (not (excluded existing)) (
          conflict
            ("An approval level with chain order " <> (number_text level <> " already exists")))
    ]

-- `approvalLevelRepository.save` of a row that exists.
unfoldable pub replace_level : ApprovalLevel → List ApprovalLevel → List ApprovalLevel
replace_level l [] = []
replace_level l (x ∷ xs) = (if x.id == l.id then l else x) ∷ replace_level l xs

-- The reference of the role that `findOne` joins.
abbrev role_reference : ApprovalLevel → Db → Option String
role_reference l db = elim l.role_id [
  | none ↦ none
  | some id ↦ map_option (λ r. r.reference) (find? (λ r. r.id == id) db.roles)
]

-- `!roleReference`
abbrev pub lacks_reference : Option String → Bool
lacks_reference none = true
lacks_reference (some s) = is_empty s

-- The name after `update`.
unfoldable pub updated_name : ApprovalLevel → Option String → Result String
updated_name l none = ok l.name
updated_name l (some name) = do assert_non_empty (trim name); ok (trim name)

-- The range of amounts after `update`.
unfoldable pub updated_range : ApprovalLevel → UpdateApprovalLevelInput → Result (ℕ × Option ℕ)
updated_range l input =
    if is_some input.minimum_amount || is_some input.maximum_amount
    then resolve_amount_range (some (or_else (pos l.minimum_amount) input.minimum_amount))
        (or_else (map_option pos l.maximum_amount) input.maximum_amount)
    else ok (l.minimum_amount, l.maximum_amount)

module _ (rt : Runtime) where
  -- `findOne`
  pub find_one : String → Db → Result ApprovalLevel
  find_one reference db =
      find_entity_by_reference rt.to_upper (λ l. l.reference) db.levels reference
        "Approval level not found"

  -- `resolveRoleForApproverType`, with `findRoleByReference`; the key of the role.
  unfoldable pub resolve_role_for_approver_type :
      ApprovalApproverType → Option String → Db → Result (Option ℕ)
  resolve_role_for_approver_type ApprovalApproverType.department_manager reference db = ok none
  resolve_role_for_approver_type ApprovalApproverType.finance_manager reference db = do
    throw_if (lacks_reference reference)
        (bad_request "roleReference is required for finance manager approval levels")
    role ←
        find_entity_by_reference rt.to_upper (λ r. r.reference) db.roles (or_else "" reference)
          "Role not found"
    ok (some role.id)

  -- The role of a level after `update`.
  unfoldable pub updated_role : ApprovalLevel → UpdateApprovalLevelInput → Db → Result (Option ℕ)
  updated_role l input db =
      if is_some input.role_reference || is_some input.approver_type
      then resolve_role_for_approver_type (or_else l.approver_type input.approver_type)
          (if is_some input.role_reference then input.role_reference else role_reference l db) db
      else ok l.role_id

-- The number after `update`.
module _ (number_text : ℕ → String) where
  unfoldable pub updated_number : ApprovalLevel → Option ℕ → List ApprovalLevel → Result ℕ
  updated_number l none levels = ok l.level
  updated_number l (some n) levels =
      if n == l.level
      then ok n
      else do assert_level_available number_text n (λ x. x.id == l.id) levels; ok n

module _ (rt : Runtime) (number_text : ℕ → String) where
  -- `create`, less the read that follows; the reference is the one that the insertion generates.
  unfoldable pub create :
      CreateApprovalLevelInput → String → LevelCatalog → Result (ApprovalLevel × LevelCatalog)
  create input reference s = do
    let name = trim input.name
    assert_non_empty name
    role ← resolve_role_for_approver_type rt input.approver_type input.role_reference s.db
    assert_level_available number_text input.level (λ l. false) s.db.levels
    range ← resolve_amount_range input.minimum_amount input.maximum_amount
    let level : ApprovalLevel = record {
      id = next_id (map (λ l. l.id) s.db.levels);
      reference = reference;
      role_id = role;
      approver_type = input.approver_type;
      name = name;
      level = input.level;
      minimum_amount = range.0;
      maximum_amount = range.1;
      is_active = or_else true input.is_active;
      description = map_option trim input.description;
    }
    ok (level, with_levels (s.db.levels ++ level ∷ []) s)

  -- `update`, less the read that follows.
  unfoldable pub update :
      String → UpdateApprovalLevelInput → LevelCatalog → Result (ApprovalLevel × LevelCatalog)
  update reference input s = do
    l ← find_one rt reference s.db
    role ← updated_role rt l input s.db
    name ← updated_name l input.name
    number ← updated_number number_text l input.level s.db.levels
    range ← updated_range l input
    let saved : ApprovalLevel = record l {
      role_id = role;
      approver_type = or_else l.approver_type input.approver_type;
      name = name;
      level = number;
      minimum_amount = range.0;
      maximum_amount = range.1;
      is_active = or_else l.is_active input.is_active;
      description = elim input.description [ none ↦ l.description | some d ↦ map_option trim d ];
    }
    ok (saved, with_levels (replace_level saved s.db.levels) s)

  -- `remove`
  unfoldable pub remove : String → LevelCatalog → Result (Unit {0} × LevelCatalog)
  remove reference s = do
    l ← find_one rt reference s.db
    throw_if (any (λ a. a.approval_level_id == l.id) s.db.approvals)
        (conflict "Cannot delete an approval level that has expense decisions recorded")
    ok (tt, with_levels (filter (λ x. not (x.id == l.id)) s.db.levels) s)
