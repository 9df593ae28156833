-- ===== src/Approval/Levels/Serving.antt =====
-- The levels that the catalog serves, whatever administration of levels went before.
use expentra.Prelude.{ℕ, String, none, some, ◌≡◌, arith, inl, inr, Option-cases, subst}
use expentra.Prelude.Result.{ok}
use expentra.Entities.{ApprovalLevel}
use expentra.Runtime.{Runtime}
use expentra.Approval.Decision.{load_active_levels}
use expentra.Approval.Levels.{
  CreateApprovalLevelInput, UpdateApprovalLevelInput, CachedLevels, LevelCatalog, get_active_levels,
  create, update, remove,
}
use expentra.Approval.Levels.Kept.{KeepsLevels}
use expentra.Approval.Levels.Lifetime.{create-KeepsLevels, remove-KeepsLevels}
use expentra.Approval.Levels.Updated.{update-KeepsLevels}

-- One call of the service or of the catalog that returned; the runtime may change between calls.
pub data LevelStep (rt : Runtime) (number_text : ℕ → String) (s s' : LevelCatalog) : Type 0 where
  creates :
      (i : CreateApprovalLevelInput) (reference : String) (l : ApprovalLevel)
      → create rt number_text i reference s ≡ ok (l, s')
      → LevelStep rt number_text s s'
  updates :
      (reference : String) (i : UpdateApprovalLevelInput) (l : ApprovalLevel)
      → update rt number_text reference i s ≡ ok (l, s')
      → LevelStep rt number_text s s'
  removes :
      (reference : String)
      → remove rt number_text reference s ≡ ok (tt, s')
      → LevelStep rt number_text s s'
  reads : (get_active_levels rt s).1 ≡ s' → LevelStep rt number_text s s'

pub data LevelRun : LevelCatalog → LevelCatalog → Type 0 where
  start : (s : LevelCatalog) → LevelRun s s
  call :
      (rt : Runtime) (number_text : ℕ → String) (s s' last : LevelCatalog)
      → LevelStep rt number_text s s'
      → LevelRun s' last
      → LevelRun s last

-- The cache holds what the table has.
abbrev pub IsFresh : LevelCatalog → Type 0
IsFresh s = (kept : CachedLevels) → s.cache ≡ some kept → kept.levels ≡ load_active_levels s.db

reads-db : (rt : Runtime) (s : LevelCatalog) → (get_active_levels rt s).1.db ≡ s.db
unfolding get_active_levels
reads-db rt s = ground arith

LevelStep-KeepsLevels :
    (rt : Runtime) (number_text : ℕ → String) (s s' : LevelCatalog)
    → LevelStep rt number_text s s'
    → KeepsLevels s.db
    → KeepsLevels s'.db
LevelStep-KeepsLevels rt text s s' (creates i reference l h) k =
    create-KeepsLevels rt text s s' i reference l h k
LevelStep-KeepsLevels rt text s s' (updates reference i l h) k =
    update-KeepsLevels rt text reference i s s' l h k
LevelStep-KeepsLevels rt text s s' (removes reference h) k =
    remove-KeepsLevels rt text s s' reference h k
LevelStep-KeepsLevels rt text s s' (reads h) k =
    let same : s.db ≡ s'.db = cc (reads-db rt s, h) in subst KeepsLevels same k

-- Whatever approval levels were created, updated and removed by calls that returned, with reads of
-- the active levels between: where it was so before, the keys and the numbers of the levels are
-- distinct, each level has a name, a range of amounts that is not empty, and a stored role exactly
-- where it is a finance level, and each decision has its level.
pub LevelRun-KeepsLevels :
    (s last : LevelCatalog) → LevelRun s last → KeepsLevels s.db → KeepsLevels last.db
LevelRun-KeepsLevels s last (start _) k = k
LevelRun-KeepsLevels s last (call rt text _ s' _ step rest) k =
    LevelRun-KeepsLevels s' last rest (LevelStep-KeepsLevels rt text s s' step k)

module _ (rt : Runtime) (text : ℕ → String) (s s' : LevelCatalog) where
  create-drops :
      (i : CreateApprovalLevelInput) (reference : String) (l : ApprovalLevel)
      → create rt text i reference s ≡ ok (l, s')
      → s'.cache ≡ none
  unfolding create
  create-drops i reference l h = ground arith

  update-drops :
      (reference : String) (i : UpdateApprovalLevelInput) (l : ApprovalLevel)
      → update rt text reference i s ≡ ok (l, s')
      → s'.cache ≡ none
  unfolding update
  update-drops reference i l h = ground arith

  remove-drops : (reference : String) → remove rt text reference s ≡ ok (tt, s') → s'.cache ≡ none
  unfolding remove
  remove-drops reference h = ground arith

  LevelStep-IsFresh : LevelStep rt text s s' → IsFresh s → IsFresh s'
  unfolding get_active_levels
  LevelStep-IsFresh (creates i reference l h) fresh kept e =
      ground (arith, create-drops i reference l h)
  LevelStep-IsFresh (updates reference i l h) fresh kept e =
      ground (arith, update-drops reference i l h)
  LevelStep-IsFresh (removes reference h) fresh kept e = ground (arith, remove-drops reference h)
  LevelStep-IsFresh (reads h) fresh kept e = ground (arith, fresh kept)

LevelRun-IsFresh : (s last : LevelCatalog) → LevelRun s last → IsFresh s → IsFresh last
LevelRun-IsFresh s last (start _) fresh = fresh
LevelRun-IsFresh s last (call rt text _ s' _ step rest) fresh =
    LevelRun-IsFresh s' last rest (LevelStep-IsFresh rt text s s' step fresh)

get_active_levels-IsFresh :
    (rt : Runtime) (s : LevelCatalog)
    → IsFresh s
    → (get_active_levels rt s).0 ≡ load_active_levels s.db
unfolding get_active_levels
get_active_levels-IsFresh rt s fresh = elim (Option-cases s.cache) [
  | inl empty ↦ ground arith
  | inr (kept, e) ↦ ground (arith, e, fresh kept e)
]

-- The catalog serves the active levels that the table has, in the order of their numbers, whatever
-- levels were created, updated and removed by calls that returned and whatever reads ran between,
-- in one process whose calls do not overlap and which alone writes the table, where its cache was
-- empty to begin with.
pub get_active_levels-current :
    (first s : LevelCatalog)
    → LevelRun first s
    → first.cache ≡ none
    → (rt : Runtime) → (get_active_levels rt s).0 ≡ load_active_levels s.db
get_active_levels-current first s run empty rt =
    get_active_levels-IsFresh rt s (LevelRun-IsFresh first s run λ c e. absurd (ground arith))
