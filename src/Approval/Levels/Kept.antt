-- ===== src/Approval/Levels/Kept.antt =====
-- What every administration of the approval levels keeps: distinct keys and numbers, well-formed
-- levels, and a level for each decision.
use expentra.Prelude.{
  ℕ, ◌≤◌, String, Bool, true, false, Option, none, some, List, [], ◌∷◌, ◌++◌, map, ◌≡◌, ◌≢◌, ◌==◌,
  not, any, filter, find?, find?-holds, is_empty, same_text, inl, inr, arith, All, All-append,
  All-filter, All-map, Option-cases,
}
use expentra.Prelude.Int.{ℤ}
use expentra.Prelude.Result.{ok, bad_request, throw_if, >>=-eq-ok-then}
use expentra.Entities.{ApprovalApproverType, ApprovalLevel, ExpenseApproval, Role}
use expentra.Store.{Db, next_id}
use expentra.Store.Keys.{next_id-fresh}
use expentra.Store.Distinct.{
  HasDistinct, HasDistinct-append, HasDistinct-filter, has_key, has_key-append, has_key-filter,
  find?-has_key,
}
use expentra.Runtime.{Runtime}
use expentra.Reference.{normalize_entity_reference, find_entity_by_reference}
use expentra.Approval.Levels.Rows.{
  OthersDiffer, found-OthersDiffer, replace_level-All, replace_level-ids, replace_level-numbers,
  replace_level-has_key,
}
use expentra.Approval.Levels.{
  lacks_reference, or_else, resolve_amount_range, assert_level_available, replace_level,
  resolve_role_for_approver_type,
}

-- A finance level has a role that is stored, a department manager's level has none.
abbrev pub RoleFits : List Role → ApprovalApproverType → Option ℕ → Type 0
RoleFits roles ApprovalApproverType.department_manager role = role ≡ none
RoleFits roles ApprovalApproverType.finance_manager role =
    (k : ℕ) × (role ≡ some k) × (has_key (λ r. r.id) roles k ≡ true)

pub record IsFormed (roles : List Role) (l : ApprovalLevel) : Type 0 where
  pub named : is_empty l.name ≡ false
  pub range : (m : ℕ) → l.maximum_amount ≡ some m → l.minimum_amount ≤ m
  pub role : RoleFits roles l.approver_type l.role_id

pub record KeepsLevels (db : Db) : Type 0 where
  pub ids : HasDistinct (λ l. l.id) db.levels
  pub numbers : HasDistinct (λ l. l.level) db.levels
  pub formed : All (IsFormed db.roles) db.levels
  pub decided : All (λ a. has_key (λ l. l.id) db.levels a.approval_level_id ≡ true) db.approvals

module _ {ℓ} {A : Type ℓ} (to_upper : String → String) (reference_of : A → String) where
  abbrev pub has_reference : String → A → Bool
  has_reference reference a =
      same_text (reference_of a) (normalize_entity_reference to_upper reference)

  pub found-by_reference :
      (rows : List A) (reference message : String) (a : A)
      → find_entity_by_reference to_upper reference_of rows reference message ≡ ok a
      → find? (has_reference reference) rows ≡ some a
  unfolding find_entity_by_reference
  found-by_reference rows reference message a h = ground arith

pub resolve_amount_range-le :
    (minimum maximum : Option ℤ) (range : ℕ × Option ℕ) (m : ℕ)
    → resolve_amount_range minimum maximum ≡ ok range
    → range.1 ≡ some m
    → range.0 ≤ m
unfolding resolve_amount_range
resolve_amount_range-le minimum maximum range m h e = ground arith

pub resolve_role-RoleFits :
    (rt : Runtime) (t : ApprovalApproverType) (reference : Option String) (db : Db)
    (role : Option ℕ)
    → resolve_role_for_approver_type rt t reference db ≡ ok role
    → RoleFits db.roles t role
unfolding resolve_role_for_approver_type
resolve_role-RoleFits rt ApprovalApproverType.department_manager reference db role h = ground arith
resolve_role-RoleFits rt ApprovalApproverType.finance_manager reference db role h =
    >>=-eq-ok-then
      (throw_if (lacks_reference reference)
        (bad_request "roleReference is required for finance manager approval levels"))
      _ h
      λ _ _ h1.
        >>=-eq-ok-then
          (find_entity_by_reference rt.to_upper (λ r. r.reference) db.roles (or_else "" reference)
            "Role not found")
          _ h1
          λ r found rest.
            let at =
              found-by_reference rt.to_upper (λ x. x.reference) db.roles (or_else "" reference)
                "Role not found" r found in
            let p = has_reference rt.to_upper (λ x. x.reference) (or_else "" reference) in
            (r.id, ground arith, find?-has_key (λ x. x.id) p db.roles r at)

-- A number that is available, but for a row of the same key, is that of no other row.
pub available-OthersDiffer :
    (number_text : ℕ → String) (l : ApprovalLevel) (levels : List ApprovalLevel)
    → HasDistinct (λ x. x.level) levels
    → assert_level_available number_text l.level (λ x. x.id == l.id) levels ≡ ok tt
    → OthersDiffer l levels
unfolding assert_level_available
available-OthersDiffer number_text l levels u h =
    elim (Option-cases (find? (λ x. x.level == l.level) levels)) [
      | inl free ↦ All-map (λ x d _. d) levels (absent-number l.level levels free)
      | inr (a, taken) ↦
          let at : (a.level == l.level) ≡ true =
            find?-holds (λ x. x.level == l.level) levels {x = a} taken in
          let id : a.id ≡ l.id = ground (arith, taken) in
          let level : a.level ≡ l.level = ground arith in
          let differ = found-OthersDiffer (λ x. x.level == l.level) levels a u taken in
          All-map (λ x d other same. ground (arith, d)) levels differ
    ]
  where
    absent-number :
        (n : ℕ) (xs : List ApprovalLevel)
        → find? (λ x. x.level == n) xs ≡ none
        → All (λ x. x.level ≢ n) xs
    absent-number n [] h = tt
    absent-number n (x ∷ xs) h = (λ e. ground (arith, e), absent-number n xs (ground arith))

pub free-distinct :
    (number_text : ℕ → String) (n : ℕ) (levels : List ApprovalLevel)
    → assert_level_available number_text n (λ _. false) levels ≡ ok tt
    → All (λ x. x.level ≢ n) levels
unfolding assert_level_available
free-distinct number_text n [] h = tt
free-distinct number_text n (x ∷ xs) h =
    (λ e. ground (arith, e), free-distinct number_text n xs (ground arith))

module _ (db : Db) (k : KeepsLevels db) (l : ApprovalLevel) where
  pub append-KeepsLevels :
      l.id ≡ next_id (map (λ x. x.id) db.levels)
      → All (λ x. x.level ≢ l.level) db.levels
      → IsFormed db.roles l
      → KeepsLevels (record db { levels = db.levels ++ l ∷ [] })
  append-KeepsLevels fresh free formed = record {
    ids =
        HasDistinct-append (λ x. x.id) db.levels l k.ids
          (All-map (λ x below. ground (arith, below, fresh)) db.levels
            (next_id-fresh (λ x. x.id) db.levels));
    numbers = HasDistinct-append (λ x. x.level) db.levels l k.numbers free;
    formed = All-append (IsFormed db.roles) db.levels (l ∷ []) k.formed (formed, tt);
    decided =
        All-map (λ a. has_key-append (λ x. x.id) db.levels (l ∷ []) a.approval_level_id)
          db.approvals k.decided;
  }

  pub replace-KeepsLevels :
      OthersDiffer l db.levels
      → IsFormed db.roles l
      → KeepsLevels (record db { levels = replace_level l db.levels })
  replace-KeepsLevels others formed = record {
    ids = replace_level-ids l db.levels k.ids;
    numbers = replace_level-numbers l db.levels k.ids k.numbers others;
    formed = replace_level-All l (IsFormed db.roles) db.levels formed k.formed;
    decided =
        All-map (λ a. replace_level-has_key l a.approval_level_id db.levels) db.approvals k.decided;
  }

  undecided-others :
      (rows : List ExpenseApproval)
      → any (λ a. a.approval_level_id == l.id) rows ≡ false
      → All (λ a. has_key (λ x. x.id) db.levels a.approval_level_id ≡ true) rows
      → All
          (λ a.
            has_key (λ x. x.id) (filter (λ x. not (x.id == l.id)) db.levels) a.approval_level_id
            ≡ true)
          rows
  undecided-others [] h d = tt
  undecided-others (a ∷ rest) h (d, ds) = (
    has_key-filter (λ x. x.id) db.levels l.id a.approval_level_id (ground arith) d,
    undecided-others rest (ground arith) ds,
  )

  pub filter-KeepsLevels :
      any (λ a. a.approval_level_id == l.id) db.approvals ≡ false
      → KeepsLevels (record db { levels = filter (λ x. not (x.id == l.id)) db.levels })
  filter-KeepsLevels unused = record {
    ids = HasDistinct-filter (λ x. x.id) (λ x. not (x.id == l.id)) db.levels k.ids;
    numbers = HasDistinct-filter (λ x. x.level) (λ x. not (x.id == l.id)) db.levels k.numbers;
    formed = All-filter (IsFormed db.roles) (λ x. not (x.id == l.id)) db.levels k.formed;
    decided = undecided-others db.approvals unused k.decided;
  }
