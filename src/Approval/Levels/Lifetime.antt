-- ===== src/Approval/Levels/Lifetime.antt =====
-- What a call of modules/approval/services/approval-level.service.ts that returns keeps.
use expentra.Prelude.{
  ℕ, String, true, false, Option, [], ◌∷◌, ◌++◌, map, ◌≡◌, ◌≢◌, ◌==◌, not, any, filter, trim, arith,
  All, subst, sym, ap,
}
use expentra.Prelude.Result.{ok, conflict, throw_if, >>=-eq-ok-then}
use expentra.Entities.{ApprovalLevel}
use expentra.Store.{next_id}
use expentra.Runtime.{Runtime}
use expentra.Reference.{find_entity_by_reference}
use expentra.Approval.Levels.{
  assert_non_empty, or_else, map_option, CreateApprovalLevelInput, LevelCatalog,
  resolve_amount_range, assert_level_available, find_one, resolve_role_for_approver_type, create,
  remove,
}
use expentra.Approval.Levels.Kept.{
  IsFormed, KeepsLevels, resolve_amount_range-le, resolve_role-RoleFits, free-distinct,
  append-KeepsLevels, filter-KeepsLevels,
}

-- The row that `create` saves.
abbrev made_level :
    CreateApprovalLevelInput → String → Option ℕ → ℕ × Option ℕ → LevelCatalog → ApprovalLevel
made_level input reference role range s = record {
  id = next_id (map (λ x. x.id) s.db.levels);
  reference = reference;
  role_id = role;
  approver_type = input.approver_type;
  name = trim input.name;
  level = input.level;
  minimum_amount = range.0;
  maximum_amount = range.1;
  is_active = or_else true input.is_active;
  description = map_option trim input.description;
}

module _ (rt : Runtime) (number_text : ℕ → String) (s s' : LevelCatalog) where
  pub create-KeepsLevels :
      (input : CreateApprovalLevelInput) (reference : String) (l : ApprovalLevel)
      → create rt number_text input reference s ≡ ok (l, s')
      → KeepsLevels s.db
      → KeepsLevels s'.db
  unfolding create
  create-KeepsLevels input reference l h k =
      >>=-eq-ok-then (assert_non_empty (trim input.name)) _ h λ _ named h1.
        >>=-eq-ok-then
          (resolve_role_for_approver_type rt input.approver_type input.role_reference s.db) _ h1
          λ role given h2.
            >>=-eq-ok-then (assert_level_available number_text input.level (λ _. false) s.db.levels)
              _ h2
              λ _ free h3.
                >>=-eq-ok-then (resolve_amount_range input.minimum_amount input.maximum_amount) _ h3
                  λ range valid h4.
                    let e : s'.db ≡ record s.db { levels = s.db.levels ++ l ∷ [] } = cc h4 in
                    let fits =
                      resolve_role-RoleFits rt input.approver_type input.role_reference s.db role
                        given in
                    let distinct = free-distinct number_text input.level s.db.levels free in
                    let made : made_level input reference role range s ≡ l = cc h4 in
                    subst KeepsLevels (sym e) (
                      append-KeepsLevels s.db k l (ap (λ v. v.id) (sym made))
                        (subst (λ n. All (λ x. x.level ≢ n) s.db.levels) (ap (λ v. v.level) made)
                          distinct)
                        (subst (IsFormed s.db.roles) made (record {
                          named = ground arith;
                          range = λ m.
                              resolve_amount_range-le input.minimum_amount input.maximum_amount
                                range m valid;
                          role = fits;
                        })))

  pub remove-KeepsLevels :
      (reference : String)
      → remove rt number_text reference s ≡ ok (tt, s')
      → KeepsLevels s.db
      → KeepsLevels s'.db
  unfolding remove find_one
  remove-KeepsLevels reference h k =
      >>=-eq-ok-then
        (find_entity_by_reference rt.to_upper (λ x. x.reference) s.db.levels reference
          "Approval level not found")
        _ h
        λ found _ h1.
          >>=-eq-ok-then
            (throw_if (any (λ a. a.approval_level_id == found.id) s.db.approvals)
              (conflict "Cannot delete an approval level that has expense decisions recorded"))
            _ h1
            λ _ unused h2.
              let e : s'.db
                  ≡ record s.db { levels = filter (λ x. not (x.id == found.id)) s.db.levels } =
                cc h2 in
              subst KeepsLevels (sym e) (filter-KeepsLevels s.db k found (ground arith))
