-- ===== src/Approval/Levels/Updated.antt =====
-- What an update of modules/approval/services/approval-level.service.ts that returns keeps.
use expentra.Prelude.{
  ℕ, String, false, Option, none, some, ◌≡◌, ◌≢◌, ◌≤◌, ◌==◌, ◌||◌, is_some, is_empty, trim, inl,
  inr, arith, All, Bool-cases, Option-cases, subst, sym,
}
use expentra.Prelude.Int.{pos}
use expentra.Prelude.Result.{ok, >>=-eq-ok-then}
use expentra.Entities.{ApprovalLevel}
use expentra.Store.{Db}
use expentra.Store.Distinct.{HasDistinct}
use expentra.Budget.Books.{All-find}
use expentra.Runtime.{Runtime}
use expentra.Reference.{find_entity_by_reference}
use expentra.Approval.Levels.{
  or_else, map_option, UpdateApprovalLevelInput, LevelCatalog, assert_level_available,
  replace_level, find_one, updated_role, updated_name, updated_number, updated_range, update,
}
use expentra.Approval.Levels.Rows.{OthersDiffer, found-OthersDiffer}
use expentra.Approval.Levels.Kept.{
  RoleFits, IsFormed, KeepsLevels, has_reference, found-by_reference, resolve_amount_range-le,
  resolve_role-RoleFits, available-OthersDiffer, replace-KeepsLevels,
}

-- The row that `update` saves.
abbrev changed :
    UpdateApprovalLevelInput → ApprovalLevel → Option ℕ → String → ℕ → ℕ × Option ℕ → ApprovalLevel
changed input l role name number range = record l {
  role_id = role;
  approver_type = or_else l.approver_type input.approver_type;
  name = name;
  level = number;
  minimum_amount = range.0;
  maximum_amount = range.1;
  is_active = or_else l.is_active input.is_active;
  description = elim input.description [ none ↦ l.description | some d ↦ map_option trim d ];
}

module _ (rt : Runtime) (number_text : ℕ → String) (db : Db) (l : ApprovalLevel)
    (formed : IsFormed db.roles l) (input : UpdateApprovalLevelInput) where
  updated_role-RoleFits :
      (role : Option ℕ)
      → updated_role rt l input db ≡ ok role
      → RoleFits db.roles (or_else l.approver_type input.approver_type) role
  unfolding updated_role
  updated_role-RoleFits role h =
      elim (Bool-cases (is_some input.role_reference || is_some input.approver_type)) [
        | inl given ↦
            resolve_role-RoleFits rt (or_else l.approver_type input.approver_type) _ db role
              (rw given at h)
        | inr absent ↦ elim (Option-cases input.approver_type) [
          | inl same ↦
              let kept : l.role_id ≡ role = ground arith in
              rw same (subst (RoleFits db.roles l.approver_type) kept formed.role)
          | inr (t, given) ↦ absurd (ground (arith, given))
        ]
      ]

  updated_name-named : (name : String) → updated_name l input.name ≡ ok name → is_empty name ≡ false
  unfolding updated_name
  updated_name-named name h = ground (arith, formed.named)

  updated_range-le :
      (range : ℕ × Option ℕ) (m : ℕ)
      → updated_range l input ≡ ok range
      → range.1 ≡ some m
      → range.0 ≤ m
  unfolding updated_range
  updated_range-le range m h e =
      elim (Bool-cases (is_some input.minimum_amount || is_some input.maximum_amount)) [
        | inl given ↦
            resolve_amount_range-le (some (or_else (pos l.minimum_amount) input.minimum_amount))
              (or_else (map_option pos l.maximum_amount) input.maximum_amount) range m
              (rw given at h) e
        | inr absent ↦ ground (arith, formed.range m)
      ]

  updated_number-OthersDiffer :
      (n : ℕ)
      → HasDistinct (λ x. x.level) db.levels
      → OthersDiffer l db.levels
      → updated_number number_text l input.level db.levels ≡ ok n
      → All (λ x. x.id ≢ l.id → x.level ≢ n) db.levels
  unfolding updated_number
  updated_number-OthersDiffer n u others h = elim (Option-cases input.level) [
    | inl absent ↦ moved (ground (arith, absent))
    | inr (m, given) ↦ elim (Bool-cases (m == l.level)) [
      | inl same ↦ moved (ground (arith, given))
      | inr other ↦
          let h1 = rw (given, other) at h in
          >>=-eq-ok-then (assert_level_available number_text m (λ x. x.id == l.id) db.levels) _ h1
            λ _ free h2.
              let e : m ≡ n = ground arith in
              subst (λ k. All (λ x. x.id ≢ l.id → x.level ≢ k) db.levels) e
                (available-OthersDiffer number_text (record l { level = m }) db.levels u free)
    ]
  ]
    where
      moved : l.level ≡ n → All (λ x. x.id ≢ l.id → x.level ≢ n) db.levels
      moved e = subst (λ k. All (λ x. x.id ≢ l.id → x.level ≢ k) db.levels) e others

pub update-KeepsLevels :
    (rt : Runtime) (number_text : ℕ → String) (reference : String)
    (input : UpdateApprovalLevelInput) (s s' : LevelCatalog) (l : ApprovalLevel)
    → update rt number_text reference input s ≡ ok (l, s')
    → KeepsLevels s.db
    → KeepsLevels s'.db
unfolding update find_one
update-KeepsLevels rt number_text reference input s s' l h k =
    >>=-eq-ok-then
      (find_entity_by_reference rt.to_upper (λ x. x.reference) s.db.levels reference
        "Approval level not found")
      _ h
      λ old found h1. >>=-eq-ok-then (updated_role rt old input s.db) _ h1 λ role given h2.
        >>=-eq-ok-then (updated_name old input.name) _ h2 λ name named h3.
          >>=-eq-ok-then (updated_number number_text old input.level s.db.levels) _ h3
            λ number free h4. >>=-eq-ok-then (updated_range old input) _ h4 λ range valid h5.
              let p = has_reference rt.to_upper (λ x. x.reference) reference in
              let at =
                found-by_reference rt.to_upper (λ x. x.reference) s.db.levels reference
                  "Approval level not found" old found in
              let formed = All-find (IsFormed s.db.roles) p s.db.levels k.formed at in
              let others = found-OthersDiffer p s.db.levels old k.numbers at in
              let e : s'.db ≡ record s.db {
                levels = replace_level (changed input old role name number range) s.db.levels;
              } =
                cc h5 in
              subst KeepsLevels (sym e) (
                replace-KeepsLevels s.db k (changed input old role name number range)
                  (updated_number-OthersDiffer rt number_text s.db old formed input number k.numbers
                    others free)
                  (record {
                    named = updated_name-named rt number_text s.db old formed input name named;
                    range =
                        λ m. updated_range-le rt number_text s.db old formed input range m valid;
                    role = updated_role-RoleFits rt number_text s.db old formed input role given;
                  }))
