-- ===== src/Approval/Routing/Order.antt =====
-- The required levels: which they are, and in which order.
use expentra.Prelude.{
  ℕ, ◌≤◌, true, List, [], ◌∷◌, ◌≡◌, ◌↔◌, some, inl, inr, arith, All, Bool-cases, Option-cases, leb,
  filter,
}
use mathlib.Core.List.{Perm}
use mathlib.Core.List.Perm
use expentra.Entities.{
  ApprovalLevel, ApprovalApproverType, same_approver, Department, LoadedExpense,
}
use expentra.Approval.Routing.{
  insert_level, sort_levels, is_required, get_required_levels, level_applies_to_expense,
  should_skip_department_manager_stage,
}

-- Each level stands before those of a higher number.
abbrev pub IsOrdered : List ApprovalLevel → Type 0
IsOrdered [] = Unit
IsOrdered (l ∷ ls) = All (λ x. l.level ≤ x.level) ls × IsOrdered ls

insert_level-perm :
    (l : ApprovalLevel) (ls : List ApprovalLevel) → Perm (insert_level l ls) (l ∷ ls)
unfolding insert_level
insert_level-perm l [] = Perm.refl _
insert_level-perm l (x ∷ xs) = elim (Bool-cases (leb l.level x.level)) [
  | inl h ↦ rw h (Perm.refl _)
  | inr h ↦ rw h (Perm.trans (Perm.cons x (insert_level-perm l xs)) (Perm.swap l x xs))
]

sort_levels-perm : (ls : List ApprovalLevel) → Perm (sort_levels ls) ls
unfolding sort_levels
sort_levels-perm [] = Perm.refl _
sort_levels-perm (l ∷ ls) =
    Perm.trans (insert_level-perm l (sort_levels ls)) (Perm.cons l (sort_levels-perm ls))

module _ (n : ℕ) where
  abbrev AtLeast : List ApprovalLevel → Type 0
  AtLeast = All (λ x. n ≤ x.level)

  insert_level-AtLeast :
      (l : ApprovalLevel) (ls : List ApprovalLevel)
      → n ≤ l.level
      → AtLeast ls
      → AtLeast (insert_level l ls)
  unfolding insert_level
  insert_level-AtLeast l [] h a = (h, tt)
  insert_level-AtLeast l (x ∷ xs) h (k, a) = ground (arith, insert_level-AtLeast l xs h a)

AtLeast-le : (m n : ℕ) (ls : List ApprovalLevel) → m ≤ n → AtLeast n ls → AtLeast m ls
AtLeast-le m n [] h a = tt
AtLeast-le m n (x ∷ xs) h (k, a) = (omega arith, AtLeast-le m n xs h a)

insert_level-IsOrdered :
    (l : ApprovalLevel) (ls : List ApprovalLevel) → IsOrdered ls → IsOrdered (insert_level l ls)
unfolding insert_level
insert_level-IsOrdered l [] o = (tt, tt)
insert_level-IsOrdered l (x ∷ xs) (a, o) = elim (Bool-cases (leb l.level x.level)) [
  | inl h ↦
      let le : l.level ≤ x.level = ground arith in
      rw h ((le, AtLeast-le l.level x.level xs le a), (a, o))
  | inr h ↦ rw h (insert_level-AtLeast x.level l xs (ground arith) a, insert_level-IsOrdered l xs o)
]

sort_levels-IsOrdered : (ls : List ApprovalLevel) → IsOrdered (sort_levels ls)
unfolding sort_levels
sort_levels-IsOrdered [] = tt
sort_levels-IsOrdered (l ∷ ls) =
    insert_level-IsOrdered l (sort_levels ls) (sort_levels-IsOrdered ls)

-- The level is active, the amount lies in its range, and it is not the department manager's stage
-- of an expense whose owner is that manager.
abbrev pub AppliesTo : LoadedExpense → ApprovalLevel → Type 0
AppliesTo e l =
    (l.is_active ≡ true)
    × (l.minimum_amount ≤ e.row.amount)
    × ((most : ℕ) → l.maximum_amount ≡ some most → e.row.amount ≤ most)
    × ¬ (
        (l.approver_type ≡ ApprovalApproverType.department_manager)
        × (d : Department) × (e.department ≡ some d)
        × (d.manager_id ≡ some e.row.user_id))

range_iff :
    (l : ApprovalLevel) (amount : ℕ)
    → (level_applies_to_expense l amount ≡ true)
      ↔ ((l.minimum_amount ≤ amount) × ((most : ℕ) → l.maximum_amount ≡ some most → amount ≤ most))
unfolding level_applies_to_expense
range_iff l amount = (
  λ h. (ground arith, λ most e. ground arith),
  λ (h, k). elim (Option-cases l.maximum_amount) [
    | inl e ↦ ground arith
    | inr (most, e) ↦ ground (arith, k most e)
  ],
)

skip_iff :
    (e : LoadedExpense)
    → (should_skip_department_manager_stage e ≡ true)
      ↔ ((d : Department) × (e.department ≡ some d) × (d.manager_id ≡ some e.row.user_id))
unfolding should_skip_department_manager_stage
skip_iff e = (
  λ h. elim (Option-cases e.department) [
    | inl n ↦ absurd (ground arith)
    | inr (d, p) ↦ (d, p, ground arith)
  ],
  λ (d, p, q). ground arith,
)

is_required_iff : (e : LoadedExpense) (l : ApprovalLevel) → (is_required e l ≡ true) ↔ AppliesTo e l
unfolding is_required
is_required_iff e l =
    let range = range_iff l e.row.amount in
    let skip = skip_iff e in
    (
      λ h.
          let fits = range.0 (ground arith) in
          (ground arith, fits.0, fits.1, λ m. ground (arith, m.0, skip.1 (m.1, m.2, m.3))),
      λ (a, lo, hi, n).
          let fits = range.1 (lo, hi) in
          elim (Bool-cases (should_skip_department_manager_stage e)) [
            | inl s ↦
                let (d, p, q) = skip.0 s in
                elim (Bool-cases
                  (same_approver l.approver_type ApprovalApproverType.department_manager)) [
                    | inl t ↦ absurd (n (ground arith, d, p, q))
                    | inr t ↦ ground arith
                  ]
            | inr s ↦ ground arith
          ],
    )

-- The required levels of an expense are in the order of their numbers and are, up to that order,
-- the given levels that are required, which are those that are active, whose range of amounts holds
-- the amount, and that are no department manager's level of an expense of that manager.
pub get_required_levels-IsOrdered_perm :
    (e : LoadedExpense) (levels : List ApprovalLevel)
    → IsOrdered (get_required_levels e levels)
      × Perm (get_required_levels e levels) (filter (is_required e) levels)
      × ((l : ApprovalLevel) → (is_required e l ≡ true) ↔ AppliesTo e l)
unfolding get_required_levels
get_required_levels-IsOrdered_perm e levels =
    (sort_levels-IsOrdered (filter (is_required e) levels), sort_levels-perm _, is_required_iff e)
