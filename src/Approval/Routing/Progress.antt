-- ===== src/Approval/Routing/Progress.antt =====
-- The active stage, and how a chain moves from stage to stage.
use expentra.Prelude.{
  true, false, none, some, List, [], ◌∷◌, ◌++◌, ◌≡◌, ◌≢◌, ◌⊎◌, ◌==◌, ◌&&◌, inl, inr, refl, arith,
  All, Bool-cases, Option-cases, any, length, length-append, ap, ltb, subst, if◌then◌else◌,
}
use expentra.Prelude.Result.{ok}
use expentra.Store.Distinct.{HasDistinct}
use expentra.Entities.{ExpenseStatus, LoadedExpense, ApprovalLevel, ExpenseApproval}
use expentra.Approval.Routing.{
  get_required_levels, decision_at, is_approval, active_level, is_pending, get_active_stage,
  index_of, resolve_status_after_level_approval, prior_levels_complete,
  assert_prior_levels_complete, status_fits_index, assert_expense_status_for_stage,
  assert_ready_for_stage_approval, requires_approval_chain, resolve_initial_submit_status,
}

-- The stage has a decision, and the first one is an approval.
abbrev pub Approved : List ExpenseApproval → ApprovalLevel → Type 0
Approved approvals l =
    (a : ExpenseApproval) × (decision_at approvals l ≡ some a) × (is_approval a ≡ true)

abbrev pub Undecided : List ExpenseApproval → ApprovalLevel → Type 0
Undecided approvals l = decision_at approvals l ≡ none

-- No two of the levels have the same key.
abbrev pub HasUniqueKeys : List ApprovalLevel → Type 0
HasUniqueKeys = HasDistinct (λ l. l.id)

-- `ls` is `before` with `l` and `after` behind it; all of `before` is approved and `l` undecided.
pub record Reached (ls : List ApprovalLevel) (approvals : List ExpenseApproval) (l : ApprovalLevel)
    : Type 0 where
  pub before : List ApprovalLevel
  pub after : List ApprovalLevel
  pub split : ls ≡ before ++ l ∷ after
  pub approved : All (Approved approvals) before
  pub undecided : Undecided approvals l

pub active_level-Reached :
    (ls : List ApprovalLevel) (approvals : List ExpenseApproval) (l : ApprovalLevel)
    → active_level ls approvals ≡ some l
    → Reached ls approvals l
unfolding active_level
active_level-Reached [] approvals l h = cc
active_level-Reached (x ∷ xs) approvals l h = elim (Option-cases (decision_at approvals x)) [
  | inl n ↦
      let e : x ≡ l = cc (rw (n, active_level) at h) in
      record {
        before = [];
        after = xs;
        split = ap (λ v. v ∷ xs) e;
        approved = tt;
        undecided = subst (λ v. decision_at approvals v ≡ none) e n;
      }
  | inr (a, d) ↦ elim (Bool-cases (is_approval a)) [
    | inl yes_approved ↦
        let r = active_level-Reached xs approvals l (ground arith) in
        record {
          before = x ∷ r.before;
          after = r.after;
          split = ap (λ v. x ∷ v) r.split;
          approved = ((a, d, yes_approved), r.approved);
          undecided = r.undecided;
        }
    | inr refused ↦ absurd (ground arith)
  ]
]

module _ (approvals : List ExpenseApproval) where
  pub active_level-append :
      (before ls : List ApprovalLevel)
      → All (Approved approvals) before
      → active_level (before ++ ls) approvals ≡ active_level ls approvals
  unfolding active_level
  active_level-append [] ls h = refl
  active_level-append (x ∷ xs) ls ((a, d, y), h) = ground (arith, active_level-append xs ls h)

  -- The stage that is reached is the active one.
  pub Reached-active_level :
      (ls : List ApprovalLevel) (l : ApprovalLevel)
      → Reached ls approvals l
      → active_level ls approvals ≡ some l
  unfolding active_level
  Reached-active_level ls l r =
      rw r.split
        (rw (active_level-append r.before (l ∷ r.after) r.approved) (ground (arith, r.undecided)))

pub All-middle {ℓ κ} :
    {A : Type ℓ} (P : A → Type κ) (xs : List A) (x : A) (ys : List A) → All P (xs ++ x ∷ ys) → P x
All-middle P [] x ys h = h.0
All-middle P (z ∷ zs) x ys h = All-middle P zs x ys h.1

pub index_of-append :
    (l : ApprovalLevel) (before after : List ApprovalLevel)
    → HasUniqueKeys (before ++ l ∷ after)
    → index_of l (before ++ l ∷ after) ≡ some (length before)
unfolding index_of
index_of-append l [] after u = ground arith
index_of-append l (x ∷ xs) after (a, u) =
    ground (arith, All-middle (λ v. v.id ≢ x.id) xs l after a, index_of-append l xs after u)

any_of_find :
    (l : ApprovalLevel) (approvals : List ExpenseApproval)
    → Approved approvals l
    → any (λ a. a.approval_level_id == l.id && is_approval a) approvals ≡ true
any_of_find l [] (a, d, y) = cc
any_of_find l (x ∷ xs) (a, d, y) =
    ground (arith, λ (k : decision_at xs l ≡ some a). any_of_find l xs (a, k, y))

prior_levels_complete_of_Approved :
    (stage : ApprovalLevel) (approvals : List ExpenseApproval) (before rest : List ApprovalLevel)
    → All (Approved approvals) before
    → prior_levels_complete (length before) (before ++ rest) approvals stage ≡ ok tt
unfolding prior_levels_complete
prior_levels_complete_of_Approved stage approvals [] rest h = refl
prior_levels_complete_of_Approved stage approvals (x ∷ xs) rest (p, h) =
    rw (any_of_find x approvals p) (prior_levels_complete_of_Approved stage approvals xs rest h)

module _ (e : LoadedExpense) (levels : List ApprovalLevel) (approvals : List ExpenseApproval)
    (l : ApprovalLevel) (unique : HasUniqueKeys (get_required_levels e levels))
    (r : Reached (get_required_levels e levels) approvals l) where
  pub index_of-Reached : index_of l (get_required_levels e levels) ≡ some (length r.before)
  index_of-Reached =
      rw r.split (index_of-append l r.before r.after (subst HasUniqueKeys r.split unique))

  -- The stages before the active one are complete: this check never fails there.
  pub assert_prior_levels_complete-Reached :
      assert_prior_levels_complete l approvals levels e ≡ ok tt
  unfolding assert_prior_levels_complete
  assert_prior_levels_complete-Reached =
      rw (index_of-Reached, assert_prior_levels_complete)
        (rw r.split
          (prior_levels_complete_of_Approved l approvals r.before (l ∷ r.after) r.approved))

  -- After the approval of a stage the expense is approved if it was the last one, and else under
  -- review.
  pub resolve_status-Reached :
      resolve_status_after_level_approval l e levels
      ≡ (if length r.after == 0 then ExpenseStatus.approved else ExpenseStatus.under_review)
  unfolding resolve_status_after_level_approval
  resolve_status-Reached =
      ground (arith, index_of-Reached, ap length r.split, length-append r.before (l ∷ r.after))

  -- At the active stage only the status is left to check.
  pub assert_ready-Reached :
      is_pending e.row.status ≡ true
      → assert_ready_for_stage_approval l e levels approvals
        ≡ status_fits_index (length r.before) l e
  unfolding assert_ready_for_stage_approval get_active_stage assert_expense_status_for_stage
  assert_ready-Reached p = ground (
    arith,
    index_of-Reached,
    assert_prior_levels_complete-Reached,
    Reached-active_level approvals (get_required_levels e levels) l r,
  )

pub get_active_stage-pending :
    (e : LoadedExpense) (levels : List ApprovalLevel) (approvals : List ExpenseApproval)
    (l : ApprovalLevel)
    → get_active_stage e levels approvals ≡ some l
    → is_pending e.row.status ≡ true
unfolding get_active_stage
get_active_stage-pending e levels approvals l h = ground arith

pub resolve_status-cases :
    (l : ApprovalLevel) (e : LoadedExpense) (levels : List ApprovalLevel)
    → (resolve_status_after_level_approval l e levels ≡ ExpenseStatus.approved)
      ⊎ (resolve_status_after_level_approval l e levels ≡ ExpenseStatus.under_review)
unfolding resolve_status_after_level_approval
resolve_status-cases l e levels = ground arith

active_level-empty :
    (ls : List ApprovalLevel) (approvals : List ExpenseApproval)
    → ltb 0 (length ls) ≡ false
    → active_level ls approvals ≡ none
unfolding active_level
active_level-empty [] approvals h = refl
active_level-empty (l ∷ ls) approvals h = ground arith

pub get_active_stage-no_chain :
    (e : LoadedExpense) (levels : List ApprovalLevel) (approvals : List ExpenseApproval)
    → requires_approval_chain e levels ≡ false
    → get_active_stage e levels approvals ≡ none
unfolding get_active_stage requires_approval_chain
get_active_stage-no_chain e levels approvals h =
    ground (arith, active_level-empty (get_required_levels e levels) approvals h)

pub resolve_initial-cases :
    (e : LoadedExpense) (levels : List ApprovalLevel)
    → (resolve_initial_submit_status e levels ≡ ExpenseStatus.approved)
      ⊎ (resolve_initial_submit_status e levels ≡ ExpenseStatus.submitted)
      ⊎ (resolve_initial_submit_status e levels ≡ ExpenseStatus.under_review)
unfolding resolve_initial_submit_status
resolve_initial-cases e levels = ground arith
