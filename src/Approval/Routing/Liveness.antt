-- ===== src/Approval/Routing/Liveness.antt =====
-- A submitted expense never gets stuck in its chain while the levels stay as they are.
use expentra.Prelude.{
  ℕ, zero, suc, true, none, some, List, [], ◌∷◌, ◌++◌, ◌≡◌, ◌≢◌, ◌==◌, refl, sym, ◌∙◌, arith, All,
  All-append, length, length-append, subst, if◌then◌else◌,
}
use mathlib.Core.List.{append_assoc}
use expentra.Prelude.Result.{ok}
use expentra.Entities.{
  ExpenseStatus, ApprovalApproverType, same_approver, LoadedExpense, ApprovalLevel, ExpenseApproval,
}
use expentra.Approval.Routing.{
  get_required_levels, is_required, level_applies_to_expense, should_skip_department_manager_stage,
  is_approval, is_pending, get_active_stage, status_fits_index, resolve_status_after_level_approval,
  assert_ready_for_stage_approval, resolve_initial_submit_status,
}
use expentra.Approval.Routing.Decisions.{
  All-Approved-append, All-Undecided-append, decision_at-append_new,
}
use expentra.Approval.Routing.Progress.{
  Approved, Undecided, HasUniqueKeys, Reached, Reached-active_level, resolve_status-Reached,
  assert_ready-Reached,
}

-- The status in which a submission leaves an expense whose first stage is `l`.
abbrev pub first_status : ApprovalLevel → ExpenseStatus
first_status l =
    if same_approver l.approver_type ApprovalApproverType.finance_manager
    then ExpenseStatus.under_review
    else ExpenseStatus.submitted

-- The chain stands at `l`: the stages before it are approved, it and the later ones are undecided,
-- and the status is the one of that position.
pub record OnTrack (e : LoadedExpense) (levels : List ApprovalLevel)
    (approvals : List ExpenseApproval) (before : List ApprovalLevel) (l : ApprovalLevel)
    (after : List ApprovalLevel) : Type 0 where
  pub split : get_required_levels e levels ≡ before ++ l ∷ after
  pub approved : All (Approved approvals) before
  pub undecided : Undecided approvals l
  pub later : All (Undecided approvals) after
  pub status :
      e.row.status ≡ (if length before == 0 then first_status l else ExpenseStatus.under_review)

abbrev pub with_status : ExpenseStatus → LoadedExpense → LoadedExpense
with_status s e = record e { row = record (e.row) { status = s } }

-- The routing of an expense does not look at its status.
pub get_required_levels-with_status :
    (s : ExpenseStatus) (e : LoadedExpense) (levels : List ApprovalLevel)
    → get_required_levels (with_status s e) levels ≡ get_required_levels e levels
unfolding get_required_levels is_required level_applies_to_expense
    should_skip_department_manager_stage
get_required_levels-with_status s e levels = refl

module _ (e : LoadedExpense) (levels : List ApprovalLevel) (approvals : List ExpenseApproval)
    (before : List ApprovalLevel) (l : ApprovalLevel) (after : List ApprovalLevel)
    (unique : HasUniqueKeys (get_required_levels e levels))
    (t : OnTrack e levels approvals before l after) where
  reached : Reached (get_required_levels e levels) approvals l
  reached = record {
    before = before;
    after = after;
    split = t.split;
    approved = t.approved;
    undecided = t.undecided;
  }

  -- Where the required levels have distinct keys, those before a level are approved, it and the
  -- later ones have no decision, and the status is the one of that position, the level is the
  -- active stage and the checks before an approval of it pass.
  pub OnTrack-ready :
      (get_active_stage e levels approvals ≡ some l)
      × (assert_ready_for_stage_approval l e levels approvals ≡ ok tt)
  unfolding get_active_stage status_fits_index reached
  OnTrack-ready =
      let active = Reached-active_level approvals (get_required_levels e levels) l reached in
      let pending : is_pending e.row.status ≡ true = ground (arith, t.status) in
      let ready = assert_ready-Reached e levels approvals l unique reached pending in
      (ground (arith, active, t.status), ground (arith, ready, t.status))

  abbrev decided : LoadedExpense
  decided = with_status (resolve_status_after_level_approval l e levels) e

  decided-status :
      decided.row.status
      ≡ (if length after == 0 then ExpenseStatus.approved else ExpenseStatus.under_review)
  unfolding reached
  decided-status = resolve_status-Reached e levels approvals l unique reached

unique_after :
    (before : List ApprovalLevel) (l : ApprovalLevel) (after : List ApprovalLevel)
    → HasUniqueKeys (before ++ l ∷ after)
    → All (λ x. x.id ≢ l.id) after
unique_after [] l after u = u.0
unique_after (x ∷ xs) l after u = unique_after xs l after u.1

-- An approval at the stage moves the chain to the next one.
advance :
    (e : LoadedExpense) (levels : List ApprovalLevel) (approvals : List ExpenseApproval)
    (before : List ApprovalLevel) (l l' : ApprovalLevel) (rest : List ApprovalLevel)
    (n : ExpenseApproval)
    → HasUniqueKeys (get_required_levels e levels)
    → (t : OnTrack e levels approvals before l (l' ∷ rest)) → n.approval_level_id ≡ l.id
    → is_approval n ≡ true
    → OnTrack
        (with_status (resolve_status_after_level_approval l e levels) e)
        levels
        (approvals ++ n ∷ [])
        (before ++ l ∷ [])
        l'
        rest
advance e levels approvals before l l' rest n unique t here yes_approved =
    let others = unique_after before l (l' ∷ rest) (subst HasUniqueKeys t.split unique) in
    let others' = subst (λ i. All (λ x. x.id ≢ i) (l' ∷ rest)) (sym here) others in
    let later = All-Undecided-append n approvals (l' ∷ rest) others' t.later in
    record {
      split =
          get_required_levels-with_status (resolve_status_after_level_approval l e levels) e levels
          ∙ t.split
          ∙ sym (append_assoc before (l ∷ []) (l' ∷ rest));
      approved =
          All-append (Approved (approvals ++ n ∷ [])) before (l ∷ [])
            (All-Approved-append n approvals before t.approved)
            ((n, decision_at-append_new n approvals l t.undecided here, yes_approved), tt);
      undecided = later.0;
      later = later.1;
      status = ground (
        arith,
        decided-status e levels approvals before l (l' ∷ rest) unique t,
        length-append before (l ∷ []),
      );
    }

-- Approvals at the active stage, one after the other: each with the routing of
-- `ApprovalService.approve`, `decide` giving the row that it stores.
pub approve_stages :
    (ApprovalLevel → ExpenseApproval)
    → List ApprovalLevel
    → ℕ
    → LoadedExpense
    → List ExpenseApproval
    → LoadedExpense
approve_stages decide levels zero e approvals = e
approve_stages decide levels (suc k) e approvals = elim (get_active_stage e levels approvals) [
  | none ↦ e
  | some l ↦
      approve_stages decide levels k
        (with_status (resolve_status_after_level_approval l e levels) e)
        (approvals ++ decide l ∷ [])
]

nothing_decided : (ls : List ApprovalLevel) → All (Undecided []) ls
nothing_decided [] = tt
nothing_decided (l ∷ ls) = (refl, nothing_decided ls)

module _ (decide : ApprovalLevel → ExpenseApproval) (levels : List ApprovalLevel)
    (at_stage : (l : ApprovalLevel) → (decide l).approval_level_id ≡ l.id)
    (approves : (l : ApprovalLevel) → is_approval (decide l) ≡ true) where
  approve_stages-OnTrack :
      (after before : List ApprovalLevel) (l : ApprovalLevel) (e : LoadedExpense)
      (approvals : List ExpenseApproval)
      → HasUniqueKeys (get_required_levels e levels)
      → OnTrack e levels approvals before l after
      → (approve_stages decide levels (suc (length after)) e approvals).row.status
        ≡ ExpenseStatus.approved
  unfolding approve_stages
  approve_stages-OnTrack [] before l e approvals unique t =
      let ready = OnTrack-ready e levels approvals before l [] unique t in
      rw (ready.0, approve_stages) (decided-status e levels approvals before l [] unique t)
  approve_stages-OnTrack (l' ∷ rest) before l e approvals unique t =
      let ready = OnTrack-ready e levels approvals before l (l' ∷ rest) unique t in
      let s = resolve_status_after_level_approval l e levels in
      rw (ready.0, approve_stages)
        (approve_stages-OnTrack rest (before ++ l ∷ []) l' (with_status s e)
          (approvals ++ decide l ∷ [])
          (subst HasUniqueKeys (sym (get_required_levels-with_status s e levels)) unique)
          (advance e levels approvals before l l' rest (decide l) unique t (at_stage l)
            (approves l)))

  -- An expense with the status that a submission gives it and no decision yet, whose required
  -- levels have distinct keys, is approved once every required level, in turn, is given an approval
  -- at the active stage; as many approvals suffice as there are required levels.
  pub approve_stages-submitted :
      (e : LoadedExpense)
      → HasUniqueKeys (get_required_levels e levels)
      → e.row.status ≡ resolve_initial_submit_status e levels
      → (approve_stages decide levels (length (get_required_levels e levels)) e []).row.status
        ≡ ExpenseStatus.approved
  unfolding approve_stages resolve_initial_submit_status
  approve_stages-submitted e unique h = go (get_required_levels e levels) refl
    where
      go :
          (required : List ApprovalLevel)
          → get_required_levels e levels ≡ required
          → (approve_stages decide levels (length required) e []).row.status
            ≡ ExpenseStatus.approved
      go [] q = ground (arith, q, h)
      go (l ∷ rest) q = approve_stages-OnTrack rest [] l e [] unique (record {
        split = q;
        approved = tt;
        undecided = refl;
        later = nothing_decided rest;
        status = ground (arith, q, h);
      })
