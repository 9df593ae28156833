-- ===== src/Approval/Routing/Stranded.antt =====
-- What an approval leaves behind where later stages are approved already, as they are after the
-- levels were renumbered (`update` of approval-level.service.ts).
use expentra.Prelude.{true, none, List, [], ◌∷◌, ◌++◌, ◌≡◌, arith, refl, All, All-append}
use expentra.Entities.{ExpenseStatus, LoadedExpense, ApprovalLevel, ExpenseApproval}
use expentra.Approval.Routing.{
  get_required_levels, is_approval, active_level, get_active_stage,
  resolve_status_after_level_approval,
}
use expentra.Approval.Routing.Progress.{
  Approved, Undecided, HasUniqueKeys, Reached, resolve_status-Reached,
}
use expentra.Approval.Routing.Decisions.{All-Approved-append, decision_at-append_new}
use expentra.Approval.Routing.Liveness.{with_status, get_required_levels-with_status}

active_level-Approved :
    (ds : List ExpenseApproval) (ls : List ApprovalLevel)
    → All (Approved ds) ls
    → active_level ls ds ≡ none
unfolding active_level
active_level-Approved ds [] h = refl
active_level-Approved ds (x ∷ xs) ((a, d, y), h) = ground (arith, active_level-Approved ds xs h)

module _ (e : LoadedExpense) (levels : List ApprovalLevel) (approvals : List ExpenseApproval)
    (before : List ApprovalLevel) (l m : ApprovalLevel) (rest : List ApprovalLevel)
    (n : ExpenseApproval) (unique : HasUniqueKeys (get_required_levels e levels))
    (split : get_required_levels e levels ≡ before ++ l ∷ m ∷ rest)
    (done_before : All (Approved approvals) before) (undecided : Undecided approvals l)
    (done_after : All (Approved approvals) (m ∷ rest)) where
  -- Where the required levels have distinct keys, those before a level are approved, it has no
  -- decision, and the one or more levels behind it are approved already, its approval gives the
  -- status under review and leaves no active stage.
  pub approval_strands :
      n.approval_level_id ≡ l.id
      → is_approval n ≡ true
      → (resolve_status_after_level_approval l e levels ≡ ExpenseStatus.under_review)
        × (get_active_stage
              (with_status (resolve_status_after_level_approval l e levels) e)
              levels
              (approvals ++ n ∷ [])
            ≡ none)
  unfolding get_active_stage
  approval_strands here approves =
      let s = resolve_status_after_level_approval l e levels in
      let ds = approvals ++ n ∷ [] in
      let at_l : Reached (get_required_levels e levels) approvals l = record {
        before = before;
        after = m ∷ rest;
        split = split;
        approved = done_before;
        undecided = undecided;
      } in
      let reached = resolve_status-Reached e levels approvals l unique at_l in
      let now : Approved ds l =
        (n, decision_at-append_new n approvals l undecided here, approves) in
      let all_done =
        All-append (Approved ds) before (l ∷ m ∷ rest)
          (All-Approved-append n approvals before done_before)
          (now, All-Approved-append n approvals (m ∷ rest) done_after) in
      let nothing = active_level-Approved ds (before ++ l ∷ m ∷ rest) all_done in
      (
        ground (arith, reached),
        ground (arith, nothing, split, get_required_levels-with_status s e levels),
      )
