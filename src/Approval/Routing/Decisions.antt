-- ===== src/Approval/Routing/Decisions.antt =====
-- What a further decision changes in the look-up of decisions.
use expentra.Prelude.{none, some, List, [], ◌∷◌, ◌++◌, ◌≡◌, ◌≢◌, sym, arith, All}
use expentra.Entities.{ApprovalLevel, ExpenseApproval}
use expentra.Approval.Routing.{decision_at}
use expentra.Approval.Routing.Progress.{Approved, Undecided}

module _ (n : ExpenseApproval) where
  pub decision_at-append_hit :
      (ds : List ExpenseApproval) (x : ApprovalLevel) (a : ExpenseApproval)
      → decision_at ds x ≡ some a
      → decision_at (ds ++ n ∷ []) x ≡ some a
  decision_at-append_hit [] x a h = cc
  decision_at-append_hit (y ∷ ys) x a h = ground (arith, decision_at-append_hit ys x a)

  pub decision_at-append_miss :
      (ds : List ExpenseApproval) (x : ApprovalLevel)
      → decision_at ds x ≡ none
      → n.approval_level_id ≢ x.id
      → decision_at (ds ++ n ∷ []) x ≡ none
  decision_at-append_miss [] x h k = ground arith
  decision_at-append_miss (y ∷ ys) x h k = ground (arith, decision_at-append_miss ys x)

  pub decision_at-append_new :
      (ds : List ExpenseApproval) (x : ApprovalLevel)
      → decision_at ds x ≡ none
      → n.approval_level_id ≡ x.id
      → decision_at (ds ++ n ∷ []) x ≡ some n
  decision_at-append_new [] x h k = ground arith
  decision_at-append_new (y ∷ ys) x h k = ground (arith, decision_at-append_new ys x)

  pub All-Approved-append :
      (ds : List ExpenseApproval) (ls : List ApprovalLevel)
      → All (Approved ds) ls
      → All (Approved (ds ++ n ∷ [])) ls
  All-Approved-append ds [] h = tt
  All-Approved-append ds (x ∷ xs) ((a, d, y), h) =
      ((a, decision_at-append_hit ds x a d, y), All-Approved-append ds xs h)

  pub All-Undecided-append :
      (ds : List ExpenseApproval) (ls : List ApprovalLevel)
      → All (λ x. x.id ≢ n.approval_level_id) ls
      → All (Undecided ds) ls
      → All (Undecided (ds ++ n ∷ [])) ls
  All-Undecided-append ds [] u h = tt
  All-Undecided-append ds (x ∷ xs) (k, u) (d, h) =
      (decision_at-append_miss ds x d (λ q. k (sym q)), All-Undecided-append ds xs u h)
