-- ===== src/Expense/Submit/Stored.antt =====
-- What a submission leaves in the tables, beside the draft that was there.
use expentra.Prelude.{
  false, some, none, [], ◌≡◌, ◌≢◌, ◌≤◌, refl, arith, subst, sym, String, is_empty, trim, ◌∙◌,
  Option-cases, List, ◌∷◌, ℕ, ◌⊎◌, inl, inr, truthy_id, ap,
}
use expentra.Prelude.Result.{Result, ok}
use expentra.Entities.{ApprovalApproverType, ExpenseStatus, Expense, LoadedExpense, ApprovalLevel}
use expentra.Store.{find_user, Db, find_expense, saved_row, saved_column, publish}
use expentra.Runtime.{Runtime}
use expentra.Authorization.Types.{AuthUser}
use expentra.Authorization.Policy.{assert_can_mutate_expense_draft}
use expentra.Authorization.Access.{can_mutate_expense_draft}
use expentra.Approval.Routing.{
  get_required_levels, requires_approval_chain, resolve_initial_submit_status, is_required,
  level_applies_to_expense, should_skip_department_manager_stage,
}
use expentra.Approval.Decision.{join_expense, load_active_levels, save_and_sync}
use expentra.Approval.Decision.Books.{find-save_and_sync, find_expense-frame}
use expentra.Expense.Support.{
  PolicyEvaluationContext, find_one, build_submit_policy_context, load_expense_for_mutation,
  assert_draft_status, assert_non_empty_title, assert_positive_amount,
}
use expentra.Expense.Support.Loading.{load_expense_for_mutation-found}
use expentra.Expense.Submit.{
  submission_context, submit, assign_department, with_active_department, assert_submittable,
  submitted_expense, publish_submission, publish_budget_impact, complete_submission,
}
use expentra.Expense.Submit.Outcome.{Submits, submit-returned, truthy_id-some}

-- What makes a draft one that its owner may submit.
pub record IsSubmittable (u : AuthUser) (e : Expense) : Type 0 where
  pub own : e.user_id ≡ u.id
  pub is_draft : e.status ≡ ExpenseStatus.draft
  pub titled : is_empty (trim e.title) ≡ false
  pub positive : 1 ≤ e.amount

assert_submittable-IsSubmittable :
    (rt : Runtime) (u : AuthUser) (e : Expense)
    → assert_submittable rt u e ≡ ok tt
    → IsSubmittable u e
unfolding assert_submittable assert_can_mutate_expense_draft assert_draft_status
    assert_non_empty_title assert_positive_amount can_mutate_expense_draft
assert_submittable-IsSubmittable rt u e h = record {
  own = ground arith;
  is_draft = ground arith;
  titled = ground arith;
  positive = ground arith;
}

-- `e` is `draft` with a department.
record HasDepartment (draft e : Expense) : Type 0 where
  department : (d : ℕ) × (e.department_id ≡ some d) × (d ≢ 0)
  same_id : e.id ≡ draft.id
  same_amount : e.amount ≡ draft.amount
  same_rejected : e.rejected_at ≡ draft.rejected_at

assign_department-HasDepartment :
    (draft e : Expense) (db : Db) → assign_department draft db ≡ ok e → HasDepartment draft e
unfolding assign_department
assign_department-HasDepartment draft e db h = elim (Option-cases (truthy_id draft.department_id)) [
  | inl lacking ↦ elim (Option-cases (find_user db draft.user_id)) [
    | inl nobody ↦ absurd (ground arith)
    | inr (owner, known) ↦ elim (Option-cases (truthy_id owner.department_id)) [
      | inl homeless ↦ absurd (ground arith)
      | inr (d, dep) ↦ record {
        department = (d, ground arith, (truthy_id-some owner.department_id d dep).1);
        same_id = ground arith;
        same_amount = ground arith;
        same_rejected = ground arith;
      }
    ]
  ]
  | inr (d, dep) ↦
      let own = truthy_id-some draft.department_id d dep in
      record {
        department = (d, ground (arith, own), own.1);
        same_id = ground arith;
        same_amount = ground arith;
        same_rejected = ground arith;
      }
]

-- The first of the levels that an expense needs, and the status that it waits in.
pub data Routed (levels : List ApprovalLevel) (status : ExpenseStatus) : Type 0 where
  at_once : levels ≡ [] → status ≡ ExpenseStatus.approved → Routed levels status
  to_manager :
      (first : ApprovalLevel) (rest : List ApprovalLevel)
      → levels ≡ first ∷ rest
      → first.approver_type ≡ ApprovalApproverType.department_manager
      → status ≡ ExpenseStatus.submitted
      → Routed levels status
  to_finance :
      (first : ApprovalLevel) (rest : List ApprovalLevel)
      → levels ≡ first ∷ rest
      → first.approver_type ≡ ApprovalApproverType.finance_manager
      → status ≡ ExpenseStatus.under_review
      → Routed levels status

approver-cases :
    (a : ApprovalApproverType)
    → (a ≡ ApprovalApproverType.department_manager) ⊎ (a ≡ ApprovalApproverType.finance_manager)
approver-cases ApprovalApproverType.department_manager = inl refl
approver-cases ApprovalApproverType.finance_manager = inr refl

levels-cases :
    (levels : List ApprovalLevel)
    → (levels ≡ [])
      ⊎ ((first : ApprovalLevel) × (rest : List ApprovalLevel) × (levels ≡ first ∷ rest))
levels-cases [] = inl refl
levels-cases (l ∷ ls) = inr (l, ls, refl)

-- The levels that the submitted expense needs are those that the draft needs.
required-submitted :
    (rt : Runtime) (e : Expense) (levels : List ApprovalLevel) (t : ℕ) (db : Db)
    → get_required_levels
        (with_active_department (submitted_expense rt (with_active_department e db) levels t) db)
        levels
      ≡ get_required_levels (with_active_department e db) levels
unfolding get_required_levels is_required level_applies_to_expense
    should_skip_department_manager_stage with_active_department submitted_expense
required-submitted rt e levels t db = refl

submitted-Routed :
    (rt : Runtime) (e : LoadedExpense) (levels : List ApprovalLevel) (t : ℕ)
    → Routed (get_required_levels e levels) (submitted_expense rt e levels t).status
unfolding submitted_expense requires_approval_chain resolve_initial_submit_status
submitted-Routed rt e levels t = elim (levels-cases (get_required_levels e levels)) [
  | inl nothing ↦ Routed.at_once nothing (ground (arith, nothing))
  | inr (first, rest, needs) ↦ elim (approver-cases first.approver_type) [
    | inl manager ↦ Routed.to_manager first rest needs manager (ground (arith, needs, manager))
    | inr finance ↦ Routed.to_finance first rest needs finance (ground (arith, needs, finance))
  ]
]

-- What a submission found and left: the stored draft that it is about, the row that is stored
-- after it, and the expense that it returned.
pub record Submission (rt : Runtime) (u : AuthUser) (db : Db) (saved : Expense) (db' : Db)
    : Type 0 where
  pub draft : Expense
  pub row : Expense
  pub found : find_expense db saved.id ≡ some draft
  pub submittable : IsSubmittable u draft
  pub department : (d : ℕ) × (saved.department_id ≡ some d) × (d ≢ 0)
  pub same_amount : saved.amount ≡ draft.amount
  pub time : saved.submitted_at ≡ some (elim draft.submitted_at [ none ↦ rt.now | some t ↦ t ])
  pub routed :
      Routed
        (get_required_levels (with_active_department saved db) (load_active_levels db))
        saved.status
  pub stored : find_expense db' saved.id ≡ some row
  pub stored_status : row.status ≡ saved.status
  pub stored_time : row.submitted_at ≡ saved.submitted_at
  pub stored_amount : row.amount ≡ draft.amount
  pub stored_rejection : row.rejected_at ≡ draft.rejected_at

module _ (rt : Runtime) (u : AuthUser) (reference : String) (db db' : Db) where
  -- The row that is stored.
  Submits-stored :
      (t : ℕ) (saved : Expense)
      → (s : Submits rt u reference t db saved db') → find_expense db saved.id ≡ some s.locked
      → find_expense db' saved.id ≡ some (saved_row s.locked saved)
  unfolding complete_submission publish_submission publish_budget_impact publish submitted_expense
      with_active_department
  Submits-stored t saved s =
      let e = with_active_department s.assigned db in
      let after = submitted_expense rt e (load_active_levels db) t in
      let synced = save_and_sync rt s.assigned after db in
      subst
        (λ v.
          find_expense db v.id ≡ some s.locked
          → find_expense db' v.id ≡ some (saved_row s.locked v))
        (sym s.becomes)
        λ found.
          find_expense-frame synced db' after.id (saved_row s.locked after)
            (ground (arith, s.written)) (find-save_and_sync rt s.assigned after s.locked db found)

  -- The time of a submission is that of the draft it loads.
  submission_context-time :
      (assert_compliant : PolicyEvaluationContext → Db → Result (Unit {0}))
      (context : PolicyEvaluationContext) (draft : Expense)
      → submission_context rt assert_compliant u reference db ≡ ok context
      → load_expense_for_mutation rt reference db ≡ ok draft
      → context.submitted_at ≡ (elim draft.submitted_at [ none ↦ rt.now | some t ↦ t ])
  unfolding submission_context find_one build_submit_policy_context join_expense
  submission_context-time assert_compliant context draft h loaded = ground (arith, loaded)

  -- A submission that returns was of the caller's own stored draft, which has a title that is not
  -- blank and a positive amount. What it returns has that key and amount, a department, the time of
  -- submission that the draft has or else the current one, and the status approved where the active
  -- levels ask for no approval, submitted where the first that is needed is a manager's, and under
  -- review where it is finance's. Its key then finds a row with that status, time and amount, and
  -- with the time of rejection that the draft had.
  pub submit-Submission :
      (assert_compliant : PolicyEvaluationContext → Db → Result (Unit {0})) (saved : Expense)
      → submit rt assert_compliant u reference db ≡ (ok saved, db')
      → Submission rt u db saved db'
  unfolding saved_row submitted_expense with_active_department
  submit-Submission assert_compliant saved h =
      let (context, passed, compliant, s) =
        submit-returned rt assert_compliant u reference db db' saved h in
      let levels = load_active_levels db in
      let t = context.submitted_at in
      let e = with_active_department s.assigned db in
      let w = assign_department-HasDepartment s.locked s.assigned db s.has_department in
      let same : saved.id ≡ s.locked.id = cc (s.becomes, w.same_id) in
      let found : find_expense db saved.id ≡ some s.locked =
        subst (λ i. find_expense db i ≡ some s.locked) (sym same)
          (load_expense_for_mutation-found rt reference db s.locked s.loaded) in
      let (d, has, positive) = w.department in
      let time : saved.submitted_at
          ≡ some (elim s.locked.submitted_at [ none ↦ rt.now | some t ↦ t ]) =
        ap (λ v. v.submitted_at) s.becomes
        ∙ ap some (submission_context-time assert_compliant context s.locked passed s.loaded) in
      record {
        draft = s.locked;
        row = saved_row s.locked saved;
        found = found;
        submittable = assert_submittable-IsSubmittable rt u s.locked s.submittable;
        department = (d, ap (λ v. v.department_id) s.becomes ∙ has, positive);
        same_amount = ap (λ v. v.amount) s.becomes ∙ w.same_amount;
        time = time;
        routed =
            subst (λ v. Routed (get_required_levels (with_active_department v db) levels) v.status)
              (sym s.becomes)
              (subst (λ needs. Routed needs (submitted_expense rt e levels t).status)
                (sym (required-submitted rt s.assigned levels t db))
                (submitted-Routed rt e levels t));
        stored = Submits-stored t saved s found;
        stored_status = refl;
        stored_time = ap (saved_column s.locked.submitted_at) time ∙ sym time;
        stored_amount = ap (λ v. v.amount) s.becomes ∙ w.same_amount;
        stored_rejection = ap (λ v. saved_column s.locked.rejected_at v.rejected_at) s.becomes;
      }
