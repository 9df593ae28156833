-- ===== src/Expense/Submit/Outcome.antt =====
-- The outcome of a submission, on every branch.
use expentra.Prelude.{
  ℕ, true, false, Option, some, List, ◌≡◌, ◌≢◌, ◌⊎◌, inl, inr, refl, arith, subst, sym, String, ◌∙◌,
  Option-cases, truthy_id,
}
use expentra.Prelude.Result.{Exception, Result, ok, err, throw_if, >>=-eq-ok-then, Result-cases}
use expentra.Entities.{ExpenseStatus, Expense, LoadedExpense, ApprovalLevel}
use expentra.Store.{Db, transaction, find_expense, find_user, save_expense, publish}
use expentra.Runtime.{Runtime}
use expentra.Authorization.Types.{AuthUser}
use expentra.Budget.Sync.{to_expense_budget_snapshot}
use expentra.Budget.Sync.Transition.{IsTransition, in_ledger_lem, sync-draft}
use expentra.Budget.Evaluation.{BudgetSubmitEvaluation, evaluate_expense_submit}
use expentra.Budget.Books.{KeepsBooks, save-sync-KeepsBooks}
use expentra.Approval.Routing.Progress.{resolve_initial-cases}
use expentra.Approval.Decision.{load_active_levels, save_and_sync}
use expentra.Approval.Decision.Books.{KeepsBooks-frame}
use expentra.Expense.Support.{
  PolicyEvaluationContext, find_one, build_submit_policy_context, load_expense_for_mutation,
  assert_draft_status,
}
use expentra.Expense.Support.Loading.{load_expense_for_mutation-found}
use expentra.Expense.Submit.{
  submission_context, submit, assign_department, with_active_department, manager_is_missing,
  assert_submittable, submitted_expense, publish_submission, publish_budget_impact,
  complete_submission, submit_in_transaction,
}

-- `e` is `old` with a department.
record Assigned (old e : Expense) : Type 0 where
  department : (d : ℕ) × (e.department_id ≡ some d) × (d ≢ 0)
  same_id : e.id ≡ old.id
  same_status_as : e.status ≡ old.status

pub truthy_id-some : (o : Option ℕ) (d : ℕ) → truthy_id o ≡ some d → (o ≡ some d) × (d ≢ 0)
truthy_id-some o d h = ground arith

assign_department-Assigned :
    (old e : Expense) (db : Db) → assign_department old db ≡ ok e → Assigned old e
unfolding assign_department
assign_department-Assigned old e db h = elim (Option-cases (truthy_id old.department_id)) [
  | inl lacking ↦ elim (Option-cases (find_user db old.user_id)) [
    | inl nobody ↦ absurd (ground arith)
    | inr (owner, known) ↦ elim (Option-cases (truthy_id owner.department_id)) [
      | inl homeless ↦ absurd (ground arith)
      | inr (d, dep) ↦ record {
        department = (d, ground arith, (truthy_id-some owner.department_id d dep).1);
        same_id = ground arith;
        same_status_as = ground arith;
      }
    ]
  ]
  | inr (d, dep) ↦ record {
    department = (
      d,
      ground (arith, truthy_id-some old.department_id d dep),
      (truthy_id-some old.department_id d dep).1,
    );
    same_id = ground arith;
    same_status_as = ground arith;
  }
]

-- The first status of a submitted expense.
submitted-status :
    (rt : Runtime) (e : LoadedExpense) (levels : List ApprovalLevel) (t : ℕ)
    → ((submitted_expense rt e levels t).status ≡ ExpenseStatus.approved)
      ⊎ ((submitted_expense rt e levels t).status ≡ ExpenseStatus.submitted)
      ⊎ ((submitted_expense rt e levels t).status ≡ ExpenseStatus.under_review)
unfolding submitted_expense
submitted-status rt e levels t = ground (arith, resolve_initial-cases e levels)

-- What a submission that returned has found and written: `saved` is the draft of the reference, with
-- a department, submitted at `t`.
pub record Submits (rt : Runtime) (u : AuthUser) (reference : String) (t : ℕ) (db : Db)
    (saved : Expense) (db' : Db) : Type 0 where
  pub locked : Expense
  pub assigned : Expense
  pub check : BudgetSubmitEvaluation
  pub loaded : load_expense_for_mutation rt reference db ≡ ok locked
  pub submittable : assert_submittable rt u locked ≡ ok tt
  pub has_department : assign_department locked db ≡ ok assigned
  pub has_manager :
      manager_is_missing (with_active_department assigned db) (load_active_levels db) ≡ false
  pub evaluated :
      evaluate_expense_submit rt u.id assigned.amount t assigned.department_id db ≡ ok check
  pub within_budget : check.allowed ≡ true
  pub becomes :
      saved ≡ submitted_expense rt (with_active_department assigned db) (load_active_levels db) t
  pub written :
      db'
      ≡ complete_submission rt u
          (with_active_department assigned db)
          (load_active_levels db)
          t
          check
          db

assert_submittable-draft :
    (rt : Runtime) (u : AuthUser) (e : Expense)
    → assert_submittable rt u e ≡ ok tt
    → e.status ≡ ExpenseStatus.draft
unfolding assert_submittable assert_draft_status
assert_submittable-draft rt u e h = ground arith

-- A draft that enters the ledger.
submitted-IsTransition :
    (old e : Expense) (d t : ℕ)
    → old.status ≡ ExpenseStatus.draft
    → e.status ≢ ExpenseStatus.reimbursed
    → e.department_id ≡ some d
    → d ≢ 0
    → e.submitted_at ≡ some t
    → IsTransition (to_expense_budget_snapshot old) (to_expense_budget_snapshot e)
unfolding to_expense_budget_snapshot
submitted-IsTransition old e d t draft unpaid dep positive time = record {
  attributed_before = inl (rw draft (in_ledger_lem ExpenseStatus.draft));
  attributed_after = inr (d, t, dep, positive, time);
  not_reimbursed = ground arith;
  from_approved = λ h. absurd (unpaid h);
  same_department = λ h. absurd (unpaid h);
  same_time = λ h. absurd (unpaid h);
  same_amount = λ h. absurd (unpaid h);
}

-- The sync reads nothing of a draft but its status.
save_and_sync-drafts :
    (rt : Runtime) (a b e : Expense) (db : Db)
    → a.status ≡ ExpenseStatus.draft
    → b.status ≡ ExpenseStatus.draft
    → save_and_sync rt a e db ≡ save_and_sync rt b e db
unfolding save_and_sync to_expense_budget_snapshot
save_and_sync-drafts rt a b e db h k =
    let sa = to_expense_budget_snapshot a in
    let sb = to_expense_budget_snapshot b in
    let se = to_expense_budget_snapshot e in
    sync-draft rt.zone sa se (save_expense e db) h
    ∙ sym (sync-draft rt.zone sb se (save_expense e db) k)

module _ (rt : Runtime) (u : AuthUser) (reference : String) (t : ℕ) (db db' : Db)
    (saved : Expense) where
  submit_in_transaction-Submits :
      submit_in_transaction rt u reference t db ≡ ok (saved, db')
      → Submits rt u reference t db saved db'
  unfolding submit_in_transaction with_active_department
  submit_in_transaction-Submits h =
      >>=-eq-ok-then (load_expense_for_mutation rt reference db) _ h λ locked loaded h1.
        >>=-eq-ok-then (assert_submittable rt u locked) _ h1 λ _ submittable h2.
          >>=-eq-ok-then (assign_department locked db) _ h2 λ assigned has_department h3.
            >>=-eq-ok-then
              (throw_if
                (manager_is_missing (with_active_department assigned db) (load_active_levels db)) _)
              _ h3
              λ _ managed h4.
                >>=-eq-ok-then
                  (evaluate_expense_submit rt u.id assigned.amount t assigned.department_id db) _ h4
                  λ check evaluated h5. record {
                    locked = locked;
                    assigned = assigned;
                    check = check;
                    loaded = loaded;
                    submittable = submittable;
                    has_department = has_department;
                    has_manager = ground arith;
                    evaluated = evaluated;
                    within_budget = ground arith;
                    becomes = ground arith;
                    written = ground arith;
                  }

  saved_draft_KeepsBooks :
      (old e : Expense) (d : ℕ)
      → find_expense db e.id ≡ some old
      → old.status ≡ ExpenseStatus.draft
      → e.status ≢ ExpenseStatus.reimbursed
      → e.department_id ≡ some d
      → d ≢ 0
      → e.submitted_at ≡ some t
      → KeepsBooks rt.zone db
      → KeepsBooks rt.zone (save_and_sync rt old e db)
  unfolding save_and_sync
  saved_draft_KeepsBooks old e d found draft unpaid dep positive time b =
      save-sync-KeepsBooks rt.zone db old e found
        (submitted-IsTransition old e d t draft unpaid dep positive time) b

  -- Saving the submitted draft keeps the books.
  Submits-KeepsBooks :
      Submits rt u reference t db saved db' → KeepsBooks rt.zone db → KeepsBooks rt.zone db'
  unfolding complete_submission publish_submission publish_budget_impact publish submitted_expense
      with_active_department
  Submits-KeepsBooks s b =
      let e = with_active_department s.assigned db in
      let after = submitted_expense rt e (load_active_levels db) t in
      let w = assign_department-Assigned s.locked s.assigned db s.has_department in
      let found = load_expense_for_mutation-found rt reference db s.locked s.loaded in
      let draft : s.locked.status ≡ ExpenseStatus.draft =
        assert_submittable-draft rt u s.locked s.submittable in
      let kept : KeepsBooks rt.zone (save_and_sync rt s.assigned after db) =
        subst (KeepsBooks rt.zone)
          (sym
            (save_and_sync-drafts rt s.assigned s.locked after db (w.same_status_as ∙ draft) draft))
          (saved_draft_KeepsBooks s.locked after w.department.0
            (subst (λ i. find_expense db i ≡ some s.locked) (sym w.same_id) found) draft
            (ground (arith, submitted-status rt e (load_active_levels db) t)) w.department.1
            w.department.2 refl b) in
      KeepsBooks-frame rt.zone (save_and_sync rt s.assigned after db) db'
        (ground (arith, s.written)) (ground (arith, s.written)) kept

module _ (rt : Runtime) (assert_compliant : PolicyEvaluationContext → Db → Result (Unit {0}))
    (u : AuthUser) (reference : String) (db db' : Db) where
  submission_context-compliant :
      (context : PolicyEvaluationContext)
      → submission_context rt assert_compliant u reference db ≡ ok context
      → assert_compliant context db ≡ ok tt
  unfolding submission_context
  submission_context-compliant context h =
      >>=-eq-ok-then (find_one rt u reference db) _ h λ draft _ h1.
        >>=-eq-ok-then (assert_submittable rt u draft.row) _ h1 λ _ _ h2.
          >>=-eq-ok-then (assert_compliant (build_submit_policy_context rt u draft.row db) db) _ h2
            λ _ compliant h3.
              let same : build_submit_policy_context rt u draft.row db ≡ context = cc h3 in
              subst (λ c. assert_compliant c db ≡ ok tt) same compliant

  -- A submission that fails changes no table.
  pub submit-failed :
      (x : Exception) → submit rt assert_compliant u reference db ≡ (err x, db') → db' ≡ db
  unfolding submit transaction
  submit-failed x h = ground arith

  -- A submission that returns passed the checks before its transaction and the policies, and then
  -- found the draft under its reference submittable, with a department, with a manager where the
  -- levels ask for one, and allowed by its budget; what it returns and writes is that draft with
  -- the first status of its chain.
  pub submit-returned :
      (saved : Expense)
      → submit rt assert_compliant u reference db ≡ (ok saved, db')
      → (context : PolicyEvaluationContext) × (submission_context rt assert_compliant u reference db
          ≡ ok context)
        × (assert_compliant context db ≡ ok tt)
        × Submits rt u reference context.submitted_at db saved db'
  unfolding submit transaction
  submit-returned saved h =
      elim (Result-cases (submission_context rt assert_compliant u reference db)) [
        | inl (context, passed) ↦ (
          context,
          passed,
          submission_context-compliant context passed,
          submit_in_transaction-Submits rt u reference context.submitted_at db db' saved
              (ground arith),
        )
        | inr (x, failed) ↦ absurd (ground arith)
      ]

-- Whatever a submission does, the budget rows hold the sums over the expenses.
pub submit-KeepsBooks :
    (rt : Runtime) (assert_compliant : PolicyEvaluationContext → Db → Result (Unit {0}))
    (u : AuthUser) (reference : String) (db db' : Db) (r : Result Expense)
    → submit rt assert_compliant u reference db ≡ (r, db')
    → KeepsBooks rt.zone db
    → KeepsBooks rt.zone db'
submit-KeepsBooks rt assert_compliant u reference db db' (err x) h b =
    subst (KeepsBooks rt.zone) (sym (submit-failed rt assert_compliant u reference db db' x h)) b
submit-KeepsBooks rt assert_compliant u reference db db' (ok saved) h b =
    let (context, _, _, submits) = submit-returned rt assert_compliant u reference db db' saved h in
    Submits-KeepsBooks rt u reference context.submitted_at db db' saved submits b
