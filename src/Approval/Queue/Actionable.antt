-- ===== src/Approval/Queue/Actionable.antt =====
-- The queue of a caller, beside the decisions that the caller can take.
use expentra.Prelude.{
  ℕ, Bool, true, false, some, List, [], ◌∷◌, ◌&&◌, ◌==◌, filter, map, find?, includes, any, ◌≡◌,
  ◌≢◌, ◌↔◌, ◌⊎◌, inl, inr, refl, arith, subst, sym, All, Bool-cases, Option-cases,
}
use expentra.Entities.{Expense, LoadedExpense, ApprovalLevel, ExpenseApproval}
use expentra.Store.{Db, find_expense}
use expentra.Runtime.{Runtime}
use expentra.Authorization.Types.{AuthUser}
use expentra.Authorization.Access.{
  can_decide_on_expense, can_act_on_approval_stage, resolve_expense_department_id, manages,
}
use expentra.Budget.Ledger.{HasUniqueIds}
use expentra.Approval.Routing.{is_pending, get_active_stage}
use expentra.Approval.Delegation.{can_act_as_delegate}
use expentra.Approval.Decision.{join_expense, load_active_levels, approvals_of}
use expentra.Approval.Decision.Loading.{Loads}
use expentra.Approval.Levels.{LevelCatalog, get_active_levels}
use expentra.Approval.Queue.{
  in_department_scope, is_pending_candidate, is_actionable_for_user, is_queued,
  get_actionable_expense_ids,
}

-- A key is listed where its row passes the test.
module _ (p : Expense → Bool) (id : ℕ) where
  absent-listed :
      (es : List Expense)
      → All (λ x. x.id ≢ id) es
      → includes (map (λ e. e.id) (filter p es)) id ≡ false
  absent-listed [] h = refl
  absent-listed (x ∷ xs) (h, hs) = ground (arith, absent-listed xs hs)

  listed-found :
      (es : List Expense)
      → HasUniqueIds es
      → includes (map (λ e. e.id) (filter p es)) id ≡ true
      → (e : Expense) × (find? (λ x. x.id == id) es ≡ some e) × (p e ≡ true)
  listed-found [] u h = absurd (ground arith)
  listed-found (x ∷ xs) (a, u) h = elim (Bool-cases (x.id == id)) [
    | inl same ↦
        let e : x.id ≡ id = ground arith in
        let rest = absent-listed xs (subst (λ i. All (λ v. v.id ≢ i) xs) e a) in
        (x, rw same refl, ground (arith, rest))
    | inr other ↦
        let (e, found, passes) = listed-found xs u (ground arith) in (e, rw other found, passes)
  ]

  found-listed :
      (es : List Expense) (e : Expense)
      → find? (λ x. x.id == id) es ≡ some e
      → p e ≡ true
      → includes (map (λ x. x.id) (filter p es)) id ≡ true
  found-listed [] e f h = absurd (ground arith)
  found-listed (x ∷ xs) e f h = ground (arith, found-listed xs e)

module _ (u : AuthUser) (e : LoadedExpense) where
  -- Who may decide on an expense finds it among the candidates' departments.
  can_decide-in_scope : can_decide_on_expense u e ≡ true → in_department_scope u e ≡ true
  unfolding can_decide_on_expense in_department_scope manages resolve_expense_department_id
  can_decide-in_scope h = ground arith

  active-is_pending :
      (levels : List ApprovalLevel) (approvals : List ExpenseApproval) (stage : ApprovalLevel)
      → get_active_stage e levels approvals ≡ some stage
      → is_pending e.row.status ≡ true
  unfolding get_active_stage
  active-is_pending levels approvals stage h = ground arith

module _ (rt : Runtime) (u : AuthUser) (db : Db) (id : ℕ) where
  -- The expense loads for the caller, and they may act on its active stage.
  pub record IsActionable (e : LoadedExpense) (stage : ApprovalLevel) : Type 0 where
    pub loads : Loads db id u e
    pub active : get_active_stage e (load_active_levels db) (approvals_of e.row.id db) ≡ some stage
    pub may_act :
        (can_act_on_approval_stage u e stage ≡ true) ⊎ (can_act_as_delegate rt u e stage db ≡ true)

  joined_owner :
      (e : LoadedExpense) (l : Loads db id u e) → (join_expense db l.row).row.user_id ≢ u.id
  unfolding join_expense
  joined_owner e l = l.not_own

  queued-IsActionable :
      (row : Expense)
      → find_expense db id ≡ some row
      → is_queued rt u (load_active_levels db) db row ≡ true
      → (e : LoadedExpense) × (stage : ApprovalLevel) × IsActionable e stage
  unfolding is_queued is_pending_candidate is_actionable_for_user join_expense
  queued-IsActionable row found queued =
      let e = join_expense db row in
      elim (Option-cases (get_active_stage e (load_active_levels db) (approvals_of row.id db))) [
        | inl nothing ↦ absurd (ground (arith, nothing))
        | inr (stage, active) ↦
            let loads : Loads db id u e = record {
              row = row;
              found = found;
              joined = refl;
              not_own = ground arith;
              decides = ground arith;
            } in
            (e, stage, record { loads = loads; active = active; may_act = ground (arith, active) })
      ]

  IsActionable-passes :
      (e : LoadedExpense) (stage : ApprovalLevel)
      → IsActionable e stage
      → (is_pending_candidate u e
          && is_actionable_for_user rt u e (load_active_levels db) (approvals_of e.row.id db) db)
        ≡ true
  unfolding is_pending_candidate is_actionable_for_user
  IsActionable-passes e stage a =
      let l = a.loads in
      let other : e.row.user_id ≢ u.id =
        subst (λ v. v.row.user_id ≢ u.id) (sym l.joined) (joined_owner e l) in
      let scope = can_decide-in_scope u e l.decides in
      let pending =
        active-is_pending u e (load_active_levels db) (approvals_of e.row.id db) stage a.active in
      ground (arith, other, scope, pending, l.decides, a.active, a.may_act)

  IsActionable-queued :
      (e : LoadedExpense) (stage : ApprovalLevel)
      → IsActionable e stage
      → (row : Expense) × (find_expense db id ≡ some row)
        × (is_queued rt u (load_active_levels db) db row ≡ true)
  unfolding is_queued join_expense
  IsActionable-queued e stage a =
      let l = a.loads in
      (
        l.row,
        l.found,
        subst
            (λ v.
              (is_pending_candidate u v
                && is_actionable_for_user rt u v (load_active_levels db) (approvals_of v.row.id db)
                    db)
              ≡ true)
            l.joined (IsActionable-passes e stage a),
      )

module _ (rt : Runtime) (u : AuthUser) where
  -- Without a candidate nothing is queued.
  no_candidate :
      (levels : List ApprovalLevel) (db : Db) (es : List Expense)
      → any (λ row. is_pending_candidate u (join_expense db row)) es ≡ false
      → filter (is_queued rt u levels db) es ≡ []
  unfolding is_queued
  no_candidate levels db [] h = refl
  no_candidate levels db (e ∷ es) h = ground (arith, no_candidate levels db es)

  get_actionable_expense_ids-filter :
      (s : LevelCatalog)
      → (get_actionable_expense_ids rt u s).0
        ≡ map
            (λ row. row.id)
            (filter (is_queued rt u (get_active_levels rt s).0 s.db) s.db.expenses)
  unfolding get_actionable_expense_ids
  get_actionable_expense_ids-filter s =
      elim (Bool-cases
        (any (λ row. is_pending_candidate u (join_expense s.db row)) s.db.expenses)) [
          | inl some_wait ↦ rw some_wait refl
          | inr none_wait ↦
              rw (none_wait, no_candidate (get_active_levels rt s).0 s.db s.db.expenses none_wait)
                refl
        ]

module _ (rt : Runtime) (u : AuthUser) (s : LevelCatalog) (id : ℕ) where
  -- Where expense keys are unique and the catalog serves the active levels that the table has, as
  -- it does unless its cache is stale: an expense is in the queue of a caller exactly when it loads
  -- for a decision of theirs, which they may take and which is not on their own expense, has an
  -- active stage, and they may act on that stage themselves or as a delegate.
  pub get_actionable_expense_ids_iff :
      HasUniqueIds s.db.expenses
      → (get_active_levels rt s).0 ≡ load_active_levels s.db
      → (includes (get_actionable_expense_ids rt u s).0 id ≡ true)
        ↔ ((e : LoadedExpense) × (stage : ApprovalLevel) × IsActionable rt u s.db id e stage)
  unfolding find_expense
  get_actionable_expense_ids_iff unique current =
      let queued = is_queued rt u (load_active_levels s.db) s.db in
      rw (get_actionable_expense_ids-filter rt u s, current)
        (
          λ listed.
              let (row, found, q) = listed-found queued id s.db.expenses unique listed in
              queued-IsActionable rt u s.db id row found q,
          λ (e, stage, a).
              let (row, found, q) = IsActionable-queued rt u s.db id e stage a in
              found-listed queued id s.db.expenses row found q,
        )
