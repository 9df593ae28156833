-- ===== src/Budget/Sync/Ledger.antt =====
-- The ledger: what the live budget rows hold is the sum over the expenses, and the incremental
-- update keeps it so.
use expentra.Prelude.{
  ℕ, ◌+◌, ◌≤◌, true, false, some, [], ◌≡◌, ◌≢◌, inl, inr, refl, arith, ◌∙◌, Bool-cases,
}
use expentra.Prelude.Int.{pos, sub_ℕ}
use expentra.Entities.{ExpenseStatus, same_status_iff}
use expentra.Store.{Db}
use expentra.Budget.Period.{Zone, resolve_budget_year}
use expentra.Budget.Sync.{
  ExpenseBudgetSnapshot, counts_toward_committed_budget, is_reimbursement_transition,
  expense_budget_attribution_changed, attribution_changed, sync_reimbursed_amount_for_expense,
  apply_reimbursed_amount_delta, sync_committed_amount_for_expense_transition,
}
use expentra.Budget.Sync.Rows.{Matches, Matches-ext, moved, apply_reimbursed-Matches}
use expentra.Budget.Sync.Transition.{
  IsTransition, IsAttributed, share, in_ledger, is_reimbursed, moved_all, apply_deltas-Matches,
  accumulate_counted, accumulate_uncounted, attribution, share_at, share_out, counted_in_ledger,
  uncounted_not_in_ledger, moved_none, moved_out, moved_in, moved_both, deltas_of,
  resolve_attributed,
}

module _ (z : Zone) (db : Db) (before after : ExpenseBudgetSnapshot) (f g : ℕ → ℕ → ℕ)
    (ab : IsAttributed before) (aa : IsAttributed after)
    (nb : before.status ≢ ExpenseStatus.reimbursed) (na : after.status ≢ ExpenseStatus.reimbursed)
    (d' y' : ℕ)
    (balance : g d' y' + share z in_ledger before d' y' ≡ f d' y' + share z in_ledger after d' y')
    (enough : share z in_ledger before d' y' ≤ f d' y') where
  abbrev Out : (s : ExpenseBudgetSnapshot) → Type 0
  Out s = counts_toward_committed_budget s.status ≡ false

  Out-share :
      (s : ExpenseBudgetSnapshot)
      → s.status ≢ ExpenseStatus.reimbursed
      → Out s
      → share z in_ledger s d' y' ≡ 0
  Out-share s n c = share_out z db in_ledger s (uncounted_not_in_ledger s.status c n) d' y'

  -- The updates add up to the difference of the two shares, at every department and year.
  moved_all-deltas_of : moved_all (deltas_of z db before after) f d' y' ≡ g d' y'
  moved_all-deltas_of = elim (Bool-cases (counts_toward_committed_budget before.status)) [
    | inl cb ↦
        let lb = counted_in_ledger before.status cb in
        let (d, t, ed, nd, et) = attribution before ab lb in
        let sb = share_at z db in_ledger before d t lb ed et d' y' in
        rw (accumulate_counted z db (λ n. sub_ℕ 0 n) before d t [] cb ed nd et)
          (elim (Bool-cases (counts_toward_committed_budget after.status)) [
            | inl ca ↦
                let la = counted_in_ledger after.status ca in
                let (e, u, ee, ne, eu) = attribution after aa la in
                let sa = share_at z db in_ledger after e u la ee eu d' y' in
                rw (accumulate_counted z db (λ n. pos n) after e u _ ca ee ne eu)
                  (moved_both z db before after f g d' y' balance enough d t e u sb sa)
            | inr ca ↦ rw (accumulate_uncounted z db (λ n. pos n) after _ ca) (
                moved_out z db before after f g d' y' balance enough d t sb (Out-share after na ca))
          ])
    | inr cb ↦
        rw (accumulate_uncounted z db (λ n. sub_ℕ 0 n) before [] cb)
          (elim (Bool-cases (counts_toward_committed_budget after.status)) [
            | inl ca ↦
                let la = counted_in_ledger after.status ca in
                let (e, u, ee, ne, eu) = attribution after aa la in
                let sa = share_at z db in_ledger after e u la ee eu d' y' in
                rw (accumulate_counted z db (λ n. pos n) after e u [] ca ee ne eu) (
                  moved_in z db before after f g d' y' balance enough e u (Out-share before nb cb)
                    sa)
            | inr ca ↦ rw (accumulate_uncounted z db (λ n. pos n) after [] ca) (
                moved_none z db before after f g d' y' balance enough (Out-share before nb cb)
                  (Out-share after na ca))
          ])
  ]

counts_approved : counts_toward_committed_budget ExpenseStatus.approved ≡ true
unfolding counts_toward_committed_budget
counts_approved = refl

in_ledger_reimbursed : in_ledger ExpenseStatus.reimbursed ≡ true
unfolding in_ledger
in_ledger_reimbursed = refl

-- The sums that the rows match before and after a transition of one expense.
pub record Balanced (z : Zone) (before after : ExpenseBudgetSnapshot) (f g r r' : ℕ → ℕ → ℕ)
    : Type 0 where
  pub committed :
      (d y : ℕ) → g d y + share z in_ledger before d y ≡ f d y + share z in_ledger after d y
  pub enough : (d y : ℕ) → share z in_ledger before d y ≤ f d y
  pub reimbursed :
      (d y : ℕ)
      → r' d y + share z is_reimbursed before d y ≡ r d y + share z is_reimbursed after d y

module _ (z : Zone) (db : Db) (before after : ExpenseBudgetSnapshot) (f g r r' : ℕ → ℕ → ℕ)
    (tr : IsTransition before after) (bal : Balanced z before after f g r r') where
  abbrev synced : Db
  synced = sync_committed_amount_for_expense_transition z (some before) (some after) db

  not_reimbursed_share :
      (s : ExpenseBudgetSnapshot)
      → s.status ≢ ExpenseStatus.reimbursed
      → (d y : ℕ) → share z is_reimbursed s d y ≡ 0
  not_reimbursed_share s n =
      share_out z db is_reimbursed s
        (ground (arith, same_status_iff s.status ExpenseStatus.reimbursed))

  reimbursed_same : after.status ≢ ExpenseStatus.reimbursed → (d y : ℕ) → r d y ≡ r' d y
  reimbursed_same n d y = omega (
    arith,
    bal.reimbursed d y,
    not_reimbursed_share before tr.not_reimbursed d y,
    not_reimbursed_share after n d y,
  )

  unchanged_share :
      after.status ≢ ExpenseStatus.reimbursed
      → attribution_changed before after ≡ false
      → (d y : ℕ) → share z in_ledger before d y ≡ share z in_ledger after d y
  unfolding attribution_changed share
  unchanged_share n h d y = ground (
    arith,
    uncounted_not_in_ledger before.status,
    uncounted_not_in_ledger after.status,
    counted_in_ledger before.status,
    counted_in_ledger after.status,
    tr.not_reimbursed,
  )

  module _ (d t : ℕ) (ed : before.department_id ≡ some d) (nd : d ≢ 0)
      (et : before.submitted_at ≡ some t) (ra : after.status ≡ ExpenseStatus.reimbursed) where
    synced-reimbursement :
        synced ≡ apply_reimbursed_amount_delta d (resolve_budget_year z t) (pos after.amount) db
    unfolding sync_committed_amount_for_expense_transition is_reimbursement_transition
        sync_reimbursed_amount_for_expense
    synced-reimbursement = ground (
      arith,
      resolve_attributed z db after.user_id d nd,
      tr.from_approved ra,
      tr.same_time ra,
      tr.same_department ra,
    )

    committed_same : (d' y' : ℕ) → f d' y' ≡ g d' y'
    committed_same d' y' =
        let la : in_ledger after.status ≡ true = rw ra in_ledger_reimbursed in
        let lb : in_ledger before.status ≡ true =
          counted_in_ledger before.status (rw (tr.from_approved ra) counts_approved) in
        let sb = share_at z db in_ledger before d t lb ed et d' y' in
        let sa =
          share_at z db in_ledger after d t la (tr.same_department ra ∙ ed) (tr.same_time ra ∙ et)
            d' y' in
        ground (arith, bal.committed d' y', sb, sa, tr.same_amount ra)

    reimbursed_moved :
        (d' y' : ℕ) → moved d (resolve_budget_year z t) (pos after.amount) r d' y' ≡ r' d' y'
    reimbursed_moved d' y' =
        let la : is_reimbursed after.status ≡ true = rw ra refl in
        let sa =
          share_at z db is_reimbursed after d t la (tr.same_department ra ∙ ed)
            (tr.same_time ra ∙ et) d' y' in
        ground
          (arith, bal.reimbursed d' y', sa, not_reimbursed_share before tr.not_reimbursed d' y')

    reimbursement : Matches f r db.budgets → Matches g r' synced.budgets
    reimbursement m = rw synced-reimbursement (
        Matches-ext f g (moved d (resolve_budget_year z t) (pos after.amount) r) r' _ committed_same
          reimbursed_moved
          (apply_reimbursed-Matches d (resolve_budget_year z t) (pos after.amount) f r db m))

  not_reimbursement :
      after.status ≢ ExpenseStatus.reimbursed
      → is_reimbursement_transition (some before) (some after) ≡ false
  unfolding is_reimbursement_transition
  not_reimbursement n = ground (arith, same_status_iff after.status ExpenseStatus.reimbursed)

  other :
      after.status ≢ ExpenseStatus.reimbursed → Matches f r db.budgets → Matches g r' synced.budgets
  unfolding sync_committed_amount_for_expense_transition expense_budget_attribution_changed
  other n m = rw (not_reimbursement n) (elim (Bool-cases (attribution_changed before after)) [
    | inl changed ↦ rw changed (
        Matches-ext (moved_all (deltas_of z db before after) f) g r r' _
          (λ d y.
            moved_all-deltas_of z db before after f g tr.attributed_before tr.attributed_after
              tr.not_reimbursed n d y (bal.committed d y) (bal.enough d y))
          (reimbursed_same n) (apply_deltas-Matches (deltas_of z db before after) f r db m))
    | inr same ↦ rw same (
        Matches-ext f g r r' _ (λ d y. omega (arith, bal.committed d y, unchanged_share n same d y))
          (reimbursed_same n) m)
  ])

  -- The update carries rows that match the sums before the transition to rows that match the sums
  -- after it.
  pub sync-Matches : Matches f r db.budgets → Matches g r' synced.budgets
  sync-Matches m = elim (Bool-cases (is_reimbursed after.status)) [
    | inl h ↦
        let ra = (same_status_iff after.status ExpenseStatus.reimbursed).0 h in
        let lb : in_ledger before.status ≡ true =
          counted_in_ledger before.status (rw (tr.from_approved ra) counts_approved) in
        let (d, t, ed, nd, et) = attribution before tr.attributed_before lb in
        reimbursement d t ed nd et ra m
    | inr h ↦ other (ground (arith, same_status_iff after.status ExpenseStatus.reimbursed)) m
  ]
