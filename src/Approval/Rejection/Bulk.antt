-- ===== src/Approval/Rejection/Bulk.antt =====
-- The actions in bulk: each reference is reported once, in order, and an invariant of the single
-- action is one of the whole.
use expentra.Prelude.{
  ◌+◌, List, [], ◌∷◌, ◌++◌, ◌≡◌, arith, String, length, length-append, inl, inr, ap, subst, sym,
}
use expentra.Prelude.Result.{Exception, Result, ok, err, Result-cases}
use expentra.Store.{Db}
use expentra.Approval.Rejection.{
  to_bulk_action_error_message, build_bulk_approval_result, bulk_loop,
}

module _ {ℓ} {A : Type ℓ} (act : String → Db → Result A × Db) where
  after_return :
      (r : String) (rs succeeded : List String) (failed : List (String × String)) (db : Db) (a : A)
      → (act r db).0 ≡ ok a
      → bulk_loop act (r ∷ rs) succeeded failed db
        ≡ bulk_loop act rs (succeeded ++ r ∷ []) failed (act r db).1
  unfolding bulk_loop
  after_return r rs succeeded failed db a h = rw (h, bulk_loop)

  after_throw :
      (r : String) (rs succeeded : List String) (failed : List (String × String)) (db : Db)
      (x : Exception)
      → (act r db).0 ≡ err x
      → bulk_loop act (r ∷ rs) succeeded failed db
        ≡ bulk_loop act rs succeeded
            (failed ++ (r, to_bulk_action_error_message x) ∷ [])
            (act r db).1
  unfolding bulk_loop
  after_throw r rs succeeded failed db x h = rw (h, bulk_loop)

  -- A bulk action over any action reports each given reference, beside those collected before, as
  -- succeeded or as failed: the counts add up.
  pub bulk_loop-total :
      (rs succeeded : List String) (failed : List (String × String)) (db : Db)
      → length (bulk_loop act rs succeeded failed db).0.succeeded
          + length (bulk_loop act rs succeeded failed db).0.failed
        ≡ length rs + length succeeded + length failed
  unfolding bulk_loop build_bulk_approval_result
  bulk_loop-total [] succeeded failed db = omega arith
  bulk_loop-total (r ∷ rs) succeeded failed db = elim (Result-cases (act r db).0) [
    | inl (a, returned) ↦ omega (
      arith,
      ap (λ o. length o.0.succeeded + length o.0.failed)
          (after_return r rs succeeded failed db a returned),
      bulk_loop-total rs (succeeded ++ r ∷ []) failed (act r db).1,
      length-append succeeded (r ∷ []),
    )
    | inr (x, threw) ↦
        let failure : List (String × String) = (r, to_bulk_action_error_message x) ∷ [] in
        omega (
          arith,
          ap (λ o. length o.0.succeeded + length o.0.failed)
              (after_throw r rs succeeded failed db x threw),
          bulk_loop-total rs succeeded (failed ++ failure) (act r db).1,
          length-append failed failure,
        )
  ]

  -- A property that each action keeps is kept by the whole.
  pub bulk_loop-preserves {κ} :
      (P : Db → Type κ)
      → ((r : String) (db : Db) → P db → P (act r db).1)
      → (rs succeeded : List String) (failed : List (String × String)) (db : Db) → P db
      → P (bulk_loop act rs succeeded failed db).1
  unfolding bulk_loop
  bulk_loop-preserves P step [] succeeded failed db p = p
  bulk_loop-preserves P step (r ∷ rs) succeeded failed db p = elim (Result-cases (act r db).0) [
    | inl (a, returned) ↦
        subst (λ o. P o.1) (sym (after_return r rs succeeded failed db a returned))
          (bulk_loop-preserves P step rs (succeeded ++ r ∷ []) failed (act r db).1 (step r db p))
    | inr (x, threw) ↦
        subst (λ o. P o.1) (sym (after_throw r rs succeeded failed db x threw))
          (bulk_loop-preserves P step rs succeeded
            (failed ++ (r, to_bulk_action_error_message x) ∷ []) (act r db).1 (step r db p))
  ]
