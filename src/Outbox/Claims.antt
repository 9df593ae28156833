-- ===== src/Outbox/Claims.antt =====
-- core/outbox/services/outbox.service.ts: what the claims of the relay take.
use expentra.Prelude.{
  Bool, ℕ, zero, suc, ◌≤◌, true, false, Option, none, some, List, [], ◌∷◌, map, filter, length,
  ◌||◌, ap, ◌∙◌, All, All-map, ◌≡◌, refl, arith,
}
use expentra.Outbox.{
  OutboxEvent, is_claimable, insert_event, sort_events, take, has_id, mark_dispatched_at,
  update_where, claim_pending_batch, is_stuck, reclaim_stuck_dispatched,
}

module _ {κ} (P : OutboxEvent → Type κ) where
  All-insert_event :
      (e : OutboxEvent) (xs : List OutboxEvent) → P e → All P xs → All P (insert_event e xs)
  unfolding insert_event
  All-insert_event e [] p t = (p, tt)
  All-insert_event e (x ∷ xs) p (h, hs) = ground (arith, All-insert_event e xs p hs)

  All-sort_events : (rows : List OutboxEvent) → All P rows → All P (sort_events rows)
  unfolding sort_events
  All-sort_events [] h = tt
  All-sort_events (e ∷ es) (h, hs) = All-insert_event e (sort_events es) h (All-sort_events es hs)

  All-take : (n : ℕ) (rows : List OutboxEvent) → All P rows → All P (take n rows)
  All-take zero rows h = tt
  All-take (suc n) [] h = tt
  All-take (suc n) (x ∷ xs) (h, hs) = (h, All-take n xs hs)

All-claimable :
    (rows : List OutboxEvent) → All (λ r. is_claimable r ≡ true) (filter is_claimable rows)
All-claimable [] = tt
All-claimable (x ∷ xs) = ground (arith, All-claimable xs)

length-take : (n : ℕ) (rows : List OutboxEvent) → length (take n rows) ≤ n
length-take zero rows = omega arith
length-take (suc n) [] = omega arith
length-take (suc n) (x ∷ xs) = omega (arith, length-take n xs)

length-map_mark :
    (at : Option ℕ) (rows : List OutboxEvent)
    → length (map (mark_dispatched_at at) rows) ≡ length rows
length-map_mark at [] = refl
length-map_mark at (x ∷ xs) = ground (arith, length-map_mark at xs)

has_id-map_mark :
    (at : Option ℕ) (id : ℕ) (rows : List OutboxEvent)
    → has_id id (map (mark_dispatched_at at) rows) ≡ has_id id rows
has_id-map_mark at id [] = refl
has_id-map_mark at id (x ∷ xs) = ground (arith, has_id-map_mark at id xs)

-- The rows that are left to claim are not those that were claimed.
unclaimed :
    (at : ℕ) (claimed rows : List OutboxEvent)
    → All
        (λ r. has_id r.id claimed ≡ false)
        (filter is_claimable
          (update_where (λ r. has_id r.id claimed) (mark_dispatched_at (some at)) rows))
unclaimed at claimed [] = tt
unclaimed at claimed (x ∷ xs) = ground (arith, unclaimed at claimed xs)

All-map_mark :
    (at : Option ℕ) (P : ℕ → Type 0) (rows : List OutboxEvent)
    → All (λ r. P r.id) rows
    → All (λ r. P r.id) (map (mark_dispatched_at at) rows)
All-map_mark at P [] h = tt
All-map_mark at P (x ∷ xs) (h, hs) = (h, All-map_mark at P xs hs)

-- A claim returns no more rows than its limit, and the next claim, whatever its time and limit,
-- returns no row whose key the first returned.
pub claims_are_disjoint :
    (now limit later limit' : ℕ) (rows : List OutboxEvent)
    → let (first, between) = claim_pending_batch now limit rows in
      let (second, after) = claim_pending_batch later limit' between in
      (length first ≤ limit) × All (λ r. has_id r.id first ≡ false) second
unfolding claim_pending_batch
claims_are_disjoint now limit later limit' rows =
    let claimed = take limit (sort_events (filter is_claimable rows)) in
    let between = update_where (λ r. has_id r.id claimed) (mark_dispatched_at (some now)) rows in
    (
      rw (length-map_mark (some now) claimed)
          (length-take limit (sort_events (filter is_claimable rows))),
      All-map (λ r h. has_id-map_mark (some now) r.id claimed ∙ h)
          (map (mark_dispatched_at (some later))
            (take limit' (sort_events (filter is_claimable between))))
          (All-map_mark (some later) (λ id. has_id id claimed ≡ false)
            (take limit' (sort_events (filter is_claimable between)))
            (All-take (λ r. has_id r.id claimed ≡ false) limit'
              (sort_events (filter is_claimable between))
              (All-sort_events (λ r. has_id r.id claimed ≡ false) (filter is_claimable between)
                (unclaimed now claimed rows)))),
    )

has_id-insert_event :
    (id : ℕ) (e : OutboxEvent) (rows : List OutboxEvent)
    → has_id id (insert_event e rows) ≡ has_id id (e ∷ rows)
unfolding insert_event
has_id-insert_event id e [] = refl
has_id-insert_event id e (x ∷ xs) = ground (arith, has_id-insert_event id e xs)

has_id-sort_events :
    (id : ℕ) (rows : List OutboxEvent) → has_id id (sort_events rows) ≡ has_id id rows
unfolding sort_events
has_id-sort_events id [] = refl
has_id-sort_events id (e ∷ es) =
    ground (arith, has_id-insert_event id e (sort_events es), has_id-sort_events id es)

length-insert_event :
    (e : OutboxEvent) (rows : List OutboxEvent) → length (insert_event e rows) ≡ suc (length rows)
unfolding insert_event
length-insert_event e [] = refl
length-insert_event e (x ∷ xs) = ground (arith, length-insert_event e xs)

length-sort_events : (rows : List OutboxEvent) → length (sort_events rows) ≡ length rows
unfolding sort_events
length-sort_events [] = refl
length-sort_events (e ∷ es) =
    ground (arith, length-insert_event e (sort_events es), length-sort_events es)

take-all : (n : ℕ) (rows : List OutboxEvent) → length rows ≤ n → take n rows ≡ rows
take-all zero [] h = refl
take-all zero (x ∷ xs) h = absurd (omega arith)
take-all (suc n) [] h = refl
take-all (suc n) (x ∷ xs) h = ground (arith, take-all n xs)

-- What holds of the rows that pass a test.
All-filter_of :
    (P : OutboxEvent → Type 0) (p : OutboxEvent → Bool) (rows : List OutboxEvent)
    → All (λ r. p r ≡ true → P r) rows
    → All P (filter p rows)
All-filter_of P p [] h = tt
All-filter_of P p (x ∷ xs) (h, hs) = ground (arith, h, All-filter_of P p xs hs)

-- The rows that the reclaim leaves claimable.
reclaimed :
    (now : ℕ) (rows : List OutboxEvent)
    → All
        (λ r.
          (is_claimable r || is_stuck now r) ≡ true
          → has_id r.id
              (filter is_claimable (update_where (is_stuck now) (mark_dispatched_at none) rows))
            ≡ true)
        rows
reclaimed now [] = tt
reclaimed now (x ∷ xs) =
    (λ h. ground arith, All-map (λ r ih h. ground (arith, ih h)) xs (reclaimed now xs))

-- A claim whose limit is enough returns the rows that are claimable.
pub has_id-claim_pending_batch :
    (now limit id : ℕ) (rows : List OutboxEvent)
    → length (filter is_claimable rows) ≤ limit
    → has_id id (claim_pending_batch now limit rows).0 ≡ has_id id (filter is_claimable rows)
unfolding claim_pending_batch
has_id-claim_pending_batch now limit id rows few =
    let left = filter is_claimable rows in
    has_id-map_mark (some now) id (take limit (sort_events left))
    ∙ ap (has_id id) (take-all limit (sort_events left) (ground (arith, length-sort_events left)))
    ∙ has_id-sort_events id left

-- After a reconciliation that leaves no more claimable rows than the limit of a claim, the next
-- claim returns every event that was not processed and either not dispatched or dispatched more
-- than five minutes before the reconciliation.
pub reclaimed_are_claimed :
    (now later limit : ℕ) (rows : List OutboxEvent)
    → length (filter is_claimable (reclaim_stuck_dispatched now rows).1) ≤ limit
    → All
        (λ r.
          has_id r.id (claim_pending_batch later limit (reclaim_stuck_dispatched now rows).1).0
          ≡ true)
        (filter (λ r. is_claimable r || is_stuck now r) rows)
unfolding reclaim_stuck_dispatched
reclaimed_are_claimed now later limit rows few =
    All-filter_of
      (λ r.
        has_id r.id (claim_pending_batch later limit (reclaim_stuck_dispatched now rows).1).0
        ≡ true)
      (λ r. is_claimable r || is_stuck now r) rows
      (All-map
        (λ r found h.
          has_id-claim_pending_batch later limit r.id (reclaim_stuck_dispatched now rows).1 few
          ∙ found h)
        rows (reclaimed now rows))
