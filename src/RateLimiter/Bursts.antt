-- ===== src/RateLimiter/Bursts.antt =====
-- core/rate-limiter/lua/sliding-window.lua, where requests come in the same millisecond: the script
-- names a member by its time, so that they are one member.
use expentra.Prelude.{ℕ, zero, suc, ◌≤◌, ◌<◌, List, [], ◌∷◌, ◌≡◌, refl, arith, ◌⊎◌, inl}
use expentra.RateLimiter.{SortedSets, AreDocumented, remove_old, sliding_window, run}
use expentra.RateLimiter.Window.{members-remove_old}

abbrev pub copies : ℕ → ℕ → List ℕ
copies zero t = []
copies (suc n) t = t ∷ copies n t

module _ (sets : SortedSets) (documented : AreDocumented sets) (window limit now : ℕ) where
  open documented use {members, members-empty, zcard_lem, members-zadd}

  abbrev IsOnly : sets.Contents → Type 0
  IsOnly s = (members s ≡ []) ⊎ (members s ≡ now ∷ [])

  remove_old-IsOnly : (s : sets.Contents) → IsOnly s → IsOnly (remove_old sets now window s)
  remove_old-IsOnly s h = ground (arith, h, members-remove_old sets documented window limit now s)

  zadd-IsOnly : (s : sets.Contents) → IsOnly s → IsOnly (sets.zadd now s)
  zadd-IsOnly s h = ground (arith, h, members-zadd now s)

  zcard-IsOnly : (s : sets.Contents) → IsOnly s → sets.zcard s ≤ 1
  zcard-IsOnly s h = ground (arith, h, zcard_lem s)

  run-copies_from :
      (n : ℕ) (s : sets.Contents)
      → 1 < limit
      → IsOnly s
      → (run sets window limit (copies n now) s).0 ≡ copies n now
  unfolding run sliding_window
  run-copies_from zero s h only = refl
  run-copies_from (suc n) s h only =
      let left = remove_old-IsOnly s only in
      ground (
        arith,
        zcard-IsOnly (remove_old sets now window s) left,
        run-copies_from n (sets.zadd now (remove_old sets now window s)) h
            (zadd-IsOnly (remove_old sets now window s) left),
      )

  -- Over sorted sets that behave as documented, any number of requests in one millisecond under a
  -- fresh key are all allowed, where the limit is at least 2.
  pub run-burst :
      (n : ℕ) → 1 < limit → (run sets window limit (copies n now) sets.empty).0 ≡ copies n now
  run-burst n h = run-copies_from n sets.empty h (inl members-empty)
