-- ===== src/RateLimiter.antt =====
-- core/rate-limiter/lua/sliding-window.lua and `checkRateLimit` of core/rate-limiter/
-- rate-limiter.service.ts.
use expentra.Prelude.{
  ℕ, String, Bool, true, false, Option, none, some, List, [], ◌∷◌, ◌-◌, ◌+◌, ◌==◌, ltb, not, length,
  filter, if◌then◌else◌, ◌≡◌,
}
pub mod Window
pub mod Bursts
pub mod Guard
pub mod Outcome

-- The commands on a sorted set that the script calls; each member is its own score.
pub record SortedSets : Type 1 where
  pub Contents : Type 0
  pub empty : Contents
  pub zremrangebyscore : ℕ → Contents → Contents  -- from score 0 to the given one
  pub zcard : Contents → ℕ
  pub zadd : ℕ → Contents → Contents
  pub zrange_first : Contents → Option ℕ  -- `ZRANGE key 0 0 WITHSCORES`

abbrev pub insert : ℕ → List ℕ → List ℕ
insert t [] = t ∷ []
insert t (x ∷ xs) =
    let rest = insert t xs in if t == x then x ∷ xs else if ltb t x then t ∷ x ∷ xs else x ∷ rest

abbrev pub first : List ℕ → Option ℕ
first [] = none
first (x ∷ xs) = some x

-- The documented behaviour of the commands, by the members in ascending order.
pub record AreDocumented (sets : SortedSets) : Type 0 where
  pub members : sets.Contents → List ℕ
  pub members-empty : members sets.empty ≡ []
  pub members-zremrangebyscore :
      (up_to : ℕ) (s : sets.Contents)
      → members (sets.zremrangebyscore up_to s) ≡ filter (ltb up_to) (members s)
  pub zcard_lem : (s : sets.Contents) → sets.zcard s ≡ length (members s)
  pub members-zadd : (t : ℕ) (s : sets.Contents) → members (sets.zadd t s) ≡ insert t (members s)
  pub zrange_first_lem : (s : sets.Contents) → sets.zrange_first s ≡ first (members s)

-- `RateLimitResult`
pub record RateLimitResult : Type 0 where
  pub allowed : Bool
  pub remaining : ℕ
  pub reset_time : ℕ

module _ (sets : SortedSets) where
  -- The members that are left; a range that ends below 0 is empty.
  unfoldable pub remove_old : ℕ → ℕ → sets.Contents → sets.Contents
  remove_old now window s = if ltb now window then s else sets.zremrangebyscore (now - window) s

  unfoldable pub reset_time_of : ℕ → sets.Contents → ℕ
  reset_time_of window s = elim (sets.zrange_first s) [
    | none ↦ 0
    | some earliest ↦ earliest + window
  ]

  -- The script: what it returns, and what it leaves under the key.
  unfoldable pub sliding_window : ℕ → ℕ → ℕ → sets.Contents → RateLimitResult × sets.Contents
  unfolding remove_old reset_time_of
  sliding_window now window limit s =
      let current = remove_old now window s in
      let count = sets.zcard current in
      if ltb count limit
      then (
        record {
          allowed = true;
          remaining = limit - count - 1;
          reset_time = reset_time_of window (sets.zadd now current);
        },
        sets.zadd now current,
      )
      else (
        record { allowed = false; remaining = 0; reset_time = reset_time_of window current },
        current,
      )

  -- `checkRateLimit`, where Redis answers or does not.
  unfoldable pub check_rate_limit :
      Bool → ℕ → ℕ → ℕ → Bool → sets.Contents → RateLimitResult × sets.Contents
  unfolding sliding_window
  check_rate_limit true now limit ttl_in_ms fail_closed s = sliding_window now ttl_in_ms limit s
  check_rate_limit false now limit ttl_in_ms true s =
      (record { allowed = false; remaining = 0; reset_time = now + ttl_in_ms }, s)
  check_rate_limit false now limit ttl_in_ms false s =
      (record { allowed = true; remaining = limit; reset_time = 0 }, s)

  -- Requests under one key at the given times: the times of those that the script allows.
  unfoldable pub run : ℕ → ℕ → List ℕ → sets.Contents → List ℕ × sets.Contents
  unfolding sliding_window
  run window limit [] s = ([], s)
  run window limit (now ∷ later) s =
      let (result, left) = sliding_window now window limit s in
      let (rest, last) = run window limit later left in
      (if result.allowed then now ∷ rest else rest, last)
