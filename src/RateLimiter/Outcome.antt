-- ===== src/RateLimiter/Outcome.antt =====
-- core/rate-limiter/guards/rate-limit.guard.ts: what the guard lets pass.
use expentra.Prelude.{
  ℕ, String, Bool, true, false, Option, none, some, List, [], ◌∷◌, ◌++◌, ◌≤◌, ◌≡◌, ◌↔◌, ◌⊎◌, refl,
  arith,
}
use expentra.RateLimiter.{SortedSets, check_rate_limit}
use expentra.RateLimiter.Guard.{
  RateLimitOptions, RateLimitRequest, RateLimitConfig, Header, retry_after, passes,
  too_many_requests, is_health_path, resource_of, is_fail_closed, Limits, enforce_limit,
  can_activate,
}

-- Whether an endpoint is refused while Redis does not answer.
abbrev pub closes : Option (String × RateLimitOptions) → Bool
closes none = false
closes (some (name, options)) = is_fail_closed (resource_of name options) options

-- The header that is set last.
abbrev pub last_header : List Header → Option Header
last_header [] = none
last_header (h ∷ []) = some h
last_header (h ∷ g ∷ hs) = last_header (g ∷ hs)

last_header-append : (hs : List Header) (h : Header) → last_header (hs ++ h ∷ []) ≡ some h
last_header-append [] h = refl
last_header-append (g ∷ []) h = refl
last_header-append (g ∷ f ∷ hs) h = last_header-append (f ∷ hs) h

module _ (sets : SortedSets) (number_text : ℕ → String) (config : RateLimitConfig) (now : ℕ) where
  -- While Redis does not answer, the guard lets a request pass exactly when its path is one of a
  -- health check or its endpoint is not closed in that case.
  pub can_activate-without_redis :
      (request : RateLimitRequest) (endpoint : Option (String × RateLimitOptions))
      (limits : Limits sets)
      → limits.answers ≡ false
      → ((can_activate sets number_text config now request endpoint limits).verdict ≡ passes)
        ↔ ((is_health_path request.path ≡ true) ⊎ (closes endpoint ≡ false))
  unfolding can_activate enforce_limit check_rate_limit
  can_activate-without_redis request endpoint limits silent = ground arith

  -- A refused request is told to wait a second or more, by the header that is set last.
  pub can_activate-refused :
      (request : RateLimitRequest) (endpoint : Option (String × RateLimitOptions))
      (limits : Limits sets) {wait : ℕ}
      → let guarded = can_activate sets number_text config now request endpoint limits in
        guarded.verdict ≡ too_many_requests wait
        → (1 ≤ wait) × (last_header guarded.headers ≡ some (retry_after wait))
  unfolding can_activate enforce_limit
  can_activate-refused request endpoint limits refused = grind (arith, last_header-append)
