-- ===== src/RateLimiter/Guard.antt =====
-- core/rate-limiter/guards/rate-limit.guard.ts
use expentra.Prelude.{
  ℕ, String, Bool, false, Option, none, some, List, [], ◌∷◌, ◌++◌, ◌+◌, ◌-◌, ◌*◌, ◌/◌, max, ◌==◌,
  ◌||◌, same_text, trim, first_chars, text_length, is_empty, ◌<>◌, if◌then◌else◌, truthy_id,
}
use Prim.Native.Char.{code}
use expentra.RateLimiter.{SortedSets, check_rate_limit}

-- `RateLimitOptions`
pub record RateLimitOptions : Type 0 where
  pub limit : ℕ
  pub ttl : ℕ  -- in seconds
  pub resource : Option String
  pub fail_closed : Option Bool

-- What the guard reads of a request; a header that is given more than once is no text.
pub record RateLimitRequest : Type 0 where
  pub path : String
  pub user_id : Option ℕ
  pub api_key : Option String  -- `x-api-key`
  pub forwarded_for : Option String  -- `x-forwarded-for`
  pub real_ip : Option String  -- `x-real-ip`
  pub ip : Option String
  pub remote_address : Option String

-- `RATE_LIMIT_GLOBAL_LIMIT`, `RATE_LIMIT_GLOBAL_TTL` and `TRUST_PROXY`
pub record RateLimitConfig : Type 0 where
  pub global_limit : ℕ
  pub global_ttl_seconds : ℕ
  pub trust_proxy : Bool

pub data Header : Type 0 where
  limit_header remaining_header reset_header retry_after : ℕ → Header

-- The guard lets the request pass, or throws with the status 429 and the seconds to wait.
pub data Verdict : Type 0 where
  passes : Verdict
  too_many_requests : ℕ → Verdict

-- `s.startsWith(t)`
abbrev pub starts_with : String → String → Bool
starts_with s t = same_text (first_chars (text_length t) s) t

-- `s.includes(t)`
unfoldable pub includes_text : String → String → Bool
includes_text String.[] t = is_empty t
includes_text (String.◌∷◌ c s) t = starts_with (String.◌∷◌ c s) t || includes_text s t

-- `s.split(',')[0]`
unfoldable pub before_comma : String → String
before_comma String.[] = ""
before_comma (String.◌∷◌ c s) =
    let rest = before_comma s in if code c == 44 then "" else String.◌∷◌ c rest

unfoldable pub is_health_path : String → Bool
unfolding includes_text
is_health_path path = includes_text path "/health"

-- `Math.ceil(ms / 1000)`
abbrev pub ceil_seconds : ℕ → ℕ
ceil_seconds ms = (ms + 999) / 1000

-- `request.ip || request.connection?.remoteAddress || 'unknown'`
abbrev pub address_or : Option String → String → String
address_or none other = other
address_or (some s) other = if is_empty s then other else s

abbrev direct_ip : RateLimitRequest → String
direct_ip request = address_or request.ip (address_or request.remote_address "unknown")

unfoldable pub get_client_ip : RateLimitConfig → RateLimitRequest → String
unfolding before_comma
get_client_ip config request =
    if config.trust_proxy
    then elim request.forwarded_for [
      | some forwarded ↦ trim (before_comma forwarded)
      | none ↦ elim request.real_ip [ some ip ↦ ip | none ↦ direct_ip request ]
    ]
    else direct_ip request

module _ (number_text : ℕ → String) where
  unfoldable pub get_client_identifier : RateLimitConfig → RateLimitRequest → String
  unfolding get_client_ip
  get_client_identifier config request = elim (truthy_id request.user_id) [
    | some id ↦ "user:" <> number_text id
    | none ↦ elim request.api_key [
      | some key ↦ "apikey:" <> key
      | none ↦ "ip:" <> get_client_ip config request
    ]
  ]

-- The resource of an endpoint, by default the name of its class and handler, and whether it is closed
-- while Redis does not answer.
abbrev pub resource_of : String → RateLimitOptions → String
resource_of name options = elim options.resource [ some r ↦ r | none ↦ name ]

abbrev pub is_fail_closed : String → RateLimitOptions → Bool
is_fail_closed resource options = elim options.fail_closed [
  | some b ↦ b
  | none ↦ starts_with resource "auth."
]

-- `ratelimit:…`
abbrev pub key_of : String → String → String
key_of resource client_id = "ratelimit:" <> resource <> ":" <> client_id

module _ (sets : SortedSets) where
  -- What Redis holds, by key, and whether it answers.
  pub record Limits : Type 0 where
    pub contents : String → sets.Contents
    pub answers : Bool

  -- What the guard did: the headers it set, and how it ended.
  pub record Guarded : Type 0 where
    pub headers : List Header
    pub verdict : Verdict
    pub limits : Limits

  abbrev pub put_contents : String → sets.Contents → Limits → Limits
  put_contents key s limits = record limits {
    contents = λ k. if same_text k key then s else limits.contents k;
  }

  unfoldable pub enforce_limit : ℕ → String → String → ℕ → ℕ → Bool → List Header → Limits → Guarded
  enforce_limit now resource client_id limit ttl_in_ms fail_closed headers limits =
      let key = key_of resource client_id in
      let (result, left) =
        check_rate_limit sets limits.answers now limit ttl_in_ms fail_closed
          (limits.contents key) in
      let after = put_contents key left limits in
      let set_headers =
        headers
        ++ Header.limit_header limit
          ∷ Header.remaining_header result.remaining
          ∷ Header.reset_header (ceil_seconds result.reset_time)
          ∷ [] in
      let wait = max 1 (ceil_seconds (result.reset_time - now)) in
      if result.allowed
      then record { headers = set_headers; verdict = passes; limits = after }
      else record {
        headers = set_headers ++ Header.retry_after wait ∷ [];
        verdict = too_many_requests wait;
        limits = after;
      }

  -- `canActivate`, for an endpoint with its name and options, where it has any.
  unfoldable pub can_activate :
      (ℕ → String)
      → RateLimitConfig
      → ℕ
      → RateLimitRequest
      → Option (String × RateLimitOptions)
      → Limits
      → Guarded
  unfolding enforce_limit is_health_path get_client_ip get_client_identifier
  can_activate number_text config now request endpoint limits =
      let global =
        enforce_limit now "global" ("ip:" <> get_client_ip config request) config.global_limit
          (config.global_ttl_seconds * 1000) false [] limits in
      let passed = elim endpoint as (λ _. Guarded) [
        | none ↦ global
        | some (name, options) ↦
            let resource = resource_of name options in
            enforce_limit now resource (get_client_identifier number_text config request)
              options.limit (options.ttl * 1000) (is_fail_closed resource options) global.headers
              global.limits
      ] in
      if is_health_path request.path
      then record { headers = []; verdict = passes; limits = limits }
      else elim global.verdict [ too_many_requests _ ↦ global | passes ↦ passed ]
