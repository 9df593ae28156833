-- ===== src/Examples/Requests.antt =====
-- Requests with one idempotency key, and requests under rate limits.
use expentra.Prelude.{
  trim, ℕ, String, true, false, none, some, List, [], ◌∷◌, ◌≡◌, ◌≤◌, ◌↔◌, ◌⊎◌, refl, arith, length,
  filter, includes, ltb,
}
use expentra.Policy.Json.{null, obj, Fields, field, end}
use expentra.Idempotency.{
  read_idempotency_key, invalid_key, replied, returns, look_up, acquire_lock, save, release_lock,
  intercept_step,
}
use expentra.Idempotency.System.{System, init, serve, Lasting, here, then_step, served}
use expentra.Idempotency.Exclusion.{mutual_exclusion}
use expentra.Idempotency.Replay.{
  is_outside, late_request_is_not_called, IsOneOf, answer_of, replies_are_answers,
}
use expentra.Idempotency.Schedule.{Turn, run, turns_with, has_ended, requests_end, run-Trace}
use expentra.Idempotency.Races.{AllReturn, calls_unbounded}
use expentra.Idempotency.Key.{
  takes_part, stable_stringify, hash_request_body, build_idempotency_storage_key, Reordered,
  build_idempotency_storage_key-Reordered,
}
use expentra.Samples.Strings.{by_codes, by_codes-IsStrictOrder}
use expentra.Prelude.Result.{err}
use expentra.RateLimiter.{SortedSets, AreDocumented, insert, first, run as run_limited}
use expentra.RateLimiter.Window.{IsFrom, log_run, within, run-log, run-within_limit}
use expentra.RateLimiter.Bursts.{copies, run-burst}
use expentra.RateLimiter.Guard.{
  RateLimitOptions, RateLimitRequest, RateLimitConfig, passes, is_health_path, Limits, can_activate,
}
use expentra.RateLimiter.Outcome.{closes, can_activate-without_redis}

abbrev lasting : Lasting
lasting = record { records = true; locks = true }

-- Request 0 has been answered; request 1 has not come yet.
abbrev answered_once : System
answered_once = run init (turns_with 0 201 null 5)

abbrev handling_first : System
handling_first = run init (turns_with 0 201 null 2)

mutual_exclusion_example : ◌≡◌ {A = ℕ} 0 0
unfolding run serve look_up acquire_lock intercept_step
mutual_exclusion_example =
    mutual_exclusion {lasting = lasting} {s = handling_first} refl
      (run-Trace (turns_with 0 201 null 2) here) 0 0 refl refl

late_request_is_not_called_example :
    (is_outside ((serve answered_once 1 (returns 200 null)).requests 1) ≡ true)
    × (includes (serve answered_once 1 (returns 200 null)).calls 1 ≡ false)
unfolding run serve look_up acquire_lock save release_lock intercept_step
late_request_is_not_called_example =
    late_request_is_not_called {lasting = lasting} {s = answered_once}
      {t = serve answered_once 1 (returns 200 null)} 1 refl refl refl refl
      (then_step here (served 1 (returns 200 null)))

replies_are_answers_example : IsOneOf (answer_of 201 null) answered_once.answers
unfolding run serve look_up acquire_lock save release_lock intercept_step
replies_are_answers_example =
    replies_are_answers {lasting = lasting} {s = answered_once}
      (run-Trace (turns_with 0 201 null 5) here) 0 201 null refl

requests_end_example : has_ended ((run init (turns_with 0 201 null 33)).requests 0) ≡ true
requests_end_example = requests_end (turns_with 0 201 null 33) 0 (omega arith)

calls_unbounded_example :
    (turns : List Turn) × AllReturn turns × (length (run init turns).calls ≡ 3)
calls_unbounded_example = calls_unbounded 3

-- The second of two requests is given the stored answer.
second_reply : (run answered_once (turns_with 1 500 null 1)).requests 1 ≡ replied 201 null
unfolding run serve look_up acquire_lock save release_lock intercept_step
second_reply = refl

-- Sorted sets as ascending lists.
abbrev listed : SortedSets
listed = record {
  Contents = List ℕ;
  empty = [];
  zremrangebyscore = λ up_to s. filter (ltb up_to) s;
  zcard = length;
  zadd = insert;
  zrange_first = first;
}

listed-AreDocumented : AreDocumented listed
listed-AreDocumented = record {
  members = λ s. s;
  members-empty = refl;
  members-zremrangebyscore = λ up_to s. refl;
  zcard_lem = λ s. refl;
  members-zadd = λ t s. refl;
  zrange_first_lem = λ s. refl;
}

abbrev four_times : List ℕ
four_times = 1000 ∷ 1001 ∷ 1500 ∷ 2100 ∷ []

four_times-IsFrom : IsFrom 0 four_times
four_times-IsFrom = (omega arith, (omega arith, (omega arith, (omega arith, tt))))

run-log_example : (run_limited listed 1000 2 four_times []).0 ≡ log_run 1000 2 four_times []
run-log_example = run-log listed listed-AreDocumented 1000 2 four_times four_times-IsFrom

-- The request at 1500 is refused.
four_times-allowed : log_run 1000 2 four_times [] ≡ 1000 ∷ 1001 ∷ 2100 ∷ []
four_times-allowed = refl

run-within_limit_example :
    length (filter (within 1000 1999) (run_limited listed 1000 2 four_times []).0) ≤ 2
run-within_limit_example =
    run-within_limit listed listed-AreDocumented 1000 2 four_times 1999 four_times-IsFrom

run-burst_example : (run_limited listed 1000 2 (copies 5 1000) []).0 ≡ copies 5 1000
run-burst_example = run-burst listed listed-AreDocumented 1000 2 1000 5 (omega arith)

abbrev one_two : ℕ → String
one_two n = "1"

abbrev config : RateLimitConfig
config = record { global_limit = 300; global_ttl_seconds = 60; trust_proxy = false }

abbrev login_request : RateLimitRequest
login_request = record {
  path = "/api/v1/auth/login";
  user_id = none;
  api_key = none;
  forwarded_for = none;
  real_ip = none;
  ip = some "10.0.0.1";
  remote_address = none;
}

abbrev login_options : RateLimitOptions
login_options = record { limit = 5; ttl = 60; resource = some "auth.login"; fail_closed = none }

abbrev no_redis : Limits listed
no_redis = record { contents = λ key. []; answers = false }

can_activate-without_redis_example :
    ((can_activate listed one_two config 1000 login_request
        (some ("AuthController.login", login_options))
        no_redis).verdict
      ≡ passes)
    ↔ ((is_health_path "/api/v1/auth/login" ≡ true)
        ⊎ (closes (some ("AuthController.login", login_options)) ≡ false))
can_activate-without_redis_example =
    can_activate-without_redis listed one_two config 1000 login_request
      (some ("AuthController.login", login_options)) no_redis refl

abbrev amount_first : Fields
amount_first = field "amount" null (field "title" null end)

abbrev title_first : Fields
title_first = field "title" null (field "amount" null end)

build_idempotency_storage_key-Reordered_example :
    build_idempotency_storage_key by_codes "key-0001" (some (obj title_first))
    ≡ build_idempotency_storage_key by_codes "key-0001" (some (obj amount_first))
build_idempotency_storage_key-Reordered_example =
    build_idempotency_storage_key-Reordered by_codes by_codes-IsStrictOrder "key-0001"
      (Reordered.swap "title" "amount" null null refl)

no_body : build_idempotency_storage_key by_codes "key-0001" none ≡ "key-0001:"
unfolding build_idempotency_storage_key hash_request_body stable_stringify
no_body = refl

-- A caller without an identifier goes past the interceptor.
anonymous : takes_part true none ≡ false
unfolding takes_part
anonymous = refl

short_key : read_idempotency_key (some " key-01 ") ≡ err invalid_key
unfolding read_idempotency_key trim
short_key = refl
