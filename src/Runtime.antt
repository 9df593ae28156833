-- ===== src/Runtime.antt =====
-- What a call reads from outside the program: the clock, the configuration, and parts of the
-- JavaScript runtime. A call is taken to read the clock once.
use expentra.Prelude.{ℕ, String, Bool}
use expentra.Budget.Period.{Zone}

pub record Runtime : Type 0 where
  pub now : ℕ  -- `new Date()`
  pub zone : Zone  -- the zone of `BUDGET_TIMEZONE`
  pub to_upper : String → String  -- `String.prototype.toUpperCase`
  pub block_submit_on_overspend : Bool  -- `BUDGET_BLOCK_SUBMIT_ON_OVERSPEND`
  pub near_limit_threshold_percent : ℕ  -- `BUDGET_ALERT_THRESHOLD_PERCENT`
  pub to_iso_string : ℕ → String  -- `Date.prototype.toISOString`
