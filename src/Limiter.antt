-- ===== src/Limiter.antt =====
-- src/agent_runs/api/ratelimit.py: the budget of requests of a tenant, one row of
-- `rate_limit_buckets`. Times are microseconds; the interval between two requests is given as such.
pub mod Window
use agent_runs.Base.{
  ℕ, ◌+◌, ◌-◌, ◌*◌, ◌/◌, max, Bool, true, false, Option, none, some, leb, if◌then◌else◌,
}
use agent_runs.Retry.{seconds}

-- `TenantRateLimiter`, with the interval that its requests per minute come to.
pub record TenantRateLimiter : Type 0 where
  pub per_minute : ℕ
  pub interval : ℕ
  pub burst : ℕ

-- `Decision`
pub record Decision : Type 0 where
  pub allowed : Bool
  pub limit : ℕ
  pub remaining : ℕ
  pub retry_after : ℕ

abbrev pub tolerance : TenantRateLimiter → ℕ
tolerance l = l.interval * (l.burst - 1)

-- `greatest(tat, now)`; a tenant with no row yet is due now.
unfoldable pub due : Option ℕ → ℕ → ℕ
due none now = now
due (some tat) now = max tat now

-- `math.ceil` of a quotient.
unfoldable pub ceil_div : ℕ → ℕ → ℕ
ceil_div a b = (a + (b - 1)) / b

-- `take`: the decision, and the row it leaves.
unfoldable pub take_request : TenantRateLimiter → ℕ → Option ℕ → Decision × Option ℕ
unfolding due ceil_div
take_request l now tat =
    let at = due tat now in
    if leb (at - now) (tolerance l)
    then (
      record {
        allowed = true;
        limit = l.per_minute;
        remaining = l.burst - ceil_div (at + l.interval - now) l.interval;
        retry_after = 0;
      },
      some (at + l.interval),
    )
    else (
      record {
        allowed = false;
        limit = l.per_minute;
        remaining = 0;
        retry_after = max 1 (ceil_div (at - now - tolerance l) (seconds 1));
      },
      tat,
    )
