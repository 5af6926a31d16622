-- ===== src/Retry.antt =====
-- src/agent_runs/retry.py: the capped doubling backoff, its jitter, and the breaker. A `timedelta`
-- and a `datetime` are counts of microseconds, Python's own resolution.
pub mod Backoff
pub mod Cooldown
use agent_runs.Base.{
  ℕ, ◌+◌, ◌-◌, ◌*◌, ◌/◌, ◌%◌, ◌^◌, min, Bool, true, false, Option, none, some, ◌||◌, ◌&&◌, ltb, leb,
  ◌==◌, is_some, Result, ok, err, internal, if◌then◌else◌,
}

abbrev pub seconds : ℕ → ℕ
seconds n = n * 1000000

abbrev pub minutes : ℕ → ℕ
minutes n = seconds (60 * n)

abbrev pub hours : ℕ → ℕ
hours n = minutes (60 * n)

-- `timedelta.max`
abbrev pub max_timedelta : ℕ
max_timedelta = 86399999999999999999

-- The wait after the `failures`-th consecutive failure. The product comes before the cap: `none` is the
-- OverflowError of a product that no `timedelta` holds.
unfoldable pub backoff : ℕ → ℕ → ℕ → Option ℕ
backoff base failures cap =
    if leb (base * 2 ^ (failures - 1)) max_timedelta
    then some (min (base * 2 ^ (failures - 1)) cap)
    else none

-- The wait, or the OverflowError that leaves the request.
abbrev pub in_range : Option ℕ → Result ℕ
in_range none = err internal
in_range (some wait) = ok wait

-- `timedelta / int` and `timedelta * float`: to the nearest microsecond, ties to the even one.
unfoldable pub divide_nearest : ℕ → ℕ → ℕ
divide_nearest a b =
    let q = a / b in
    let r = a % b in if ltb b (2 * r) || (2 * r == b && q % 2 == 1) then q + 1 else q

-- `draw` is what `random.random` drew, in units of 2 ^ -53: `uniform(0, 0.5)` is `draw / 2 ^ 54`.
unfoldable pub jittered : ℕ → ℕ → ℕ
unfolding divide_nearest
jittered wait draw = divide_nearest wait 2 + divide_nearest (wait * draw) (2 ^ 54)

-- Stop calling a dependency that keeps failing.
pub record Breaker : Type 0 where
  pub threshold : ℕ
  pub cooldown : ℕ
  pub failures : ℕ
  pub opened_at : Option ℕ

unfoldable pub breaker : ℕ → ℕ → Breaker
breaker threshold cooldown = record {
  threshold = threshold;
  cooldown = cooldown;
  failures = 0;
  opened_at = none;
}

unfoldable pub is_open : Breaker → Bool
is_open b = is_some b.opened_at

-- `now - opened_at >= cooldown`, with `opened_at` moved to the other side.
unfoldable pub allows : Breaker → ℕ → Bool
allows b now = elim b.opened_at [ none ↦ true | some opened ↦ leb (opened + b.cooldown) now ]

unfoldable pub record_success : Breaker → Breaker
record_success b = record b { failures = 0; opened_at = none }

unfoldable pub record_failure : Breaker → ℕ → Breaker
record_failure b now =
    let counted = record b { failures = b.failures + 1 } in
    if is_some b.opened_at || leb b.threshold counted.failures
    then record counted { opened_at = some now }
    else counted
