-- ===== src/Retry/Cooldown.antt =====
-- How the breaker opens, waits and closes.
use agent_runs.Base.{ℕ, ◌+◌, ◌<◌, ◌≡◌, ◌∙◌, ap, true, some, arith, List, [], ◌∷◌, leb, length}
use agent_runs.Retry.{Breaker, breaker, is_open, allows, record_success, record_failure}

-- The breaker after failures at the given instants, one after the other, and no success.
abbrev pub fail_at : Breaker → List ℕ → Breaker
fail_at b [] = b
fail_at b (now ∷ rest) = fail_at (record_failure b now) rest

-- It is open exactly when it has counted as many failures as its threshold.
record IsCounting (b : Breaker) : Type 0 where
  counted : is_open b ≡ leb b.threshold b.failures
  positive : 0 < b.threshold

record_failure-IsCounting :
    (b : Breaker) (now : ℕ) → IsCounting b → IsCounting (record_failure b now)
unfolding record_failure is_open
record_failure-IsCounting b now h = ground arith

threshold-record_failure : (b : Breaker) (now : ℕ) → (record_failure b now).threshold ≡ b.threshold
unfolding record_failure
threshold-record_failure b now = ground arith

failures-record_failure : (b : Breaker) (now : ℕ) → (record_failure b now).failures ≡ b.failures + 1
unfolding record_failure
failures-record_failure b now = ground arith

fail_at_lem :
    (b : Breaker) (times : List ℕ)
    → IsCounting b
    → is_open (fail_at b times) ≡ leb b.threshold (b.failures + length times)
fail_at_lem b [] h = ground (arith, h.counted)
fail_at_lem b (now ∷ rest) h = ground (
  arith,
  fail_at_lem (record_failure b now) rest (record_failure-IsCounting b now h),
  threshold-record_failure b now,
  failures-record_failure b now,
)

-- A new breaker with a positive threshold that meets only failures is open exactly when there were
-- at least as many of them as its threshold.
pub breaker_opens :
    (threshold cooldown : ℕ) (times : List ℕ)
    → 0 < threshold
    → is_open (fail_at (breaker threshold cooldown) times) ≡ leb threshold (length times)
unfolding breaker is_open
breaker_opens threshold cooldown times p =
    fail_at_lem (breaker threshold cooldown) times (record { counted = ground arith; positive = p })
    ∙ ap (leb threshold) (omega arith)

-- An open breaker lets a call through exactly from its cooldown on; a failed call restarts the
-- cooldown from that failure and keeps it open; a success closes it, forgets the failures and lets
-- every later call through.
pub breaker_half_open :
    (b : Breaker) (opened now later : ℕ)
    → b.opened_at ≡ some opened
    → (allows b now ≡ leb (opened + b.cooldown) now)
      × (is_open (record_failure b now) ≡ true)
      × (allows (record_failure b now) later ≡ leb (now + b.cooldown) later)
      × (allows (record_success b) later ≡ true)
      × ((record_success b).failures ≡ 0)
unfolding allows is_open record_failure record_success
breaker_half_open b opened now later h = ground arith
