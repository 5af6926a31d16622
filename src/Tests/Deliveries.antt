-- ===== src/Tests/Deliveries.antt =====
-- The outbox, the event log and the rate limiter at work.
use agent_runs.Base.{
  arith, ◌*◌, ◌-◌, ◌≤◌, ℕ, ◌+◌, ◌≡◌, true, false, ◌||◌, none, some, List, [], ◌∷◌, map, is_some,
  leb, length, Result, ok, err, refl,
}
use agent_runs.Limiter.{TenantRateLimiter}
use agent_runs.Limiter.Window.{allowed_count, window_bound}
use agent_runs.Outbox.{DeliveryRow, Outbox, Delivery, Attempt, webhook_attempts, settle}
use agent_runs.Outbox.Attempts.{Round, is_refused, fail_rounds, fail_rounds_lem, settle-keeps}
use agent_runs.Run.Rows.{Db}
use agent_runs.Run.Moves.{fence}
use agent_runs.Run.Store.{found, locked}
use agent_runs.Run.Events.{
  RunEvent, names_run, last_position, add_events, may_append, append_events,
}
use agent_runs.Run.Events.Appends.{append_events-append_events}
use agent_runs.Tests.Samples.{held_row, only}

abbrev fresh_row : DeliveryRow
fresh_row = record {
  delivery_id = "d1";
  webhook_id = "h1";
  payload = "{}";
  attempts = 0;
  next_attempt_at = 5;
  last_error = none;
  dead_at = none;
  created_at = 5;
}

abbrev down_at : ℕ → Round
down_at now = record { at = now; why = "down"; again = true }

abbrev failing : List Round
failing = down_at 10 ∷ down_at 20 ∷ record { at = 30; why = "answered 404"; again = false } ∷ []

fail_rounds_lem_example : is_some (fail_rounds fresh_row failing).dead_at ≡ (
    is_some fresh_row.dead_at
    || (is_refused failing || leb webhook_attempts (fresh_row.attempts + length failing)))
fail_rounds_lem_example =
    fail_rounds_lem fresh_row failing (λ spent. absurd (ground (arith, spent)))

abbrev box : Outbox
box = record { hooks = []; deliveries = fresh_row ∷ [] }

abbrev sent : Delivery
sent = record {
  delivery_id = "d1";
  url = "https://example.org";
  secret = "s";
  payload = "{}";
  attempts = 1;
  previous_secret = none;
}

abbrev refused : Attempt
refused = record { error = some "answered 500"; retry = true }

settle-keeps_example :
    map (λ r. r.delivery_id) (settle sent refused 30 box).1.deliveries
    ≡ map (λ r. r.delivery_id) box.deliveries
settle-keeps_example = settle-keeps sent refused 30 box refl

abbrev two_events : List RunEvent
two_events =
    record { run_id = "r1"; tenant_id = "t"; attempt = 1; sequence = 1; body = "{}" }
    ∷ record { run_id = "r1"; tenant_id = "t"; attempt = 1; sequence = 2; body = "{}" }
    ∷ []

abbrev tables_of : Result ((ℕ × ℕ) × Db) → Db
tables_of (ok (counts, db)) = db
tables_of (err e) = only held_row

abbrev logged_db : Db
logged_db = tables_of (append_events "t" "r1" two_events (some "w") (only held_row))

appended_ok : append_events "t" "r1" two_events (some "w") (only held_row) ≡ ok ((2, 2), logged_db)
unfolding append_events names_run locked found fence may_append add_events last_position
appended_ok = refl

append_events-append_events_example :
    (last_position "r1" logged_db.events ≡ 2)
    × (2 ≡ last_position "r1" (only held_row).events + 2)
    × (append_events "t" "r1" two_events (some "w") logged_db ≡ ok ((0, 2), logged_db))
append_events-append_events_example =
    append_events-append_events "t" "r1" two_events (some "w") (only held_row) logged_db 2 2
      appended_ok

abbrev limiter : TenantRateLimiter
limiter = record { per_minute = 60; interval = 1000000; burst = 2 }

abbrev hurried : List ℕ
hurried = 5 ∷ 6 ∷ 7 ∷ 1000010 ∷ []

window_bound_example :
    allowed_count limiter hurried none * limiter.interval
    ≤ (1000010 - 5) + limiter.interval * limiter.burst
window_bound_example =
    window_bound limiter 5 1000010 hurried (omega arith)
      (omega arith, (omega arith, (omega arith, (omega arith, omega arith))))
