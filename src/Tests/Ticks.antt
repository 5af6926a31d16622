-- ===== src/Tests/Ticks.antt =====
-- The ticker at work.
use agent_runs.Base.{ℕ, true, false, none, some, List, [], ◌∷◌}
use agent_runs.Retry.{hours, breaker}
use agent_runs.Run.Service.{empty_db, nothing}
use agent_runs.Ticker.Jobs.{Tables, Ticker, Pass, breaker_threshold, breaker_cooldown}
use agent_runs.Ticker.Tick.{run_forever}
use agent_runs.Ticker.Refines.{Promised, run_forever-Promised}
use agent_runs.Tests.Samples.{contracts}
use agent_runs.Tests.Schedules.{world, row, planned-AllKept}

abbrev ticker : Ticker
ticker = record {
  contracts = contracts;
  limits = record {
    max_run_seconds = none;
    concurrency_per_key = 1;
    max_running_per_tenant = none;
  };
  world = world;
  dead_retention = hours 168;
  run_retention = some (hours 240);
  payload = λ run event. event;
  delivery_id = λ run event hook. hook;
}

abbrev smooth : Pass
smooth = record {
  free_runs = λ step r. true;
  free_schedules = λ step r. true;
  free_deliveries = λ step r. true;
  free_artifacts = λ a. true;
  draw = λ run. 0;
  minted = λ round. "r1";
  outage = λ round. none;
  attempt_of = λ delivery. record { error = none; retry = false };
  blob_deleted = λ a. true;
  down = λ step. false;
}

abbrev broken : Pass
broken = record smooth { down = λ step. true }

abbrev start : Tables
start = record {
  db = empty_db;
  schedules = row ∷ [];
  outbox = record { hooks = []; deliveries = [] };
}

abbrev passes : List (Pass × ℕ)
passes = (smooth, hours 1) ∷ (broken, hours 2) ∷ []

run_forever-Promised_example :
    Promised ticker (run_forever ticker passes (breaker breaker_threshold breaker_cooldown) start).1
run_forever-Promised_example =
    run_forever-Promised ticker passes (breaker breaker_threshold breaker_cooldown) start
      (nothing, planned-AllKept)
