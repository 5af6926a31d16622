-- ===== src/Tests/Schedules.antt =====
-- Schedules upserted, fired and fired again.
use mathlib.Core.List.{Memᴰ}
use agent_runs.Base.{
  ℕ, ◌+◌, String, ◌≡◌, arith, true, false, Option, none, some, [], ◌∷◌, Result, ok, err, refl,
}
use agent_runs.Retry.{hours}
use agent_runs.Run.Service.{empty_db}
use agent_runs.Run.Store.{record_of}
use agent_runs.Run.Starts.{new_row, taken, start_run}
use agent_runs.Schedule.Cadence.{validate_cadence, is_bucket, looked_up, next_fire_at}
use agent_runs.Schedule.Rows.{ScheduleSpec, ScheduleRow}
use agent_runs.Schedule.Store.{
  World, checked, apply, arm, fresh_schedule, upsert, schedule_row, put_schedule, is_due, claim_due,
  fired_row,
}
use agent_runs.Schedule.Firing.{
  Planner, Fired, queued_run, fire_start, fire_at, tick_of, fire, fire_due,
}
use agent_runs.Schedule.Firing.Served.{
  no_schedules, served, upsert_request, serve_schedule, AllKept, Planned-AllKept,
}
use agent_runs.Schedule.Firing.Once.{Advances, fire_due-once}
use agent_runs.Schedule.Firing.Again.{fire-fire}

-- An hourly cron and plain texts.
abbrev pub world : World
world = record {
  cron = record {
    is_valid = λ text. true;
    probe = λ expression after. some (after + hours 1);
    next_occurrence = λ expression after zone. after + hours 1;
    strip = λ text. text;
  };
  formats = record {
    is_spec = λ spec. true;
    sha256 = λ input. "digest";
    isoformat = λ instant. "T";
    quoted = λ text. text;
    text_of = λ json. some json;
    json_of = λ members. "{}";
  };
  probe_from = 0;
}

world-Advances : Advances world.cron
world-Advances expression after zone = omega arith

abbrev nightly : ScheduleSpec
nightly = record {
  tenant_id = "t";
  agent_id = "a";
  name = "nightly";
  cadence = "hourly";
  timezone = "UTC";
  input = none;
  on_behalf_of = "ann";
  workspace_id = none;
  enabled = true;
  timeout_seconds = none;
  agent_version = none;
  priority = 0;
  concurrency_key = none;
  metadata = [];
}

abbrev pub row : ScheduleRow
row = record {
  schedule_id = "s1";
  spec = nightly;
  input_sha256 = "digest";
  created_by = "ann";
  next_fire_at = some (hours 1);
  last_fired_at = none;
  last_run_id = none;
  consecutive_failures = 0;
  last_error = none;
  retry_after = none;
  created_at = 0;
  updated_at = 0;
}

abbrev planned : Planner
planned = record { db = empty_db; schedules = row ∷ [] }

-- The tables an operation leaves.
abbrev left_by : Result (Fired × Planner) → Planner
left_by (ok done) = done.1
left_by (err why) = planned

upserted :
    serve_schedule world 0
      (upsert_request "s1" nightly "ann")
      (record { db = empty_db; schedules = [] })
    ≡ ok planned
unfolding serve_schedule upsert checked validate_cadence is_bucket fresh_schedule arm apply
    next_fire_at looked_up
upserted = refl

Planned-AllKept_example : AllKept planned.schedules
Planned-AllKept_example =
    Planned-AllKept world planned
      (served 0 (upsert_request "s1" nightly "ann") (no_schedules empty_db) upserted)

pub planned-AllKept : AllKept planned.schedules
planned-AllKept =
    Planned-AllKept world planned
      (served 0 (upsert_request "s1" nightly "ann") (no_schedules empty_db) upserted)

abbrev fired_once : Result (Fired × Planner)
fired_once = fire world "r1" none "t" "s1" (some (hours 1)) (hours 1) planned

fired_ok : fired_once ≡ ok (queued_run "r1" (hours 1), left_by fired_once)
unfolding fire schedule_row tick_of fire_at fire_start start_run taken new_row record_of
fired_ok = refl

fire-fire_example :
    (p : Planner) × (fire world "r2" none "t" "s1" (some (hours 1)) (hours 2) (left_by fired_once)
      ≡ ok (queued_run "r1" (hours 1), p))
    × (p.db ≡ (left_by fired_once).db)
fire-fire_example =
    fire-fire world "r1" "r2" "t" "s1" (hours 1) (hours 1) (hours 2) planned (left_by fired_once)
      refl (omega arith) fired_ok

abbrev due_fired : Result (Option Fired × Planner)
due_fired = fire_due world "r1" none (λ r. true) (hours 1) planned

abbrev left_by_due : Planner
left_by_due = elim due_fired [ err why ↦ planned | ok done ↦ done.1 ]

due_ok : due_fired ≡ ok (some (queued_run "r1" (hours 1)), left_by_due)
unfolding fire_due claim_due is_due fire_at fire_start start_run taken new_row record_of
due_ok = refl

fire_due-once_example :
    (r : ScheduleRow) × (due : ℕ) × (id : String) × Memᴰ r planned.schedules
    × (is_due (hours 1) r ≡ true)
    × (r.next_fire_at ≡ some due)
    × (queued_run "r1" (hours 1) ≡ queued_run id due)
    × (left_by_due.schedules ≡ put_schedule (fired_row world r due id (hours 1)) planned.schedules)
    × (is_due 7 (fired_row world r due id (hours 1)) ≡ false)
    × (is_due due (fired_row world r due id (hours 1)) ≡ false)
fire_due-once_example =
    fire_due-once world "r1" (λ r. true) (hours 1) 7 planned left_by_due world-Advances
      (omega arith) due_ok
