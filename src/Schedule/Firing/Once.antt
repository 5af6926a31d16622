-- ===== src/Schedule/Firing/Once.antt =====
-- A fire moves the schedule past now.
use mathlib.Core.List.{Memᴰ}
use agent_runs.Base.{
  ℕ, ◌≤◌, ◌<◌, max, String, ◌≡◌, Bool, true, false, none, some, arith, Option-cases, inl, inr, ok,
  >>=-eq-ok, All-self,
}
use agent_runs.Run.Store.{RunRecord}
use agent_runs.Run.Starts.{start_run}
use agent_runs.Schedule.Cadence.{looked_up, buckets, next_fire_at, Cron}
use agent_runs.Schedule.Rows.{ScheduleRow}
use agent_runs.Schedule.Store.{World, put_schedule, is_due, arm, fired_row}
use agent_runs.Schedule.Firing.{Planner, Fired, queued_run, fire_start, fire_at, fire_due}
use agent_runs.Schedule.Firing.Served.{fire_due-cases, claim_due-due}

-- What the cron library documents: the next occurrence lies strictly after the instant.
abbrev pub Advances : Cron → Type 0
Advances cron =
    (expression : String) (after : ℕ) (timezone : String)
    → after < cron.next_occurrence expression after timezone

fired_row-not_due :
    (w : World) (row : ScheduleRow) (fire_time : ℕ) (run : String) (now later : ℕ)
    → Advances w.cron
    → later ≤ max fire_time now
    → is_due later (fired_row w row fire_time run now) ≡ false
unfolding is_due fired_row arm next_fire_at
fired_row-not_due w row fire_time run now later advances soon =
    elim (Option-cases (looked_up buckets row.spec.cadence)) [
      | inl manual ↦ ground arith
      | inr (expression, fires) ↦
          ground (arith, advances expression (max fire_time now) row.spec.timezone)
    ]

pub queued_parts :
    (w : World) (run : String) (row : ScheduleRow) (fire_time now : ℕ) (p p' : Planner)
    {fired : Fired}
    → fire_at w run none row fire_time now p ≡ ok (fired, p')
    → (made : RunRecord) × (created : Bool) × (start_run
          (fire_start w.formats run row fire_time)
          true
          now
          false
          p.db
        ≡ ok ((made, created), p'.db))
      × (fired ≡ queued_run made.run_id fire_time)
      × (p'.schedules ≡ put_schedule (fired_row w row fire_time made.run_id now) p.schedules)
unfolding fire_at
queued_parts w run row fire_time now p p' {fired} e =
    let (started, begun, done) =
      >>=-eq-ok (start_run (fire_start w.formats run row fire_time) true now false p.db) _ e in
    let tables : started.1 ≡ p'.db = ground arith in
    (started.0.0, started.0.1, ground (arith, begun, tables), ground arith, ground arith)

-- A ticker's fire that finds a schedule to fire fires one that is due, for the tick it is due for, and
-- its run becomes the schedule's last. Where the cron library answers instants strictly later than the
-- one it is given, that schedule is not due again at any instant up to now, nor up to the tick.
pub fire_due-once :
    (w : World) (run : String) (free : ScheduleRow → Bool) (now later : ℕ) (p p' : Planner)
    {fired : Fired}
    → Advances w.cron
    → later ≤ now
    → fire_due w run none free now p ≡ ok (some fired, p')
    → (row : ScheduleRow) × (due : ℕ) × (id : String) × Memᴰ row p.schedules
      × (is_due now row ≡ true)
      × (row.next_fire_at ≡ some due)
      × (fired ≡ queued_run id due)
      × (p'.schedules ≡ put_schedule (fired_row w row due id now) p.schedules)
      × (is_due later (fired_row w row due id now) ≡ false)
      × (is_due due (fired_row w row due id now) ≡ false)
fire_due-once w run free now later p p' {fired} advances soon e =
    elim (fire_due-cases w run none free now p p' e) [
      | inl nothing ↦ absurd (ground (arith, nothing.1))
      | inr (row, due, done, claimed, armed, said, fires) ↦
          let (member, is_now_due) =
            claim_due-due free now (λ r. Memᴰ r p.schedules) p.schedules (All-self p.schedules)
              claimed in
          let (found, created, started, queued, written) =
            queued_parts w run row due now p p' fires in
          (
            row,
            due,
            found.run_id,
            member,
            is_now_due,
            armed,
            ground (arith, said, queued),
            written,
            fired_row-not_due w row due found.run_id now later advances (omega (arith, soon)),
            fired_row-not_due w row due found.run_id now due advances (omega arith),
          )
    ]
