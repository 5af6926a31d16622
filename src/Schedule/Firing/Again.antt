-- ===== src/Schedule/Firing/Again.antt =====
-- The repeat of a fire finds the run it queued.
use Prim.Native.String.{◌++◌, count}
use text.Mathlib.TextLemmas.{length-append}
use agent_runs.Base.{
  ℕ, ◌+◌, ◌≤◌, String, ◌≡◌, Bool, true, false, not, ◌||◌, none, some, List, [], ◌∷◌, arith, holds,
  ltb, str_eq, truthy, eq_iff, opt_eq_iff, Bool-cases, Option-cases, inl, inr, find_first, ok,
  >>=-eq-ok, raise_if, conflict, unprocessable, refl, ap, find_first-passes,
}
use agent_runs.Run.Rows.{RunStart, RunRow, Db}
use agent_runs.Run.Store.{RunRecord, record_of, is_run}
use agent_runs.Run.Starts.{
  new_row, has_id, has_key, taken, existing, found_by_id, found_by_key, start_run,
}
use agent_runs.Schedule.Rows.{ScheduleRow, Formats}
use agent_runs.Schedule.Store.{World, is_schedule, schedule_row, put_schedule, arm, fired_row}
use agent_runs.Schedule.Firing.{
  Planner, Fired, queued_run, idempotency_key, fire_start, fire_at, max_fire_skew, tick_of, fire,
}
use agent_runs.Schedule.Firing.Once.{queued_parts}

-- The key of a fire is not empty, so the database holds at most one run of it.
key_truthy :
    (formats : Formats) (id : String) (fire_time : ℕ)
    → truthy (some (idempotency_key formats id fire_time)) ≡ true
unfolding idempotency_key
key_truthy formats id fire_time =
    elim (Bool-cases (str_eq (id ++ ("@" ++ formats.isoformat fire_time)) "")) [
      | inl t ↦
          let empty : count (id ++ ("@" ++ formats.isoformat fire_time)) ≡ count "" =
            ap count ((eq_iff _ _).0 t) in
          let at_least : count ("@" ++ formats.isoformat fire_time)
              ≡ count "@" + count (formats.isoformat fire_time) =
            length-append "@" (formats.isoformat fire_time) in
          absurd
            (omega (arith, empty, at_least, length-append id ("@" ++ formats.isoformat fire_time)))
      | inr f ↦ ground arith
    ]

-- What a weaker test does not find, a stronger one does not.
find_first-none :
    (weak strong : RunRow → Bool) (rows : List RunRow)
    → ((r : RunRow) → strong r ≡ true → weak r ≡ true)
    → find_first weak rows ≡ none
    → find_first strong rows ≡ none
find_first-none weak strong [] sub e = refl
find_first-none weak strong (x ∷ xs) sub e =
    let rest : find_first weak xs ≡ none = ground arith in
    ground (arith, sub x, find_first-none weak strong xs sub rest)

-- A later start under a key that a run has finds it, and writes nothing.
keyed_again :
    (start : RunStart) (queue : Bool) (later : ℕ) (db : Db) {row : RunRow}
    → truthy start.idempotency_key ≡ true
    → find_first (has_key start.tenant_id start.idempotency_key) db.runs ≡ some row
    → start_run start queue later false db ≡ ok ((record_of row later, false), db)
unfolding start_run taken existing found_by_key
keyed_again start queue later db {row} key there =
    let either =
      λ (r : RunRow). has_id start.run_id r || has_key start.tenant_id start.idempotency_key r in
    elim (Option-cases (find_first either db.runs)) [
      | inl nothing ↦
          let no_key =
            find_first-none either (has_key start.tenant_id start.idempotency_key) db.runs
              (λ r t. ground arith) nothing in
          absurd (ground arith)
      | inr (r, found) ↦ ground arith
    ]

keyed_row :
    (start : RunStart) (queue : Bool) (now : ℕ)
    → truthy start.idempotency_key ≡ true
    → (rows : List RunRow)
    → find_first (has_key start.tenant_id start.idempotency_key) (new_row start queue now ∷ rows)
      ≡ some (new_row start queue now)
unfolding new_row
keyed_row start queue now key rows = ground (
  arith,
  eq_iff start.tenant_id start.tenant_id,
  opt_eq_iff start.idempotency_key start.idempotency_key,
)

-- The run a start answers can be found under its key, where its key is one and its id was free.
started_keyed :
    (start : RunStart) (queue : Bool) (now : ℕ) (db db' : Db) {made : RunRecord} {created : Bool}
    → truthy start.idempotency_key ≡ true
    → find_first (has_id start.run_id) db.runs ≡ none
    → start_run start queue now false db ≡ ok ((made, created), db')
    → (row : RunRow) × (find_first (has_key start.tenant_id start.idempotency_key) db'.runs
        ≡ some row)
      × (made ≡ record_of row now)
unfolding start_run existing found_by_id
started_keyed start queue now db db' {made} {created} key free e =
    elim (Option-cases (find_first (has_key start.tenant_id start.idempotency_key) db.runs)) [
      | inr (row, there) ↦
          let again = keyed_again start queue now db key there in
          let tables : db.runs ≡ db'.runs = ground arith in (row, rw (← tables) there, ground arith)
      | inl nothing ↦
          let no_id =
            find_first-none (has_id start.run_id) (is_run start.tenant_id start.run_id) db.runs
              (λ r t. ground arith) free in
          let row = new_row start queue now in
          let written : row ∷ db.runs ≡ db'.runs = ground arith in
          (row, rw (← written) (keyed_row start queue now key db.runs), ground arith)
    ]

-- The schedule written back is the one found again.
schedule_again :
    (tenant id : String) (r : ScheduleRow) (rows : List ScheduleRow) {row : ScheduleRow}
    → is_schedule tenant id r ≡ true
    → schedule_row tenant id rows ≡ ok row
    → schedule_row tenant id (put_schedule r rows) ≡ ok r
unfolding schedule_row put_schedule
schedule_again tenant id r [] own there = absurd (ground arith)
schedule_again tenant id r (x ∷ xs) {row} own there =
    elim (Bool-cases (str_eq x.schedule_id r.schedule_id)) [
      | inl t ↦ rw t (ground arith)
      | inr f ↦
          let other : is_schedule tenant id x ≡ false = ground (
            arith,
            eq_iff x.schedule_id id,
            eq_iff r.schedule_id id,
            eq_iff x.schedule_id r.schedule_id,
          ) in
          let later : schedule_row tenant id xs ≡ ok row = ground arith in
          rw (f, schedule_row, other) (schedule_again tenant id r xs own later)
    ]

schedule_passes :
    (tenant id : String) (rows : List ScheduleRow) {row : ScheduleRow}
    → schedule_row tenant id rows ≡ ok row
    → is_schedule tenant id row ≡ true
unfolding schedule_row
schedule_passes tenant id rows {row} e =
    let there : find_first (is_schedule tenant id) rows ≡ some row = ground arith in
    let passing = find_first-passes (is_schedule tenant id) rows there in passing

-- A fire whose start finds a run writes the schedule and nothing else.
fires_found :
    (w : World) (again tenant id : String) (fire_time later : ℕ) (p : Planner) (row : ScheduleRow)
    (made : RunRecord) {fired : Fired}
    → schedule_row tenant id p.schedules ≡ ok row
    → row.spec.enabled ≡ true
    → fire_time ≤ later + max_fire_skew
    → start_run (fire_start w.formats again row fire_time) true later false p.db
      ≡ ok ((made, false), p.db)
    → fired ≡ queued_run made.run_id fire_time
    → (p' : Planner) × (fire w again none tenant id (some fire_time) later p ≡ ok (fired, p'))
      × (p'.db ≡ p.db)
unfolding fire tick_of fire_at
fires_found w again tenant id fire_time later p row made found on near started said =
    let left : Planner = record {
      db = p.db;
      schedules = put_schedule (fired_row w row fire_time made.run_id later) p.schedules;
    } in
    let fires : fire_at w again none row fire_time later p
        ≡ ok (queued_run made.run_id fire_time, left) =
      rw started refl in
    (left, ground (arith, fires, found, on, near, said), refl)

-- A fire asked for a tick fires the schedule it names, which is enabled.
fire_parts :
    (w : World) (run tenant id : String) (fire_time now : ℕ) (p p' : Planner) {fired : Fired}
    → fire w run none tenant id (some fire_time) now p ≡ ok (fired, p')
    → (row : ScheduleRow) × (schedule_row tenant id p.schedules ≡ ok row)
      × (row.spec.enabled ≡ true)
      × (fire_time ≤ now + max_fire_skew)
      × (fire_at w run none row fire_time now p ≡ ok (fired, p'))
unfolding fire tick_of
fire_parts w run tenant id fire_time now p p' e =
    let (row, found, e1) = >>=-eq-ok (schedule_row tenant id p.schedules) _ e in
    let (u1, on, e2) = >>=-eq-ok (raise_if (not row.spec.enabled) conflict) _ e1 in
    let (u2, near, e3) =
      >>=-eq-ok (raise_if (holds (some fire_time) (λ t. ltb (now + max_fire_skew) t)) unprocessable)
        _ e2 in
    (row, found, ground arith, ground arith, e3)

-- A fire of one tick made twice, as by a caller's retry or by two tickers: the second one answers the
-- run the first one answered and leaves the tables of runs as they are, whatever id it would have
-- minted. It is asked for at the same tick, no earlier than the first, whose minted id no run had.
pub fire-fire :
    (w : World) (run again tenant id : String) (fire_time now later : ℕ) (p p' : Planner)
    {fired : Fired}
    → find_first (has_id run) p.db.runs ≡ none
    → now ≤ later
    → fire w run none tenant id (some fire_time) now p ≡ ok (fired, p')
    → (p'' : Planner) × (fire w again none tenant id (some fire_time) later p' ≡ ok (fired, p''))
      × (p''.db ≡ p'.db)
unfolding fire_start fired_row arm record_of
fire-fire w run again tenant id fire_time now later p p' {fired} free after e =
    let (row, found, on, near, fires) = fire_parts w run tenant id fire_time now p p' e in
    let (made, created, started, queued, written) =
      queued_parts w run row fire_time now p p' fires in
    let key = key_truthy w.formats row.schedule_id fire_time in
    let (first, there, same) =
      started_keyed (fire_start w.formats run row fire_time) true now p.db p'.db key free started in
    let left : ScheduleRow = fired_row w row fire_time made.run_id now in
    let own = schedule_passes tenant id p.schedules found in
    let found_again : schedule_row tenant id p'.schedules ≡ ok left =
      rw written (schedule_again tenant id left p.schedules own found) in
    let repeat =
      keyed_again (fire_start w.formats again left fire_time) true later p'.db key there in
    let said : fired ≡ queued_run first.start.run_id fire_time = ground (arith, queued, same) in
    fires_found w again tenant id fire_time later p' left (record_of first later) found_again on
      (omega (arith, near, after)) repeat said
