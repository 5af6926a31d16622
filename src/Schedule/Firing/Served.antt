-- ===== src/Schedule/Firing/Served.antt =====
-- The operations on schedules as requests, each in a transaction of its own, and what holds of every
-- schedule they lead to.
use mathlib.Core.Path.{subst}
use agent_runs.Base.{
  ◌⊎◌, ℕ, ◌+◌, String, ◌≡◌, Bool, true, false, not, ◌&&◌, Option, none, some, List, [], ◌∷◌, arith,
  holds, ltb, str_eq, All, All-weaken, Bool-cases, Option-cases, inl, inr, find_first, select,
  Result, ok, ◌>>=◌, >>=-eq-ok, raise_if, conflict, unprocessable,
}
use agent_runs.Run.Rows.{AgentError, Db}
use agent_runs.Run.Starts.{start_run}
use agent_runs.Run.Keeps.{find_first-All, select-All, sort_by-All}
use agent_runs.Schedule.Rows.{ScheduleSpec, ScheduleRow, ScheduleUpdate}
use agent_runs.Schedule.Store.{
  World, checked, same_identity, fresh_schedule, upsert, is_schedule, schedule_row, put_schedule,
  changed_spec, updated_row, duplicates, update, delete, is_due, first_of, claim_due, fired_row,
  struck_row,
}
use agent_runs.Schedule.Firing.{
  Planner, Fired, fire_start, fire_at, max_fire_skew, tick_of, fire, fire_due,
}
use agent_runs.Schedule.Firing.Sound.{
  IsKept, fresh_schedule-IsKept, fired_row-IsKept, struck_row-IsKept, updated_row-IsKept,
}

pub data ScheduleRequest : Type 0 where
  upsert_request : String → ScheduleSpec → String → ScheduleRequest
  update_request : String → String → ScheduleUpdate → ScheduleRequest
  delete_request : String → String → ScheduleRequest
  fire_request : String → Option AgentError → String → String → Option ℕ → ScheduleRequest
  fire_due_request : String → Option AgentError → (ScheduleRow → Bool) → ScheduleRequest

unfoldable pub serve_schedule : World → ℕ → ScheduleRequest → Planner → Result Planner
serve_schedule w now (upsert_request id spec created_by) p = do
  done ← upsert w id spec created_by now p.schedules
  ok (record p { schedules = done.1 })
serve_schedule w now (update_request tenant id change) p = do
  done ← update w tenant id change now p.schedules
  ok (record p { schedules = done.1 })
serve_schedule w now (delete_request tenant id) p = do
  left ← delete tenant id p.schedules
  ok (record p { schedules = left })
serve_schedule w now (fire_request run outage tenant id at) p = do
  done ← fire w run outage tenant id at now p
  ok done.1
serve_schedule w now (fire_due_request run outage free) p = do
  done ← fire_due w run outage free now p
  ok done.1

-- The tables that some sequence of requests, at any instants, leads to from no schedules; between them
-- the runs may change in any way.
pub data Planned (w : World) : Planner → Type 0 where
  no_schedules : (db : Db) → Planned w (record { db = db; schedules = [] })
  runs_changed : {p : Planner} (db : Db) → Planned w p → Planned w (record p { db = db })
  served :
      {p p' : Planner} (now : ℕ) (request : ScheduleRequest)
      → Planned w p
      → serve_schedule w now request p ≡ ok p'
      → Planned w p'

abbrev pub AllKept : List ScheduleRow → Type 0
AllKept rows = All IsKept rows

put_schedule-AllKept :
    (row : ScheduleRow) (rows : List ScheduleRow)
    → IsKept row
    → AllKept rows
    → AllKept (put_schedule row rows)
unfolding put_schedule
put_schedule-AllKept row [] v all = tt
put_schedule-AllKept row (r ∷ rs) v all = elim (Bool-cases (str_eq r.schedule_id row.schedule_id)) [
  | inl t ↦ rw t (v, put_schedule-AllKept row rs v all.1)
  | inr f ↦ rw f (all.0, put_schedule-AllKept row rs v all.1)
]

schedule_row-IsKept :
    (tenant id : String) (rows : List ScheduleRow) {row : ScheduleRow}
    → AllKept rows
    → schedule_row tenant id rows ≡ ok row
    → IsKept row
unfolding schedule_row
schedule_row-IsKept tenant id rows {row} all e =
    let there : find_first (is_schedule tenant id) rows ≡ some row = ground arith in
    find_first-All IsKept (is_schedule tenant id) rows all there

module _ (w : World) (now : ℕ) (p : Planner) (v : AllKept p.schedules) where
  upsert-AllKept :
      (id : String) (spec : ScheduleSpec) (created_by : String) {answer : ScheduleRow × Bool}
      {rows : List ScheduleRow}
      → upsert w id spec created_by now p.schedules ≡ ok (answer, rows)
      → AllKept rows
  unfolding upsert
  upsert-AllKept id spec created_by {answer} {rows} e =
      let (valid, fine, e1) = >>=-eq-ok (checked w spec) _ e in
      let row = fresh_schedule w id valid created_by now in
      elim (Option-cases (find_first (same_identity row) p.schedules)) [
        | inl fresh ↦
            let added : row ∷ p.schedules ≡ rows = ground arith in
            rw (← added) (fresh_schedule-IsKept w id valid created_by now, v)
        | inr (existing, there) ↦ let same : p.schedules ≡ rows = ground arith in rw (← same) v
      ]

  update-AllKept :
      (tenant id : String) (change : ScheduleUpdate) {answer : ScheduleRow}
      {rows : List ScheduleRow}
      → update w tenant id change now p.schedules ≡ ok (answer, rows)
      → AllKept rows
  unfolding update
  update-AllKept tenant id change {answer} {rows} e =
      let (row, found, e1) = >>=-eq-ok (schedule_row tenant id p.schedules) _ e in
      let (spec, sent, e2) = >>=-eq-ok (changed_spec row.spec change) _ e1 in
      let (valid, fine, e3) = >>=-eq-ok (checked w spec) _ e2 in
      let (u, unique, e4) =
        >>=-eq-ok (raise_if (duplicates (updated_row w row valid now) p.schedules) conflict) _ e3 in
      let written : put_schedule (updated_row w row valid now) p.schedules ≡ rows = ground arith in
      rw (← written) (
        put_schedule-AllKept _ p.schedules
          (updated_row-IsKept w row valid now (schedule_row-IsKept tenant id p.schedules v found))
          v)

  delete-AllKept :
      (tenant id : String) {rows : List ScheduleRow}
      → delete tenant id p.schedules ≡ ok rows
      → AllKept rows
  unfolding delete
  delete-AllKept tenant id {rows} e =
      let (row, found, e1) = >>=-eq-ok (schedule_row tenant id p.schedules) _ e in
      let left : select (λ r. not (str_eq r.schedule_id row.schedule_id)) p.schedules ≡ rows =
        ground arith in
      rw (← left) (
        All-weaken _ IsKept _ (λ r both. both.0)
          (select-All IsKept (λ r. not (str_eq r.schedule_id row.schedule_id)) p.schedules v))

  fire_at-AllKept :
      (run : String) (outage : Option AgentError) (row : ScheduleRow) (fire_time : ℕ)
      {fired : Fired} {p' : Planner}
      → IsKept row
      → row.spec.enabled ≡ true
      → fire_at w run outage row fire_time now p ≡ ok (fired, p')
      → AllKept p'.schedules
  unfolding fire_at
  fire_at-AllKept run none row fire_time {fired} {p'} kept on e =
      let (started, made, e1) =
        >>=-eq-ok (start_run (fire_start w.formats run row fire_time) true now false p.db) _ e in
      let written : put_schedule (fired_row w row fire_time started.0.0.run_id now) p.schedules
          ≡ p'.schedules =
        ground arith in
      rw (← written) (
        put_schedule-AllKept _ p.schedules (fired_row-IsKept w row fire_time started.0.0.run_id now)
          v)
  fire_at-AllKept run (some error) row fire_time {fired} {p'} kept on e =
      let written : put_schedule (struck_row row error now) p.schedules ≡ p'.schedules =
        ground arith in
      rw (← written)
        (put_schedule-AllKept _ p.schedules (struck_row-IsKept w row error now kept on) v)

  fire-AllKept :
      (run : String) (outage : Option AgentError) (tenant id : String) (at : Option ℕ)
      {fired : Fired} {p' : Planner}
      → fire w run outage tenant id at now p ≡ ok (fired, p')
      → AllKept p'.schedules
  unfolding fire
  fire-AllKept run outage tenant id at e =
      let (row, found, e1) = >>=-eq-ok (schedule_row tenant id p.schedules) _ e in
      let (u1, on, e2) = >>=-eq-ok (raise_if (not row.spec.enabled) conflict) _ e1 in
      let (u2, near, e3) =
        >>=-eq-ok (raise_if (holds at (λ t. ltb (now + max_fire_skew) t)) unprocessable) _ e2 in
      fire_at-AllKept run outage row (tick_of row at now)
        (schedule_row-IsKept tenant id p.schedules v found) (ground arith) e3

first_of-All :
    (P : ScheduleRow → Type 0) (rows : List ScheduleRow) {row : ScheduleRow}
    → All P rows
    → first_of rows ≡ some row
    → P row
first_of-All P [] all e = absurd (ground arith)
first_of-All P (x ∷ xs) {row} all e = let same : x ≡ row = ground arith in subst P same all.0

-- The schedule a ticker claims is one of the table, and due.
pub claim_due-due :
    (free : ScheduleRow → Bool) (now : ℕ) (P : ScheduleRow → Type 0) (rows : List ScheduleRow)
    {row : ScheduleRow}
    → All P rows
    → claim_due free now rows ≡ some row
    → P row × (is_due now row ≡ true)
unfolding claim_due
claim_due-due free now P rows all e =
    let chosen = select-All P (λ r. is_due now r && free r) rows all in
    let due =
      All-weaken _ (λ r. P r × (is_due now r ≡ true)) _ (λ r both. (both.0, ground (arith, both.1)))
        chosen in
    first_of-All (λ r. P r × (is_due now r ≡ true)) _
      (sort_by-All (λ r. P r × (is_due now r ≡ true)) _ _ due) e

due_enabled : (now : ℕ) (row : ScheduleRow) → is_due now row ≡ true → row.spec.enabled ≡ true
unfolding is_due
due_enabled now row e = ground arith

-- A ticker's fire: nothing was due, or it fired the schedule it claimed for its own tick.
pub fire_due-cases :
    (w : World) (run : String) (outage : Option AgentError) (free : ScheduleRow → Bool) (now : ℕ)
    (p p' : Planner) {answer : Option Fired}
    → fire_due w run outage free now p ≡ ok (answer, p')
    → (p ≡ p') × (answer ≡ none)
      ⊎ (row : ScheduleRow) × (due : ℕ) × (fired : Fired) × (claim_due free now p.schedules
          ≡ some row)
        × (row.next_fire_at ≡ some due)
        × (answer ≡ some fired)
        × (fire_at w run outage row due now p ≡ ok (fired, p'))
unfolding fire_due
fire_due-cases w run outage free now p p' {answer} e =
    elim (Option-cases (claim_due free now p.schedules)) [
      | inl nothing ↦ inl (ground arith)
      | inr (row, claimed) ↦ elim (Option-cases row.next_fire_at) [
        | inl manual ↦ inl (ground arith)
        | inr (due, armed) ↦
            let inner : ◌>>=◌ {B = Option Fired × Planner} (fire_at w run outage row due now p)
                  (λ fired. ok (some fired.0, fired.1))
                ≡ ok (answer, p') =
              ground arith in
            let (fired, made, done) = >>=-eq-ok (fire_at w run outage row due now p) _ inner in
            inr (row, due, fired.0, claimed, armed, ground arith, ground arith)
      ]
    ]

pub serve_schedule-AllKept :
    (w : World) (now : ℕ) (request : ScheduleRequest) (p p' : Planner)
    → AllKept p.schedules
    → serve_schedule w now request p ≡ ok p'
    → AllKept p'.schedules
unfolding serve_schedule
serve_schedule-AllKept w now (upsert_request id spec created_by) p p' v e =
    let (done, made, rest) = >>=-eq-ok (upsert w id spec created_by now p.schedules) _ e in
    let rows : done.1 ≡ p'.schedules = ground arith in
    rw (← rows) (upsert-AllKept w now p v id spec created_by made)
serve_schedule-AllKept w now (update_request tenant id change) p p' v e =
    let (done, made, rest) = >>=-eq-ok (update w tenant id change now p.schedules) _ e in
    let rows : done.1 ≡ p'.schedules = ground arith in
    rw (← rows) (update-AllKept w now p v tenant id change made)
serve_schedule-AllKept w now (delete_request tenant id) p p' v e =
    let (left, made, rest) = >>=-eq-ok (delete tenant id p.schedules) _ e in
    let rows : left ≡ p'.schedules = ground arith in
    rw (← rows) (delete-AllKept w now p v tenant id made)
serve_schedule-AllKept w now (fire_request run outage tenant id at) p p' v e =
    let (done, made, rest) = >>=-eq-ok (fire w run outage tenant id at now p) _ e in
    let same : done.1 ≡ p' = ground arith in
    rw (← same) (fire-AllKept w now p v run outage tenant id at made)
serve_schedule-AllKept w now (fire_due_request run outage free) p p' v e =
    let (done, made, rest) = >>=-eq-ok (fire_due w run outage free now p) _ e in
    let same : done.1 ≡ p' = ground arith in
    elim (fire_due-cases w run outage free now p done.1 made) [
      | inl (unchanged, none_fired) ↦ rw (← same) (rw (← unchanged) v)
      | inr (row, due, fired, claimed, armed, said, fires) ↦
          let (kept, is_now_due) = claim_due-due free now IsKept p.schedules v claimed in
          rw (← same) (
            fire_at-AllKept w now p v run outage row due kept (due_enabled now row is_now_due)
              fires)
    ]

-- Every schedule that any sequence of upserts, updates, deletions and fires leads to, at any instants
-- and whatever happens to the runs in between, is armed exactly when its cadence fires by itself, has
-- a last error exactly while it counts failures, is held back only then, and counts at most three,
-- fewer while it is enabled.
pub Planned-AllKept : (w : World) (p : Planner) → Planned w p → AllKept p.schedules
Planned-AllKept w p (no_schedules db) = tt
Planned-AllKept w p (runs_changed {p = before} db reached) = Planned-AllKept w before reached
Planned-AllKept w p (served {p = before} now request reached e) =
    serve_schedule-AllKept w now request before p (Planned-AllKept w before reached) e
