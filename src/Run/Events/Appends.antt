-- ===== src/Run/Events/Appends.antt =====
-- What an append leaves in the log, and that its repeat adds nothing.
use agent_runs.Base.{
  ℕ, ◌+◌, String, ◌≡◌, true, Option, none, List, [], ◌∷◌, arith, eq_iff, refl, ok, raise_if,
  unprocessable, not, >>=-eq-ok, All, ◌∙◌,
}
use agent_runs.Run.Rows.{RunRow, RunEventRow, Db}
use agent_runs.Run.Store.{found, locked}
use agent_runs.Run.Events.{
  RunEvent, names_run, is_logged, last_position, LogState, event_row, add_event, add_events,
  may_append, append_events,
}

-- Every one of the events is in the log.
abbrev AllLogged : String → List RunEventRow → List RunEvent → Type 0
AllLogged run rows events = All (λ e. is_logged run e.attempt e.sequence rows ≡ true) events

module _ (tenant run : String) where
  add_event-keeps :
      (e : RunEvent) (attempt sequence : ℕ) (log : LogState)
      → is_logged run attempt sequence log.rows ≡ true
      → is_logged run attempt sequence (add_event tenant run e log).rows ≡ true
  unfolding add_event is_logged
  add_event-keeps e attempt sequence log there = ground (arith, there)

  add_event-logged :
      (e : RunEvent) (log : LogState)
      → is_logged run e.attempt e.sequence (add_event tenant run e log).rows ≡ true
  unfolding add_event is_logged event_row
  add_event-logged e log = ground (arith, eq_iff run run)

  add_events-keeps :
      (events : List RunEvent) (attempt sequence : ℕ) (log : LogState)
      → is_logged run attempt sequence log.rows ≡ true
      → is_logged run attempt sequence (add_events tenant run events log).rows ≡ true
  unfolding add_events
  add_events-keeps [] attempt sequence log there = there
  add_events-keeps (e ∷ es) attempt sequence log there =
      add_events-keeps es attempt sequence (add_event tenant run e log)
        (add_event-keeps e attempt sequence log there)

  add_events-logged :
      (events : List RunEvent) (log : LogState)
      → AllLogged run (add_events tenant run events log).rows events
  unfolding add_events
  add_events-logged [] log = tt
  add_events-logged (e ∷ es) log = (
    add_events-keeps es e.attempt e.sequence (add_event tenant run e log) (add_event-logged e log),
    add_events-logged es (add_event tenant run e log),
  )

  nothing_new :
      (events : List RunEvent) (log : LogState)
      → AllLogged run log.rows events
      → add_events tenant run events log ≡ log
  unfolding add_events add_event
  nothing_new [] log all = refl
  nothing_new (e ∷ es) log all =
      let same : add_event tenant run e log ≡ log = ground (arith, all.0) in
      rw same (nothing_new es log all.1)

  add_event-position :
      (e : RunEvent) (log : LogState)
      → last_position run log.rows ≡ log.position
      → last_position run (add_event tenant run e log).rows ≡ (add_event tenant run e log).position
  unfolding add_event event_row last_position
  add_event-position e log last = ground (arith, eq_iff run run)

  add_events-position :
      (events : List RunEvent) (log : LogState)
      → last_position run log.rows ≡ log.position
      → last_position run (add_events tenant run events log).rows
        ≡ (add_events tenant run events log).position
  unfolding add_events
  add_events-position [] log last = last
  add_events-position (e ∷ es) log last =
      add_events-position es (add_event tenant run e log) (add_event-position e log last)

  add_events-added :
      (events : List RunEvent) (log : LogState)
      → (add_events tenant run events log).position + log.added
        ≡ log.position + (add_events tenant run events log).added
  unfolding add_events add_event
  add_events-added [] log = omega arith
  add_events-added (e ∷ es) log = ground (arith, add_events-added es (add_event tenant run e log))

appended :
    (tenant run : String) (events : List RunEvent) (worker : Option String) (db db' : Db)
    (added position : ℕ)
    → append_events tenant run events worker db ≡ ok ((added, position), db')
    → (row : RunRow) × (names_run tenant run events ≡ true)
      × (locked db tenant run none ≡ ok row)
      × (may_append row worker ≡ ok tt)
      × (added
          ≡ (add_events tenant run events (record {
            rows = db.events;
            position = last_position run db.events;
            added = 0;
          })).added)
      × (position
          ≡ (add_events tenant run events (record {
            rows = db.events;
            position = last_position run db.events;
            added = 0;
          })).position)
      × (db' ≡ record db {
        events =
            (add_events tenant run events (record {
              rows = db.events;
              position = last_position run db.events;
              added = 0;
            })).rows;
      })
unfolding append_events
appended tenant run events worker db db' added position e =
    let (u1, named, e1) =
      >>=-eq-ok (raise_if (not (names_run tenant run events)) unprocessable) _ e in
    let (row, got, e2) = >>=-eq-ok (locked db tenant run none) _ e1 in
    let (u2, may, e3) = >>=-eq-ok (may_append row worker) _ e2 in
    (row, ground arith, got, may, ground arith, ground arith, ground arith)

same_lock :
    (db : Db) (events : List RunEventRow) (tenant run : String)
    → locked (record db { events = events }) tenant run none ≡ locked db tenant run none
unfolding locked found
same_lock db events tenant run = refl

-- An append that is taken leaves the log's last position where it says, as far beyond the old one as
-- events were added; sent again before anything else changes the tables, it adds nothing, answers the
-- same position, and leaves the tables as they are.
pub append_events-append_events :
    (tenant run : String) (events : List RunEvent) (worker : Option String) (db db' : Db)
    (added position : ℕ)
    → append_events tenant run events worker db ≡ ok ((added, position), db')
    → (last_position run db'.events ≡ position)
      × (position ≡ last_position run db.events + added)
      × (append_events tenant run events worker db' ≡ ok ((0, position), db'))
unfolding append_events
append_events-append_events tenant run events worker db db' added position e =
    let (row, named, got, may, count, last, after) =
      appended tenant run events worker db db' added position e in
    let start : LogState = record {
      rows = db.events;
      position = last_position run db.events;
      added = 0;
    } in
    let log = add_events tenant run events start in
    let at_end : last_position run log.rows ≡ log.position =
      add_events-position tenant run events start refl in
    let moved = add_events-added tenant run events start in
    rw (after, last, count)
      (
        at_end,
        omega (arith, moved),
        repeated log at_end row named (same_lock db log.rows tenant run ∙ got) may
            (add_events-logged tenant run events start),
      )
  where
    repeated :
        (log : LogState)
        → last_position run log.rows ≡ log.position
        → (row : RunRow) → names_run tenant run events ≡ true
        → locked (record db { events = log.rows }) tenant run none ≡ ok row
        → may_append row worker ≡ ok tt
        → AllLogged run log.rows events
        → append_events tenant run events worker (record db { events = log.rows })
          ≡ ok ((0, log.position), record db { events = log.rows })
    repeated log at_end row named got may all =
        let fresh : LogState = record {
          rows = log.rows;
          position = last_position run log.rows;
          added = 0;
        } in
        let same : add_events tenant run events fresh ≡ fresh =
          nothing_new tenant run events fresh all in
        rw (append_events, named, got, may, same, at_end)
