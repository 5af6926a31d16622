-- ===== src/Ticker/Refines.antt =====
-- A pass of the ticker does to the runs what a sequence of requests does, wherever it stops.
use agent_runs.Base.{
  ℕ, zero, suc, ◌-◌, String, ◌≡◌, Bool, true, false, Option, none, some, List, [], ◌∷◌, arith,
  Bool-cases, inl, inr, Result-cases, Result, ok, >>=-eq-ok, ap, refl,
}
use agent_runs.Retry.{Breaker, allows}
use agent_runs.Run.Rows.{AgentError, Db}
use agent_runs.Run.Store.{RunRecord}
use agent_runs.Run.Starts.{start_run}
use agent_runs.Run.Retention.{purge_ended}
use agent_runs.Run.Artifacts.{remove_artifacts}
use agent_runs.Run.Service.{
  Request, start_request, deadline_sweep, overwork_sweep, lapse_sweep, escalation_sweep,
  purge_sweep, removal_request, tables, serve, Reach, served,
}
use agent_runs.Schedule.Rows.{ScheduleRow}
use agent_runs.Schedule.Firing.{
  Planner, Fired, queued_run, fire_failed, fire_start, fire_at, fire_due,
}
use agent_runs.Schedule.Firing.Served.{
  fire_due_request, serve_schedule, AllKept, serve_schedule-AllKept, fire_due-cases,
}
use agent_runs.Outbox.{Delivery}
use agent_runs.Ticker.Jobs.{
  sweep_batch, Tables, Step, firing, deadlines, overworking, lapses, escalations, holding, settling,
  dropping, artifacts_going, runs_going, Ticker, Pass, database_down, crashed, Progress, halted,
  going, committed, Job, done, transact, after, ◌>>=◌, TickReport,
}
use agent_runs.Ticker.Steps.{
  sweep_step, sweep_runs, fire_step, count_fire, fire_rounds, hold_due, settle_step, settle_due,
  send_webhooks, drop_step, gone_artifacts, artifacts_step, runs_step, drop_dead_step,
  purge_artifacts, purge_runs,
}
use agent_runs.Ticker.Tick.{tick_steps, tick_end, tick, run_forever}

-- What the ticker's client sees kept: the runs are ones that requests lead to, and every schedule is kept.
abbrev pub Promised : Ticker → Tables → Type 0
Promised ticker t = Reach ticker.contracts ticker.limits t.db × AllKept t.schedules

module _ (ticker : Ticker) where
  Keeps : {A : Type 0} → Job A → Type 0
  Keeps job = (t : Tables) → Promised ticker t → Promised ticker (committed (job t))

  later-Promised :
      {A B : Type 0} (p : Progress A) (next : A → Job B)
      → Promised ticker (committed p)
      → ((answer : A) → Keeps (next answer))
      → Promised ticker (committed (after p next))
  unfolding Keeps after
  later-Promised (halted why left) next v later = v
  later-Promised (going answer left) next v later = later answer left v

  >>=-Keeps :
      {A B : Type 0} (job : Job A) (next : A → Job B)
      → Keeps job
      → ((answer : A) → Keeps (next answer))
      → Keeps (job >>= next)
  unfolding Keeps ◌>>=◌
  >>=-Keeps job next first later t v = later-Promised (job t) next (first t v) later

  done-Keeps : {A : Type 0} (answer : A) → Keeps (done answer)
  unfolding Keeps done
  done-Keeps answer t v = v

  transact-Keeps :
      {A : Type 0} (down : Bool) (step : Tables → Result (A × Tables))
      → ((t t' : Tables) (answer : A)
          → Promised ticker t
          → step t ≡ ok (answer, t')
          → Promised ticker t')
      → Keeps (transact down step)
  unfolding Keeps transact
  transact-Keeps true step law t v = v
  transact-Keeps false step law t v = elim (Result-cases (step t)) [
    | inl (why, e) ↦ rw e v
    | inr (left, e) ↦ rw e (law t left.1 left.0 v e)
  ]

  -- A sweep is a request.
  sweep_runs-Keeps :
      (pass : Pass) (step : Step) (now : ℕ) (sweep : Db → Result (List RunRecord × Db))
      (request : Request)
      → ((db : Db) → serve ticker.contracts ticker.limits now request db ≡ tables (sweep db))
      → Keeps (sweep_runs ticker pass step now sweep)
  unfolding sweep_runs sweep_step
  sweep_runs-Keeps pass step now sweep request same =
      transact-Keeps (pass.down step) (sweep_step ticker now sweep) (λ t t' count v e.
        elim (Result-cases (sweep t.db)) [
          | inl (why, failed) ↦ absurd (ground (arith, failed))
          | inr (moved, swept) ↦
              let leads : serve ticker.contracts ticker.limits now request t.db ≡ ok t'.db =
                ground (arith, same t.db, swept) in
              let same_schedules : t.schedules ≡ t'.schedules = ground (arith, swept) in
              (served now request v.0 leads, rw (← same_schedules) v.1)
        ])

  -- A fire starts its run as a request does, or starts none.
  fire_at-Reach :
      (run : String) (outage : Option AgentError) (row : ScheduleRow) (due now : ℕ) (p p' : Planner)
      {fired : Fired}
      → Reach ticker.contracts ticker.limits p.db
      → fire_at ticker.world run outage row due now p ≡ ok (fired, p')
      → Reach ticker.contracts ticker.limits p'.db
  unfolding fire_at serve
  fire_at-Reach run (some error) row due now p p' v e =
      let same : p.db ≡ p'.db = ground arith in rw (← same) v
  fire_at-Reach run none row due now p p' v e =
      let start = fire_start ticker.world.formats run row due in
      let (started, begun, rest) = >>=-eq-ok (start_run start true now false p.db) _ e in
      let left : started.1 ≡ p'.db = ground arith in
      let leads : serve ticker.contracts ticker.limits now (start_request start true false) p.db
          ≡ ok p'.db =
        ground (arith, begun, left) in
      served now (start_request start true false) v leads

  fire_step-Promised :
      (pass : Pass) (round now : ℕ) (t t' : Tables) (answer : Option Fired)
      → Promised ticker t
      → fire_step ticker pass round now t ≡ ok (answer, t')
      → Promised ticker t'
  unfolding fire_step serve_schedule
  fire_step-Promised pass round now t t' answer v e =
      let p : Planner = record { db = t.db; schedules = t.schedules } in
      let outage = pass.outage round in
      let free = pass.free_schedules (firing round) in
      elim (Result-cases (fire_due ticker.world (pass.minted round) outage free now p)) [
        | inl (why, failed) ↦ absurd (ground (arith, failed))
        | inr (fired, found) ↦
            let planner : fired.1.db ≡ t'.db = ground (arith, found) in
            let rows : fired.1.schedules ≡ t'.schedules = ground (arith, found) in
            let kept =
              serve_schedule-AllKept ticker.world now
                (fire_due_request (pass.minted round) outage free) p fired.1 v.1
                (ground (arith, found)) in
            let runs : Reach ticker.contracts ticker.limits fired.1.db =
              elim (fire_due-cases ticker.world (pass.minted round) outage free now p fired.1
                found) [
                  | inl (same, none_fired) ↦ rw (← same) v.0
                  | inr (row, due, made, claimed, armed, said, fires) ↦
                      fire_at-Reach (pass.minted round) outage row due now p fired.1 v.0 fires
                ] in
            (rw (← planner) runs, rw (← rows) kept)
      ]

  count_fire-Keeps :
      (more : Job ℕ) (result : Option Fired) → Keeps more → Keeps (count_fire more result)
  unfolding count_fire
  count_fire-Keeps more none kept = done-Keeps 0
  count_fire-Keeps more (some (queued_run id at)) kept =
      >>=-Keeps more _ kept (λ n. done-Keeps (suc n))
  count_fire-Keeps more (some (fire_failed error)) kept = kept

  fire_rounds-Keeps : (pass : Pass) (now rounds : ℕ) → Keeps (fire_rounds ticker pass now rounds)
  unfolding fire_rounds
  fire_rounds-Keeps pass now zero = done-Keeps 0
  fire_rounds-Keeps pass now (suc rounds) =
      >>=-Keeps (transact (pass.down (firing rounds)) (fire_step ticker pass rounds now)) _
        (transact-Keeps (pass.down (firing rounds)) (fire_step ticker pass rounds now)
          (fire_step-Promised pass rounds now))
        (λ result.
          count_fire-Keeps (fire_rounds ticker pass now rounds) result
            (fire_rounds-Keeps pass now rounds))

  -- A step that changes the outbox alone.
  outbox-Promised :
      (t t' : Tables)
      → Promised ticker t
      → t.db ≡ t'.db
      → t.schedules ≡ t'.schedules
      → Promised ticker t'
  outbox-Promised t t' v runs rows = (rw (← runs) v.0, rw (← rows) v.1)

  hold_due-Promised :
      (pass : Pass) (now : ℕ) (t t' : Tables) (due : List Delivery)
      → Promised ticker t
      → hold_due pass now t ≡ ok (due, t')
      → Promised ticker t'
  unfolding hold_due
  hold_due-Promised pass now t t' due v e = outbox-Promised t t' v (ground arith) (ground arith)

  settle_due-Keeps : (pass : Pass) (now : ℕ) (due : List Delivery) → Keeps (settle_due pass now due)
  unfolding settle_due settle_step
  settle_due-Keeps pass now [] = done-Keeps 0
  settle_due-Keeps pass now (first ∷ rest) =
      transact-Keeps (pass.down settling) (settle_step pass now (first ∷ rest))
        (λ t t' sent v e. outbox-Promised t t' v (ground arith) (ground arith))

  send_webhooks-Keeps : (pass : Pass) (now : ℕ) → Keeps (send_webhooks pass now)
  unfolding send_webhooks
  send_webhooks-Keeps pass now =
      >>=-Keeps (transact (pass.down holding) (hold_due pass now)) (settle_due pass now)
        (transact-Keeps (pass.down holding) (hold_due pass now) (hold_due-Promised pass now))
        (settle_due-Keeps pass now)

  drop_dead_step-Keeps : (pass : Pass) (now : ℕ) → Keeps (drop_dead_step ticker pass now)
  unfolding drop_dead_step drop_step
  drop_dead_step-Keeps pass now =
      transact-Keeps (pass.down dropping) (drop_step ticker pass now)
        (λ t t' gone v e. outbox-Promised t t' v (ground arith) (ground arith))

  purge_artifacts-Keeps : (pass : Pass) (now : ℕ) → Keeps (purge_artifacts pass now)
  unfolding purge_artifacts artifacts_step serve
  purge_artifacts-Keeps pass now =
      transact-Keeps (pass.down artifacts_going) (artifacts_step pass now) (λ t t' gone v e.
        let rows : t.schedules ≡ t'.schedules = ground arith in
        let left : remove_artifacts (gone_artifacts pass now t) t.db ≡ t'.db = ground arith in
        (
          served now (removal_request (gone_artifacts pass now t)) v.0 (ap ok left),
          rw (← rows) v.1,
        ))

  purge_runs-Keeps :
      (pass : Pass) (now : ℕ) (retention : Option ℕ) → Keeps (purge_runs pass now retention)
  unfolding purge_runs runs_step serve
  purge_runs-Keeps pass now none = done-Keeps 0
  purge_runs-Keeps pass now (some retention) =
      transact-Keeps (pass.down runs_going) (runs_step pass (now - retention)) (λ t t' purged v e.
        let rows : t.schedules ≡ t'.schedules = ground arith in
        let left : (purge_ended (pass.free_runs runs_going) (now - retention) sweep_batch t.db).1
            ≡ t'.db =
          ground arith in
        (
          served now (purge_sweep (pass.free_runs runs_going) (now - retention) sweep_batch) v.0
              (ap ok left),
          rw (← rows) v.1,
        ))

  tick_steps-Keeps : (pass : Pass) (now : ℕ) → Keeps (tick_steps ticker pass now)
  unfolding tick_steps serve
  tick_steps-Keeps pass now =
      >>=-Keeps (fire_rounds ticker pass now sweep_batch) _ (fire_rounds-Keeps pass now sweep_batch)
        (λ fired.
          >>=-Keeps _ _
            (sweep_runs-Keeps pass deadlines now _
              (deadline_sweep (pass.free_runs deadlines) sweep_batch) (λ db. refl))
            (λ timed_out.
              >>=-Keeps _ _
                (sweep_runs-Keeps pass overworking now _
                  (overwork_sweep (pass.free_runs overworking) sweep_batch) (λ db. refl))
                (λ overworked.
                  >>=-Keeps _ _
                    (sweep_runs-Keeps pass lapses now _
                      (lapse_sweep pass.draw (pass.free_runs lapses) sweep_batch) (λ db. refl))
                    (λ requeued.
                      >>=-Keeps _ _
                        (sweep_runs-Keeps pass escalations now _
                          (escalation_sweep (pass.free_runs escalations) sweep_batch) (λ db. refl))
                        (λ escalated.
                          >>=-Keeps (send_webhooks pass now) _ (send_webhooks-Keeps pass now)
                            (λ sent.
                              >>=-Keeps (drop_dead_step ticker pass now) _
                                (drop_dead_step-Keeps pass now)
                                (λ dropped.
                                  >>=-Keeps (purge_artifacts pass now) _
                                    (purge_artifacts-Keeps pass now)
                                    (λ purged.
                                      >>=-Keeps (purge_runs pass now ticker.run_retention) _
                                        (purge_runs-Keeps pass now ticker.run_retention)
                                        (λ runs_purged. done-Keeps _)))))))))

  ended-Promised :
      (now : ℕ) (b : Breaker) (p : Progress TickReport)
      → Promised ticker (committed p)
      → Promised ticker (tick_end now b p).tables
  unfolding tick_end
  ended-Promised now b (halted database_down t) v = v
  ended-Promised now b (halted (crashed why) t) v = v
  ended-Promised now b (going report t) v = v

  tick-Promised :
      (pass : Pass) (now : ℕ) (b : Breaker) (t : Tables)
      → Promised ticker t
      → Promised ticker (tick ticker pass now b t).tables
  unfolding tick Keeps
  tick-Promised pass now b t v = elim (Bool-cases (allows b now)) [
    | inl let_through ↦
        rw let_through
          (ended-Promised now b (tick_steps ticker pass now t) (tick_steps-Keeps pass now t v))
    | inr held ↦ rw held v
  ]

-- However often the ticker passes, and wherever the database or a step of it fails, the runs it leaves
-- are ones that a sequence of requests to the run store leads to, where those it began with are; and
-- every schedule it leaves is kept, where those it began with are.
pub run_forever-Promised :
    (ticker : Ticker) (passes : List (Pass × ℕ)) (b : Breaker) (t : Tables)
    → Promised ticker t
    → Promised ticker (run_forever ticker passes b t).1
unfolding run_forever
run_forever-Promised ticker [] b t v = v
run_forever-Promised ticker (pass ∷ passes) b t v =
    let ticked = tick ticker pass.0 pass.1 b t in
    run_forever-Promised ticker passes ticked.breaker ticked.tables
      (tick-Promised ticker pass.0 pass.1 b t v)
