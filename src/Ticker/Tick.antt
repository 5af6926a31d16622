-- ===== src/Ticker/Tick.antt =====
-- `tick` and `run_forever` of src/agent_runs/ticker.py.
use agent_runs.Base.{ℕ, Option, none, some, List, [], ◌∷◌, if◌then◌else◌}
use agent_runs.Retry.{Breaker, allows, record_success, record_failure}
use agent_runs.Run.Sweeps.{
  time_out_past_deadline, time_out_overworked, requeue_lapsed, escalate_overdue,
}
use agent_runs.Ticker.Jobs.{
  Job, Pass, Progress, Tables, TickReport, Ticker, crashed, database_down, deadlines, done,
  empty_report, escalations, going, halted, lapses, overworking, sweep_batch, ◌>>=◌,
}
use agent_runs.Ticker.Steps.{
  drop_dead_step, fire_rounds, purge_artifacts, purge_runs, send_webhooks, sweep_runs,
}

-- The steps of `tick`, in order.
unfoldable pub tick_steps : Ticker → Pass → ℕ → Job TickReport
unfolding done ◌>>=◌
tick_steps ticker pass now = do
  fired ← fire_rounds ticker pass now sweep_batch
  timed_out ←
      sweep_runs ticker pass deadlines now
        (time_out_past_deadline ticker.contracts (pass.free_runs deadlines) now sweep_batch)
  overworked ← sweep_runs ticker pass overworking now (
      time_out_overworked ticker.contracts ticker.limits.max_run_seconds
        (pass.free_runs overworking) now sweep_batch)
  requeued ←
      sweep_runs ticker pass lapses now
        (requeue_lapsed ticker.contracts pass.draw (pass.free_runs lapses) now sweep_batch)
  escalated ←
      sweep_runs ticker pass escalations now
        (escalate_overdue ticker.contracts (pass.free_runs escalations) now sweep_batch)
  sent ← send_webhooks pass now
  dropped ← drop_dead_step ticker pass now
  purged ← purge_artifacts pass now
  runs_purged ← purge_runs pass now ticker.run_retention
  done (record {
    fired = fired;
    timed_out = timed_out;
    overworked = overworked;
    requeued = requeued;
    escalated = escalated;
    sent = sent;
    dropped = dropped;
    purged = purged;
    runs_purged = runs_purged;
  })

-- What a tick leaves; it has no report where an exception left it.
pub record Ticked : Type 0 where
  pub report : Option TickReport
  pub breaker : Breaker
  pub tables : Tables

-- The end of a tick: a failure of the database counts against the breaker, another exception leaves.
unfoldable pub tick_end : ℕ → Breaker → Progress TickReport → Ticked
tick_end now b (halted database_down left) = record {
  report = some empty_report;
  breaker = record_failure b now;
  tables = left;
}
tick_end now b (halted (crashed error) left) = record { report = none; breaker = b; tables = left }
tick_end now b (going report left) = record {
  report = some report;
  breaker = record_success b;
  tables = left;
}

-- `Ticker.tick`
unfoldable pub tick : Ticker → Pass → ℕ → Breaker → Tables → Ticked
unfolding tick_steps tick_end
tick ticker pass now b t =
    if allows b now
    then tick_end now b (tick_steps ticker pass now t)
    else record { report = some empty_report; breaker = b; tables = t }

-- `run_forever`: the passes until it is told to stop, each at its instant.
unfoldable pub run_forever : Ticker → List (Pass × ℕ) → Breaker → Tables → Breaker × Tables
unfolding tick
run_forever ticker [] b t = (b, t)
run_forever ticker (pass ∷ passes) b t =
    let ticked = tick ticker pass.0 pass.1 b t in
    run_forever ticker passes ticked.breaker ticked.tables
