-- ===== src/Run/Sweeps.antt =====
-- The ticker's sweeps of src/agent_runs/store/runs.py. `free` says which rows no other transaction
-- holds (`SKIP LOCKED`), and `draw` what `random` drew for the jitter of a run.
use agent_runs.Base.{
  ℕ, ◌+◌, String, Bool, false, not, ◌&&◌, Option, none, some, List, [], ◌∷◌, map, ltb, leb, truthy,
  holds, take, select, sort_by, if◌then◌else◌, Result, ok, err, internal, map_result, ◌>>=◌,
}
use agent_runs.Retry.{backoff, in_range, jittered}
use agent_runs.Run.Status.{running, paused, error, timeout, final, status_eq}
use agent_runs.Run.Rows.{
  Interrupt, RunRow, Db, Contracts, AgentError, timeout_category, Message, past_deadline,
  past_interrupt, overworked, lapsed_times,
}
use agent_runs.Run.Moves.{
  lapse_retry_base, lapse_retry_cap, max_lease_lapses, move, requeue, cancelled_instead, limit_of,
}
use agent_runs.Run.Store.{RunRecord, record_of, put_run, ended}

-- An error the service writes itself.
abbrev pub own_error : String → Message → Bool → AgentError
own_error code message retryable = record {
  code = code;
  category = timeout_category;
  message = message;
  retryable = retryable;
  source = some "agent-runs";
}

-- `ORDER BY` a column; every row a sweep selects has a value there.
abbrev pub earlier : (RunRow → Option ℕ) → RunRow → RunRow → Bool
earlier column a b = holds (column a) (λ x. holds (column b) (λ y. ltb x y))

-- `_sweep`
unfoldable pub swept :
    (RunRow → Bool) → (RunRow → Bool) → (RunRow → Option ℕ) → ℕ → List RunRow → List RunRow
swept free test column limit rows =
    take limit (sort_by (earlier column) (select (λ r. test r && free r) rows))

-- The rows written back, one after the other.
unfoldable pub put_runs : List RunRow → List RunRow → List RunRow
unfolding put_run
put_runs [] rows = rows
put_runs (r ∷ rs) rows = put_runs rs (put_run r rows)

-- The end of a sweep: every row is flushed, ended runs' artifacts start their retention, and the
-- moved runs are returned.
unfoldable pub sweep_end : List RunRow → ℕ → Db → List RunRecord × Db
unfolding put_runs ended record_of
sweep_end rows now db =
    (map (λ r. record_of r now) rows, ended rows now (record db { runs = put_runs rows db.runs }))

-- Not yet ended and past its own deadline.
unfoldable pub past_its_deadline : ℕ → RunRow → Bool
past_its_deadline now row = not (final row.status) && holds row.deadline (λ d. ltb d now)

unfoldable pub deadline_row : Contracts → ℕ → RunRow → Result RunRow
unfolding move
deadline_row c now row = do
  r ← move c row timeout now
  ok (record r { error = some (own_error "run_deadline" (past_deadline row.deadline) false) })

-- `time_out_past_deadline`
unfoldable pub time_out_past_deadline :
    Contracts → (RunRow → Bool) → ℕ → ℕ → Db → Result (List RunRecord × Db)
time_out_past_deadline c free now limit db = do
  rows ←
      map_result (deadline_row c now)
        (swept free (past_its_deadline now) (λ r. r.deadline) limit db.runs)
  ok (sweep_end rows now db)

-- Running, with a limit, and past it: `working > allowed`. The time since `running_since` is signed
-- in SQL; one that lies ahead of `now` is subtracted.
unfoldable pub is_overworked : Option ℕ → ℕ → RunRow → Bool
unfolding limit_of
is_overworked max_run now row =
    status_eq row.status running
    && holds row.running_since (λ since.
      holds (limit_of max_run row) (λ most. ltb (most + since) (row.worked_seconds + now)))

unfoldable pub overworked_row : Contracts → Option ℕ → ℕ → RunRow → Result RunRow
unfolding move limit_of
overworked_row c max_run now row = do
  r ← move c row timeout now
  ok (record r {
    error =
        some (own_error "run_timeout" (overworked r.worked_seconds (limit_of max_run row)) false);
  })

-- `time_out_overworked`
unfoldable pub time_out_overworked :
    Contracts → Option ℕ → (RunRow → Bool) → ℕ → ℕ → Db → Result (List RunRecord × Db)
time_out_overworked c max_run free now limit db = do
  rows ←
      map_result (overworked_row c max_run now)
        (swept free (is_overworked max_run now) (λ r. r.running_since) limit db.runs)
  ok (sweep_end rows now db)

unfoldable pub has_lapsed : ℕ → RunRow → Bool
has_lapsed now row = status_eq row.status running && holds row.lease_expires_at (λ at. ltb at now)

-- One more lapse: the run ends ERROR at `MAX_LEASE_LAPSES`, else goes back on the queue.
unfoldable pub lapse_again : Contracts → ℕ → ℕ → RunRow → Result RunRow
unfolding move requeue
lapse_again c draw now row =
    if leb max_lease_lapses row.lease_lapses
    then (do
      r ← move c row error now
      ok (record r {
        error =
            some (own_error "lease_expired" (lapsed_times row.lease_lapses) c.timeout_retryable);
      }))
    else (do
      wait ← in_range (backoff lapse_retry_base row.lease_lapses lapse_retry_cap)
      requeue c row now (some (jittered wait draw)))

unfoldable pub lapsed_row : Contracts → (String → ℕ) → ℕ → RunRow → Result RunRow
unfolding cancelled_instead lapse_again
lapsed_row c draw now row = do
  stopped ← cancelled_instead c row now
  elim stopped [
    | some r ↦ ok r
    | none ↦
        lapse_again c (draw row.run_id) now (record row { lease_lapses = row.lease_lapses + 1 })
  ]

-- `requeue_lapsed`
unfoldable pub requeue_lapsed :
    Contracts → (String → ℕ) → (RunRow → Bool) → ℕ → ℕ → Db → Result (List RunRecord × Db)
requeue_lapsed c draw free now limit db = do
  rows ←
      map_result (lapsed_row c draw now)
        (swept free (has_lapsed now) (λ r. r.lease_expires_at) limit db.runs)
  ok (sweep_end rows now db)

unfoldable pub is_overdue : ℕ → RunRow → Bool
is_overdue now row = status_eq row.status paused && holds row.awaiting_deadline (λ at. ltb at now)

-- The interrupt handed up.
unfoldable pub escalated : RunRow → Interrupt → ℕ → RunRow
escalated row interrupt now = record row {
  awaiting =
      some (record interrupt {
        assignee = interrupt.escalate_to;
        escalate_to = none;
        deadline = none;
      });
  assignee = interrupt.escalate_to;
  awaiting_deadline = none;
  updated_at = now;
}

unfoldable pub overdue_row : Contracts → ℕ → RunRow → Result RunRow
unfolding escalated move
overdue_row c now row = elim row.awaiting [
  | none ↦ err internal
  | some interrupt ↦ if truthy interrupt.escalate_to then ok (escalated row interrupt now) else do
    r ← move c row timeout now
    ok (record r {
      error =
          some (
            own_error "interrupt_deadline" (past_interrupt interrupt.deadline) c.timeout_retryable);
    })
]

-- `escalate_overdue`
unfoldable pub escalate_overdue :
    Contracts → (RunRow → Bool) → ℕ → ℕ → Db → Result (List RunRecord × Db)
escalate_overdue c free now limit db = do
  rows ←
      map_result (overdue_row c now)
        (swept free (is_overdue now) (λ r. r.awaiting_deadline) limit db.runs)
  ok (sweep_end rows now db)
