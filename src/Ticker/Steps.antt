-- ===== src/Ticker/Steps.antt =====
-- The steps of a pass: `_fire_due`, `_sweep_runs`, `_send_webhooks`, `_drop_dead`, `_purge_artifacts` and
-- `_purge_runs` of src/agent_runs/ticker.py.
use agent_runs.Base.{
  ℕ, zero, suc, ◌-◌, String, Option, none, some, List, [], ◌∷◌, map, length, is_some, if◌then◌else◌,
  Result, ok, err, not, select, count_if,
}
use agent_runs.Run.Status.{RunStatus, paused, final, status_eq}
use agent_runs.Run.Rows.{ArtifactRow, Db}
use agent_runs.Run.Store.{RunRecord}
use agent_runs.Run.Retention.{purge_ended}
use agent_runs.Run.Artifacts.{expired_artifacts, remove_artifacts}
use agent_runs.Schedule.Firing.{Fired, queued_run, fire_failed, fire_due}
use agent_runs.Outbox
use agent_runs.Outbox.{DeliveryRow, Outbox, Delivery, Attempt, announce, settle, drop_dead}
use agent_runs.Ticker.Jobs.{
  Job, Pass, Step, Tables, Ticker, artifacts_going, done, dropping, firing, holding, runs_going,
  settling, sweep_batch, transact, ◌>>=◌,
}

-- `event_of`
unfoldable pub event_of : RunStatus → Option String
event_of status =
    if status_eq status paused
    then some "run.paused"
    else if final status
    then some "run.finished"
    else none

-- `WebhookStore.announce` of a run: the event given, else the one its status announces.
unfoldable pub announce_run : Ticker → ℕ → RunRecord → Option String → Outbox → Outbox
unfolding event_of
announce_run ticker now run event box =
    elim (if is_some event then event else event_of run.status) [
      | none ↦ box
      | some warranted ↦
          announce run.tenant_id warranted (ticker.delivery_id run warranted)
            (ticker.payload run warranted) now box
    ]

-- A swept run that is PAUSED was escalated.
unfoldable pub announce_moved : Ticker → ℕ → List RunRecord → Outbox → Outbox
unfolding announce_run
announce_moved ticker now [] box = box
announce_moved ticker now (run ∷ runs) box = announce_moved ticker now runs (
    announce_run ticker now run (if status_eq run.status paused then some "run.escalated" else none)
      box)

-- `_sweep_runs` in its transaction: one sweep, and the events of the runs it moved.
unfoldable pub sweep_step :
    Ticker → ℕ → (Db → Result (List RunRecord × Db)) → Tables → Result (ℕ × Tables)
unfolding announce_moved
sweep_step ticker now sweep t = elim (sweep t.db) [
  | err why ↦ err why
  | ok moved ↦ ok (
    length moved.0,
    record t { db = moved.1; outbox = announce_moved ticker now moved.0 t.outbox },
  )
]

-- `_sweep_runs`
unfoldable pub sweep_runs : Ticker → Pass → Step → ℕ → (Db → Result (List RunRecord × Db)) → Job ℕ
unfolding transact sweep_step
sweep_runs ticker pass step now sweep = transact (pass.down step) (sweep_step ticker now sweep)

-- One fire in its transaction, which is committed too where the fire failed.
unfoldable pub fire_step : Ticker → Pass → ℕ → ℕ → Tables → Result (Option Fired × Tables)
fire_step ticker pass round now t =
    elim (fire_due ticker.world (pass.minted round) (pass.outage round)
      (pass.free_schedules (firing round)) now (record { db = t.db; schedules = t.schedules })) [
        | err why ↦ err why
        | ok fired ↦ ok (fired.0, record t { db = fired.1.db; schedules = fired.1.schedules })
      ]

-- What a round's result adds to the count of the rounds after it.
unfoldable pub count_fire : Job ℕ → Option Fired → Job ℕ
unfolding done ◌>>=◌
count_fire more none = done 0
count_fire more (some (queued_run id at)) = more >>= λ n. done (suc n)
count_fire more (some (fire_failed error)) = more

-- `_fire_due`, with the rounds left.
unfoldable pub fire_rounds : Ticker → Pass → ℕ → ℕ → Job ℕ
unfolding transact fire_step done ◌>>=◌ count_fire
fire_rounds ticker pass now zero = done 0
fire_rounds ticker pass now (suc rounds) =
    transact (pass.down (firing rounds)) (fire_step ticker pass rounds now)
    >>= count_fire (fire_rounds ticker pass now rounds)

-- The deliveries there are.
unfoldable pub present : List (Option Delivery) → List Delivery
present [] = []
present (none ∷ held) = present held
present (some delivery ∷ held) = delivery ∷ present held

-- Each delivery settled by the attempt made of it.
unfoldable pub settle_all : (Delivery → Attempt) → ℕ → List Delivery → Outbox → Outbox
settle_all attempt_of now [] box = box
settle_all attempt_of now (delivery ∷ rest) box =
    settle_all attempt_of now rest (settle delivery (attempt_of delivery) now box).1

-- The due deliveries, held in a transaction of its own.
unfoldable pub hold_due : Pass → ℕ → Tables → Result (List Delivery × Tables)
unfolding present
hold_due pass now t =
    let claimed = Outbox.claim_due (pass.free_deliveries holding) now sweep_batch t.outbox in
    ok (present claimed.0, record t { outbox = claimed.1 })

-- The attempts settled: how many were accepted.
unfoldable pub settle_step : Pass → ℕ → List Delivery → Tables → Result (ℕ × Tables)
unfolding settle_all
settle_step pass now due t = ok (
  count_if (λ (d : Delivery). not (is_some (pass.attempt_of d).error)) due,
  record t { outbox = settle_all pass.attempt_of now due t.outbox },
)

-- Nothing is sent or settled where nothing is due.
unfoldable pub settle_due : Pass → ℕ → List Delivery → Job ℕ
unfolding transact done settle_step
settle_due pass now [] = done 0
settle_due pass now (first ∷ rest) =
    transact (pass.down settling) (settle_step pass now (first ∷ rest))

-- `_send_webhooks`
unfoldable pub send_webhooks : Pass → ℕ → Job ℕ
unfolding transact ◌>>=◌ hold_due settle_due
send_webhooks pass now = transact (pass.down holding) (hold_due pass now) >>= settle_due pass now

unfoldable pub drop_step : Ticker → Pass → ℕ → Tables → Result (ℕ × Tables)
drop_step ticker pass now t =
    let left =
      drop_dead (pass.free_deliveries dropping) (now - ticker.dead_retention) sweep_batch
        t.outbox in
    ok (left.0, record t { outbox = left.1 })

-- `_drop_dead`
unfoldable pub drop_dead_step : Ticker → Pass → ℕ → Job ℕ
unfolding transact drop_step
drop_dead_step ticker pass now = transact (pass.down dropping) (drop_step ticker pass now)

-- The artifacts that go: the expired ones whose blob is gone.
unfoldable pub gone_artifacts : Pass → ℕ → Tables → List String
gone_artifacts pass now t =
    map (λ (a : ArtifactRow). a.artifact_id)
      (select pass.blob_deleted
        (expired_artifacts pass.free_artifacts now sweep_batch t.db.artifacts))

unfoldable pub artifacts_step : Pass → ℕ → Tables → Result (ℕ × Tables)
unfolding gone_artifacts
artifacts_step pass now t =
    let gone = gone_artifacts pass now t in
    ok (length gone, record t { db = remove_artifacts gone t.db })

-- `_purge_artifacts`
unfoldable pub purge_artifacts : Pass → ℕ → Job ℕ
unfolding transact artifacts_step
purge_artifacts pass now = transact (pass.down artifacts_going) (artifacts_step pass now)

unfoldable pub runs_step : Pass → ℕ → Tables → Result (ℕ × Tables)
runs_step pass before t =
    let left = purge_ended (pass.free_runs runs_going) before sweep_batch t.db in
    ok (left.0, record t { db = left.1 })

-- `_purge_runs`, with the retention the deployment set.
unfoldable pub purge_runs : Pass → ℕ → Option ℕ → Job ℕ
unfolding transact done runs_step
purge_runs pass now none = done 0
purge_runs pass now (some retention) =
    transact (pass.down runs_going) (runs_step pass (now - retention))
