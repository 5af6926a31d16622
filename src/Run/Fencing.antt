-- ===== src/Run/Fencing.antt =====
-- The fence: what a worker that lost its lease is told.
use agent_runs.Base.{
  ℕ, String, ◌≡◌, true, false, ◌&&◌, Option, none, some, arith, str_eq, opt_eq, ok, err, lease_lost,
}
use agent_runs.Answers.{schema_problem}
use agent_runs.Run.Status.{final}
use agent_runs.Run.Rows.{Json, Interrupt, RunRow, RunFinish, Db, Contracts, bounded_checkpoint}
use agent_runs.Run.Moves.{fence, settled}
use agent_runs.Run.Store.{found, locked, change_run}
use agent_runs.Run.Pause.{pause_row, pause}
use agent_runs.Run.Ending.{finished_before, finish_row, finish}
use agent_runs.Run.Leasing.{heartbeat, release_row, release}

module _ (row : RunRow) (worker : String)
    (not_held : opt_eq row.lease_owner (some worker) ≡ false) where
  fenced_out : fence row (some worker) ≡ err lease_lost
  unfolding fence
  fenced_out = ground arith

  module _ (not_settled : opt_eq row.settled_by (some worker) ≡ false) (c : Contracts)
      (now : ℕ) where
    finish_row-fenced :
        (draw : ℕ) (ending : RunFinish)
        → finish_row c draw ending (some worker) now row ≡ err lease_lost
    unfolding finish_row finished_before settled
    finish_row-fenced draw ending = ground (arith, fenced_out)

    pause_row-fenced :
        (interrupt : Interrupt) (kept : Option Json)
        → pause_row c interrupt kept (some worker) now row ≡ err lease_lost
    unfolding pause_row settled
    pause_row-fenced interrupt kept = ground (arith, fenced_out)

    release_row-fenced : (kept : Option Json) → release_row c worker kept now row ≡ err lease_lost
    unfolding release_row settled
    release_row-fenced kept = ground (arith, fenced_out)

locked-found :
    (db : Db) (tenant run : String) {row : RunRow}
    → found db tenant run ≡ ok row
    → locked db tenant run none ≡ ok row
unfolding locked fence
locked-found db tenant run there = ground arith

locked_fenced :
    (db : Db) (tenant run worker : String) {row : RunRow}
    → found db tenant run ≡ ok row
    → opt_eq row.lease_owner (some worker) ≡ false
    → locked db tenant run (some worker) ≡ err lease_lost
unfolding locked fence
locked_fenced db tenant run worker there not_held = ground arith

-- A worker that neither holds the lease of a run nor made its last move is refused as `lease_lost` by
-- finish, pause, heartbeat and release alike, and none of them writes anything: of an ending, a pause
-- whose interrupt names this run and whose schema is one, and a checkpoint that is small enough.
pub lost_lease :
    (c : Contracts) (max_run : Option ℕ) (now draw lease_seconds : ℕ) (tenant run worker : String)
    (db : Db) (row : RunRow) (ending : RunFinish) (interrupt : Interrupt)
    (checkpoint kept : Option Json)
    → found db tenant run ≡ ok row
    → opt_eq row.lease_owner (some worker) ≡ false
    → opt_eq row.settled_by (some worker) ≡ false
    → final ending.status ≡ true
    → str_eq interrupt.tenant_id tenant && str_eq interrupt.run_id run ≡ true
    → schema_problem c interrupt.expects ≡ false
    → bounded_checkpoint checkpoint ≡ ok kept
    → (finish c draw tenant run ending (some worker) now db ≡ err lease_lost)
      × (pause c tenant run interrupt checkpoint (some worker) now db ≡ err lease_lost)
      × (heartbeat max_run tenant run worker lease_seconds checkpoint now db ≡ err lease_lost)
      × (release c tenant run worker checkpoint now db ≡ err lease_lost)
unfolding finish pause heartbeat release change_run
lost_lease c max_run now draw lease_seconds tenant run worker db row ending interrupt checkpoint
      kept there not_held not_settled ends named schema small =
    let l : locked db tenant run none ≡ ok row = locked-found db tenant run there in
    (
      rw (ends, l, finish_row-fenced row worker not_held not_settled c now draw ending),
      rw (
        named,
        schema,
        small,
        l,
        pause_row-fenced row worker not_held not_settled c now interrupt kept,
      ),
      rw (small, locked_fenced db tenant run worker there not_held),
      rw (small, l, release_row-fenced row worker not_held not_settled c now kept),
    )
