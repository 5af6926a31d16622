-- ===== src/Run/Repeat/Start.antt =====
-- A start made twice, under its id or its idempotency key.
use agent_runs.Base.{
  ℕ, String, ◌≡◌, Bool, true, false, Option, none, some, List, ◌∷◌, arith, str_eq, opt_eq, truthy,
  Bool-cases, inl, inr, find_first, eq_iff, opt_eq_iff, ok, refl,
}
use agent_runs.Run.Rows.{RunStart, RunRow, Db}
use agent_runs.Run.Store.{RunRecord, record_of, is_run}
use agent_runs.Run.Starts.{
  new_row, has_key, taken, opt_num_eq, same_start, same_request, found_by_id, found_by_key,
  existing, start_run,
}
use agent_runs.Run.Repeat.{IsRepeat}

opt_num_eq_refl : (a : Option ℕ) → opt_num_eq a a ≡ true
opt_num_eq_refl none = refl
opt_num_eq_refl (some a) = ground arith

opt_eq_refl : (a : Option String) → opt_eq a a ≡ true
opt_eq_refl a = ground (arith, opt_eq_iff a a)

str_eq_refl : (a : String) → str_eq a a ≡ true
str_eq_refl a = ground (arith, eq_iff a a)

same_start_refl : (a : RunStart) → same_start a a ≡ true
unfolding same_start
same_start_refl a =
    rw
      (
        str_eq_refl a.agent_id,
        opt_eq_refl a.parent_run_id,
        opt_eq_refl a.thread_id,
        opt_eq_refl a.user_id,
        opt_eq_refl a.workspace_id,
        opt_eq_refl a.on_behalf_of,
        opt_eq_refl a.input,
        opt_num_eq_refl a.deadline,
        opt_num_eq_refl a.timeout_seconds,
        opt_eq_refl a.concurrency_key,
        str_eq_refl a.metadata,
      )
      (ground arith)

module _ (start : RunStart) (queue strict : Bool) (now later : ℕ) (rows : List RunRow) where
  same_request_refl : same_request (new_row start queue now) start queue ≡ true
  unfolding same_request new_row
  same_request_refl = ground (arith, same_start_refl start)

  taken_again : taken start (new_row start queue now ∷ rows) ≡ true
  unfolding taken new_row
  taken_again = ground (arith, str_eq_refl start.run_id)

  id_again :
      find_first (is_run start.tenant_id start.run_id) (new_row start queue now ∷ rows)
      ≡ some (new_row start queue now)
  unfolding new_row
  id_again = ground (arith, str_eq_refl start.run_id, str_eq_refl start.tenant_id)

  key_again :
      truthy start.idempotency_key ≡ true
      → find_first (has_key start.tenant_id start.idempotency_key) (new_row start queue now ∷ rows)
        ≡ some (new_row start queue now)
  unfolding new_row
  key_again named = ground (arith, opt_eq_refl start.idempotency_key, str_eq_refl start.tenant_id)

by_id :
    (start : RunStart) (later : ℕ) (db : Db) {r : RunRow}
    → find_first (is_run start.tenant_id start.run_id) db.runs ≡ some r
    → found_by_id start later db ≡ ok ((record_of r later, false), db)
unfolding found_by_id
by_id start later db there = ground arith

-- A start that recorded a run, made again with the same arguments before anything else changes the
-- tables: the same run is answered, not as a new one, whether it is found by its idempotency key or,
-- without one, by its id; the strict comparison finds no difference, and the tables stay as they are.
pub start_run-start_run :
    (start : RunStart) (queue strict : Bool) (now later : ℕ) (db db' : Db) (answer : RunRecord)
    → taken start db.runs ≡ false
    → start_run start queue now strict db ≡ ok ((answer, true), db')
    → IsRepeat db' answer (start_run start queue later strict db')
unfolding start_run existing found_by_key record_of
start_run-start_run start queue strict now later db db' answer fresh e =
    let r = new_row start queue now in
    let said : answer ≡ record_of r now = ground arith in
    let runs : db'.runs ≡ r ∷ db.runs = ground arith in
    let was : taken start db'.runs ≡ true =
      rw runs (taken_again start queue strict now later db.runs) in
    let found : find_first (is_run start.tenant_id start.run_id) db'.runs ≡ some r =
      rw runs (id_again start queue strict now later db.runs) in
    (
      (record_of r later).worked_seconds,
      elim (Bool-cases (truthy start.idempotency_key)) [
        | inl named ↦
            let found' : find_first (has_key start.tenant_id start.idempotency_key) db'.runs
                ≡ some r =
              rw runs (key_again start queue strict now later db.runs named) in
            rw (was, named, found', same_request_refl start queue strict now later db.runs, said)
              (ground arith)
        | inr f ↦ rw (was, f, by_id start later db' found, said)
      ],
    )
