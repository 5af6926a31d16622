-- ===== src/Run/Queue.antt =====
-- `RunStore.claim`: the next queued run of a worker's agents. The query reads one snapshot of the
-- tables; the counts taken under the advisory locks read a later one (`later`), which holds every
-- claim committed before it. `free` says which rows no other transaction holds, and `lockable`
-- which advisory locks no other claim holds.
use agent_runs.Base.{
  ℕ, String, Bool, true, false, not, ◌&&◌, ◌||◌, Option, none, some, List, [], ◌∷◌, str_eq, opt_eq,
  is_some, ltb, leb, ◌==◌, contains, holds, select, count_if, if◌then◌else◌,
}
use agent_runs.Run.Status.{queued, running, status_eq}
use agent_runs.Run.Rows.{RunRow}

-- What bounds a claim: the service's maximum working time, and the deployment's limits.
pub record Limits : Type 0 where
  pub max_run_seconds : Option ℕ
  pub concurrency_per_key : ℕ
  pub max_running_per_tenant : Option ℕ

pub record ClaimRequest : Type 0 where
  pub worker_id : String
  pub agent_ids : List String
  pub lease_seconds : ℕ

-- `_LEASED`
unfoldable pub is_leased : RunRow → Bool
is_leased row = status_eq row.status running && is_some row.lease_owner

-- What a claim passed over already: a tenant, or a tenant's key.
pub data Passed : Type 0 where
  tenant_full : String → Passed
  key_full : String → Option String → Passed

-- The condition a pass adds to the query.
unfoldable pub not_passed : Passed → RunRow → Bool
not_passed (tenant_full tenant) row = not (str_eq row.tenant_id tenant)
not_passed (key_full tenant key) row =
    not (str_eq row.tenant_id tenant) || not (opt_eq row.concurrency_key key)

unfoldable pub none_passed : List Passed → RunRow → Bool
unfolding not_passed
none_passed [] row = true
none_passed (p ∷ ps) row = not_passed p row && none_passed ps row

-- The RUNNING runs of a tenant that share a key.
unfoldable pub running_with_key : String → String → List RunRow → ℕ
running_with_key tenant key rows =
    count_if
      (λ r.
        status_eq r.status running
        && (str_eq r.tenant_id tenant && opt_eq r.concurrency_key (some key)))
      rows

-- The runs a tenant's workers hold, of every agent.
unfoldable pub held_by_tenant : String → List RunRow → ℕ
unfolding is_leased
held_by_tenant tenant rows = count_if (λ r. is_leased r && str_eq r.tenant_id tenant) rows

-- The runs a tenant's workers hold of some agents: the fair share.
unfoldable pub share_of : List String → String → List RunRow → ℕ
unfolding is_leased
share_of agents tenant rows =
    count_if (λ r. is_leased r && (contains r.agent_id agents && str_eq r.tenant_id tenant)) rows

-- Fewer RUNNING runs than allowed share the run's key; always, with none.
unfoldable pub key_room : ℕ → RunRow → List RunRow → Bool
unfolding running_with_key
key_room per_key row rows = elim row.concurrency_key [
  | none ↦ true
  | some key ↦ ltb (running_with_key row.tenant_id key rows) per_key
]

abbrev pub in_tenant : Option String → RunRow → Bool
in_tenant none row = true
in_tenant (some tenant) row = str_eq row.tenant_id tenant

-- The WHERE clause of `_next_queued`.
unfoldable pub claimable : Limits → Option String → ClaimRequest → ℕ → List RunRow → RunRow → Bool
unfolding key_room
claimable limits tenant request now rows row =
    status_eq row.status queued
    && (contains row.agent_id request.agent_ids
        && ((not (is_some row.available_at) || holds row.available_at (λ at. leb at now))
            && (key_room limits.concurrency_per_key row rows && in_tenant tenant row)))

-- A NULL `queued_at` sorts last.
abbrev pub older : Option ℕ → Option ℕ → Bool
older none b = false
older (some a) none = true
older (some a) (some b) = ltb a b

-- The ORDER BY of `_next_queued`: the least fair share, then the highest priority, then the oldest.
unfoldable pub goes_before : ClaimRequest → List RunRow → RunRow → RunRow → Bool
unfolding share_of
goes_before request rows a b =
    let share_a = share_of request.agent_ids a.tenant_id rows in
    let share_b = share_of request.agent_ids b.tenant_id rows in
    ltb share_a share_b
    || (share_a == share_b
        && (ltb b.priority a.priority
            || (a.priority == b.priority && older a.queued_at b.queued_at)))

-- `ORDER BY … LIMIT 1`
unfoldable pub first_by : (RunRow → RunRow → Bool) → List RunRow → Option RunRow
first_by before [] = none
first_by before (r ∷ rs) = elim (first_by before rs) [
  | none ↦ some r
  | some best ↦ if before best r then some best else some r
]

-- `_next_queued`
unfoldable pub next_queued :
    Limits
    → Option String
    → ClaimRequest
    → ℕ
    → (RunRow → Bool)
    → List Passed
    → List RunRow
    → Option RunRow
unfolding claimable goes_before first_by none_passed
next_queued limits tenant request now free passed rows = first_by (goes_before request rows) (
    select (λ r. claimable limits tenant request now rows r && (none_passed passed r && free r))
      rows)
