-- ===== src/Paging.antt =====
-- Keyset pages: src/agent_runs/store/paging.py, and the listings of the stores. How the database orders
-- two ids (its collation) is given. A listing's items are its rows, as the store fills them.
pub mod Order
pub mod Walk
pub mod Listings
use agent_runs.Base.{
  ℕ, zero, suc, ◌+◌, String, Bool, true, false, not, ◌&&◌, ◌||◌, Option, none, some, List, [], ◌∷◌,
  ◌++◌, map, str_eq, opt_eq, is_some, ltb, ◌==◌, length, take, select, last_of, sort_by, find_first,
  if◌then◌else◌, Result, ok, err, ◌>>=◌,
}
use agent_runs.Run.Status.{RunStatus, status_eq}
use agent_runs.Run.Rows.{RunRow, ResolutionRow, Db}
use agent_runs.Run.Store.{found}
use agent_runs.Schedule.Rows.{ScheduleRow}
use agent_runs.Outbox.{WebhookRow, DeliveryRow, Outbox, is_hook}

-- The position of a row: the values of the columns a listing is ordered by.
pub record Position : Type 0 where
  pub at : ℕ
  pub id : String

-- `Page`
pub record Page (T : Type 0) : Type 0 where
  pub items : List T
  pub after : Option Position

-- `page_of`, of `limit + 1` fetched rows.
unfoldable pub page_of : {R T : Type 0} → ℕ → (R → T) → (R → Position) → List R → Page T
page_of limit item position rows =
    let kept = take limit rows in
    record {
      items = map item kept;
      after =
          if ltb limit (length rows)
          then elim (last_of kept) [ none ↦ none | some row ↦ some (position row) ]
          else none;
    }

-- `tuple_(*order) > (...)`, or `<` where a listing is newest first.
abbrev pub oldest_first : (String → String → Bool) → Position → Position → Bool
oldest_first id_lt p q = ltb p.at q.at || (p.at == q.at && id_lt p.id q.id)

abbrev pub newest_first : (String → String → Bool) → Position → Position → Bool
newest_first id_lt p q = oldest_first id_lt q p

-- The rows behind the position a page starts at.
abbrev pub is_behind : (Position → Position → Bool) → Option Position → Position → Bool
is_behind before none q = true
is_behind before (some p) q = before p q

-- A query of a listing: the rows of its conditions behind a position, in its order, one more than a page.
unfoldable pub page :
    {R T : Type 0}
    → (Position → Position → Bool)
    → (R → Position)
    → (R → T)
    → (R → Bool)
    → ℕ
    → Option Position
    → List R
    → Page T
unfolding page_of
page before position item test limit after rows = page_of limit item position (
    take (limit + 1) (
      sort_by (λ a b. before (position a) (position b))
        (select (λ r. is_behind before after (position r)) (select test rows))))

-- What `RunStore.list` may be asked for.
pub record RunFilter : Type 0 where
  pub tenant_id : String
  pub status : Option RunStatus
  pub assignee : Option String
  pub agent_id : Option String
  pub thread_id : Option String
  pub parent_run_id : Option String
  pub top_level : Bool

-- `column == value`, where a value is asked for.
abbrev pub asks : Option String → Option String → Bool
asks none column = true
asks (some value) column = opt_eq column (some value)

abbrev pub asks_status : Option RunStatus → RunStatus → Bool
asks_status none status = true
asks_status (some value) status = status_eq status value

unfoldable pub in_listing : RunFilter → RunRow → Bool
in_listing filter row =
    str_eq row.tenant_id filter.tenant_id
    && (asks_status filter.status row.status
        && (asks filter.assignee row.assignee
            && (asks filter.agent_id (some row.agent_id)
                && (asks filter.thread_id row.thread_id
                    && (asks filter.parent_run_id row.parent_run_id
                        && not (filter.top_level && is_some row.parent_run_id))))))

abbrev pub run_position : RunRow → Position
run_position row = record { at = row.created_at; id = row.run_id }

-- `RunStore.list`
unfoldable pub list_runs :
    (String → String → Bool) → RunFilter → ℕ → Option Position → List RunRow → Page RunRow
unfolding page in_listing
list_runs id_lt filter limit after rows =
    page (newest_first id_lt) run_position (λ row. row) (in_listing filter) limit after rows

abbrev pub resolution_position : ResolutionRow → Position
resolution_position row = record { at = row.recorded_at; id = row.resolution_id }

-- `RunStore.resolutions`
unfoldable pub list_resolutions :
    (String → String → Bool)
    → String
    → String
    → ℕ
    → Option Position
    → Db
    → Result (Page ResolutionRow)
unfolding page
list_resolutions id_lt tenant run limit after db = do
  row ← found db tenant run
  ok (
      page (oldest_first id_lt) resolution_position (λ r. r)
        (λ r. str_eq r.tenant_id tenant && str_eq r.run_id run) limit after db.resolutions)

abbrev pub schedule_position : ScheduleRow → Position
schedule_position row = record { at = row.created_at; id = row.schedule_id }

-- `ScheduleStore.list`
unfoldable pub list_schedules :
    (String → String → Bool)
    → String
    → Option Bool
    → Option String
    → Option String
    → ℕ
    → Option Position
    → List ScheduleRow
    → Page ScheduleRow
unfolding page
list_schedules id_lt tenant enabled agent on_behalf_of limit after rows =
    page (newest_first id_lt) schedule_position (λ r. r)
      (λ r.
        str_eq r.spec.tenant_id tenant
        && (elim enabled [
          | none ↦ true
          | some value ↦ if value then r.spec.enabled else not r.spec.enabled
        ]
            && (asks agent (some r.spec.agent_id) && asks on_behalf_of (some r.spec.on_behalf_of))))
      limit after rows

abbrev pub hook_position : WebhookRow → Position
hook_position row = record { at = row.created_at; id = row.webhook_id }

-- `WebhookStore.list`
unfoldable pub list_hooks :
    (String → String → Bool) → String → ℕ → Option Position → Outbox → Page WebhookRow
unfolding page
list_hooks id_lt tenant limit after box =
    page (oldest_first id_lt) hook_position (λ h. h) (λ h. str_eq h.tenant_id tenant) limit after
      box.hooks

abbrev pub delivery_position : DeliveryRow → Position
delivery_position row = record { at = row.created_at; id = row.delivery_id }

-- `WebhookStore.deliveries`; `dead` is the state asked for.
unfoldable pub list_deliveries :
    (String → String → Bool)
    → String
    → Option Bool
    → Option String
    → ℕ
    → Option Position
    → Outbox
    → Page DeliveryRow
unfolding page
list_deliveries id_lt tenant dead hook limit after box =
    page (newest_first id_lt) delivery_position (λ d. d)
      (λ d.
        is_some (find_first (is_hook tenant d.webhook_id) box.hooks)
        && (elim dead [
          | none ↦ true
          | some value ↦ if value then is_some d.dead_at else not (is_some d.dead_at)
        ]
            && asks hook (some d.webhook_id)))
      limit after box.deliveries
