-- ===== src/Outbox.antt =====
-- src/agent_runs/store/webhooks.py: the subscriptions, and the outbox of deliveries owed to them. What
-- an attempt came to is given: Sender makes it (src/agent_runs/webhooks.py).
pub mod Attempts
use agent_runs.Base.{
  ℕ, ◌+◌, String, Bool, true, false, not, ◌&&◌, Option, none, some, List, [], ◌∷◌, map, length,
  str_eq, is_some, opt_eq, contains, holds, ltb, leb, take, select, count_if, find_first, sort_by,
  if◌then◌else◌, Result, ok, err, conflict, not_found, raise_if, ◌>>=◌, ◌>>◌, ◌*◌,
}
use agent_runs.Retry.{seconds, minutes, backoff}

abbrev pub max_webhooks_per_tenant : ℕ
max_webhooks_per_tenant = 20

abbrev pub webhook_lease : ℕ
webhook_lease = seconds 20

abbrev pub webhook_attempts : ℕ
webhook_attempts = 7

abbrev pub webhook_retry_base : ℕ
webhook_retry_base = seconds 15

abbrev pub webhook_retry_cap : ℕ
webhook_retry_cap = minutes 10

-- `WebhookRow`
pub record WebhookRow : Type 0 where
  pub webhook_id : String
  pub tenant_id : String
  pub url : String
  pub events : List String
  pub secret : String
  pub previous_secret : Option String
  pub previous_secret_expires_at : Option ℕ
  pub created_by : String
  pub created_at : ℕ

-- `WebhookDeliveryRow`; the payload is its text.
pub record DeliveryRow : Type 0 where
  pub delivery_id : String
  pub webhook_id : String
  pub payload : String
  pub attempts : ℕ
  pub next_attempt_at : ℕ
  pub last_error : Option String
  pub dead_at : Option ℕ
  pub created_at : ℕ

pub record Outbox : Type 0 where
  pub hooks : List WebhookRow
  pub deliveries : List DeliveryRow

-- `Delivery`: a row the ticker holds, with what signs it.
pub record Delivery : Type 0 where
  pub delivery_id : String
  pub url : String
  pub secret : String
  pub payload : String
  pub attempts : ℕ
  pub previous_secret : Option String

-- `Attempt`: accepted when there is no error.
pub record Attempt : Type 0 where
  pub error : Option String
  pub retry : Bool

-- `WebhookStore.create`, with the new id and secret given.
unfoldable pub create :
    String
    → String
    → String
    → List String
    → String
    → String
    → ℕ
    → Outbox
    → Result (WebhookRow × Outbox)
create tenant id url events secret creator now box = do
  raise_if (leb max_webhooks_per_tenant (count_if (λ h. str_eq h.tenant_id tenant) box.hooks))
      conflict
  let hook : WebhookRow = record {
    webhook_id = id;
    tenant_id = tenant;
    url = url;
    events = events;
    secret = secret;
    previous_secret = none;
    previous_secret_expires_at = none;
    created_by = creator;
    created_at = now;
  }
  ok (hook, record box { hooks = hook ∷ box.hooks })

abbrev pub is_hook : String → String → WebhookRow → Bool
is_hook tenant id hook = str_eq hook.tenant_id tenant && str_eq hook.webhook_id id

-- `_subscription`
unfoldable pub subscription : String → String → Outbox → Result WebhookRow
subscription tenant id box = elim (find_first (is_hook tenant id) box.hooks) [
  | none ↦ err not_found
  | some hook ↦ ok hook
]

-- The row written back under its primary key.
unfoldable pub put_hook : WebhookRow → List WebhookRow → List WebhookRow
put_hook hook hooks = map (λ h. if str_eq h.webhook_id hook.webhook_id then hook else h) hooks

-- `WebhookStore.rotate_secret`, with the new secret given.
unfoldable pub rotate_secret :
    String → String → String → ℕ → ℕ → Outbox → Result (WebhookRow × Outbox)
unfolding subscription put_hook
rotate_secret tenant id secret overlap now box = do
  hook ← subscription tenant id box
  let turned = record hook {
    secret = secret;
    previous_secret = some hook.secret;
    previous_secret_expires_at = some (now + overlap);
  }
  ok (turned, record box { hooks = put_hook turned box.hooks })

-- `WebhookStore.delete`; its deliveries go by the foreign key's cascade.
unfoldable pub delete_hook : String → String → Outbox → Result Outbox
unfolding subscription
delete_hook tenant id box = do
  hook ← subscription tenant id box
  ok (record box {
    hooks = select (λ h. not (is_hook tenant id h)) box.hooks;
    deliveries = select (λ d. not (str_eq d.webhook_id id)) box.deliveries;
  })

-- The row of an event owed to a subscription.
unfoldable pub owed : (String → String) → String → ℕ → WebhookRow → DeliveryRow
owed delivery_id payload now hook = record {
  delivery_id = delivery_id hook.webhook_id;
  webhook_id = hook.webhook_id;
  payload = payload;
  attempts = 0;
  next_attempt_at = now;
  last_error = none;
  dead_at = none;
  created_at = now;
}

-- `ON CONFLICT DO NOTHING`, row by row.
unfoldable pub insert_owed : List DeliveryRow → List DeliveryRow → List DeliveryRow
insert_owed [] rows = rows
insert_owed (d ∷ ds) rows =
    let rest = insert_owed ds (d ∷ rows) in
    let same = insert_owed ds rows in
    if is_some (find_first (λ r. str_eq r.delivery_id d.delivery_id) rows) then same else rest

-- `WebhookStore.announce` of an event; `delivery_id` is the stable id of the event and a subscription.
unfoldable pub announce : String → String → (String → String) → String → ℕ → Outbox → Outbox
unfolding owed insert_owed
announce tenant event delivery_id payload now box =
    let hooks = select (λ h. str_eq h.tenant_id tenant && contains event h.events) box.hooks in
    record box {
      deliveries = insert_owed (map (owed delivery_id payload now) hooks) box.deliveries;
    }

-- Owed, due, and of a subscription that is there (the join).
unfoldable pub is_due : ℕ → List WebhookRow → DeliveryRow → Bool
is_due now hooks row =
    not (is_some row.dead_at)
    && (leb row.next_attempt_at now
        && is_some (find_first (λ h. str_eq h.webhook_id row.webhook_id) hooks))

-- A due row as the ticker holds it: counted as attempted, and due again when the hold runs out.
unfoldable pub held : ℕ → DeliveryRow → DeliveryRow
held now row = record row { attempts = row.attempts + 1; next_attempt_at = now + webhook_lease }

-- The replaced secret, while it still signs. With no expiry there is none.
unfoldable pub signing_too : ℕ → WebhookRow → Option String
signing_too now hook =
    if holds hook.previous_secret_expires_at (λ at. ltb now at) then hook.previous_secret else none

unfoldable pub delivery_of : ℕ → List WebhookRow → DeliveryRow → Option Delivery
unfolding signing_too
delivery_of now hooks row = elim (find_first (λ h. str_eq h.webhook_id row.webhook_id) hooks) [
  | none ↦ none
  | some hook ↦ some (record {
    delivery_id = row.delivery_id;
    url = hook.url;
    secret = hook.secret;
    payload = row.payload;
    attempts = row.attempts;
    previous_secret = signing_too now hook;
  })
]

-- The row written back under its primary key.
unfoldable pub put_delivery : DeliveryRow → List DeliveryRow → List DeliveryRow
put_delivery row rows = map (λ r. if str_eq r.delivery_id row.delivery_id then row else r) rows

unfoldable pub put_deliveries : List DeliveryRow → List DeliveryRow → List DeliveryRow
unfolding put_delivery
put_deliveries [] rows = rows
put_deliveries (r ∷ rs) rows = put_deliveries rs (put_delivery r rows)

-- `WebhookStore.claim_due`; `free` says which rows no other ticker holds.
unfoldable pub claim_due : (DeliveryRow → Bool) → ℕ → ℕ → Outbox → List (Option Delivery) × Outbox
unfolding is_due held delivery_of put_deliveries
claim_due free now limit box =
    let due = take limit (
      sort_by (λ a b. ltb a.next_attempt_at b.next_attempt_at)
        (select (λ r. is_due now box.hooks r && free r) box.deliveries)) in
    let rows = map (held now) due in
    (
      map (delivery_of now box.hooks) rows,
      record box { deliveries = put_deliveries rows box.deliveries },
    )

-- What `settle` writes on the row after an attempt that was not accepted; an OverflowError of the wait
-- would undo it.
unfoldable pub failed_row : ℕ → Attempt → ℕ → DeliveryRow → DeliveryRow
failed_row attempts attempt now row =
    if attempt.retry && ltb attempts webhook_attempts
    then elim (backoff webhook_retry_base attempts webhook_retry_cap) [
      | none ↦ row
      | some wait ↦ record row { last_error = attempt.error; next_attempt_at = now + wait }
    ]
    else record row { last_error = attempt.error; dead_at = some now }

-- `WebhookStore.settle`: whether the delivery died.
unfoldable pub settle : Delivery → Attempt → ℕ → Outbox → Bool × Outbox
unfolding failed_row put_delivery
settle delivery attempt now box =
    if not (is_some attempt.error)
    then (
      false,
      record box {
        deliveries = select (λ r. not (str_eq r.delivery_id delivery.delivery_id)) box.deliveries;
      },
    )
    else elim (find_first (λ r. str_eq r.delivery_id delivery.delivery_id) box.deliveries) [
      | none ↦ (false, box)
      | some row ↦
          let after = failed_row delivery.attempts attempt now row in
          (is_some after.dead_at, record box { deliveries = put_delivery after box.deliveries })
    ]

-- `WebhookStore.redeliver`
unfoldable pub redeliver : String → String → ℕ → Outbox → Result (DeliveryRow × Outbox)
unfolding put_delivery
redeliver tenant id now box =
    elim (find_first
      (λ r. str_eq r.delivery_id id && is_some (find_first (is_hook tenant r.webhook_id) box.hooks))
      box.deliveries) [
        | none ↦ err not_found
        | some row ↦ do
          raise_if (not (is_some row.dead_at)) conflict
          let again = record row { dead_at = none; attempts = 0; next_attempt_at = now }
          ok (again, record box { deliveries = put_delivery again box.deliveries })
      ]

-- Dead since before an instant.
unfoldable pub is_expired : ℕ → DeliveryRow → Bool
is_expired before row = holds row.dead_at (λ at. ltb at before)

-- `WebhookStore.drop_dead`
unfoldable pub drop_dead : (DeliveryRow → Bool) → ℕ → ℕ → Outbox → ℕ × Outbox
unfolding is_expired
drop_dead free before limit box =
    let died = λ (a b : DeliveryRow). holds a.dead_at (λ x. holds b.dead_at (λ y. ltb x y)) in
    let gone =
      map (λ r. r.delivery_id)
        (take limit (sort_by died (select (λ r. is_expired before r && free r) box.deliveries))) in
    (
      length gone,
      record box { deliveries = select (λ r. not (contains r.delivery_id gone)) box.deliveries },
    )
