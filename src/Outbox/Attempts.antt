-- ===== src/Outbox/Attempts.antt =====
-- How often a delivery is tried, and that a failed attempt loses none.
use agent_runs.Base.{
  ℕ, suc, ◌+◌, ◌||◌, not, Bool, false, String, ◌≡◌, true, some, List, [], ◌∷◌, map, arith, is_some,
  leb, Option-cases, inl, inr, str_eq, find_first, Bool-cases, eq_iff, refl, length,
}
use agent_runs.Retry.Backoff.{backoff_few}
use agent_runs.Outbox.{
  webhook_retry_base, webhook_retry_cap, DeliveryRow, Outbox, Delivery, Attempt, webhook_attempts,
  held, failed_row, put_delivery, settle,
}

-- How an attempt that was not accepted went, and when.
pub record Round : Type 0 where
  pub at : ℕ
  pub why : String
  pub again : Bool

abbrev pub attempt_in : Round → Attempt
attempt_in round = record { error = some round.why; retry = round.again }

-- A delivery held, tried without being accepted, and settled.
abbrev pub fail_round : Round → DeliveryRow → DeliveryRow
fail_round round row =
    let tried = held round.at row in failed_row tried.attempts (attempt_in round) round.at tried

abbrev pub fail_rounds : DeliveryRow → List Round → DeliveryRow
fail_rounds row [] = row
fail_rounds row (round ∷ rest) = fail_rounds (fail_round round row) rest

-- Some attempt was refused for good: it is not worth another.
abbrev pub is_refused : List Round → Bool
is_refused [] = false
is_refused (round ∷ rest) = not round.again || is_refused rest

fail_round_lem :
    (round : Round) (row : DeliveryRow)
    → ((fail_round round row).attempts ≡ row.attempts + 1)
      × ((fail_round round row).last_error ≡ some round.why)
      × (is_some (fail_round round row).dead_at
          ≡ (not round.again || (leb webhook_attempts (row.attempts + 1) || is_some row.dead_at)))
unfolding held failed_row
fail_round_lem round row = elim (Bool-cases (leb (row.attempts + 1) 6)) [
  | inl t ↦ ground (
    arith,
    backoff_few webhook_retry_base webhook_retry_cap row.attempts (omega arith) (ground (arith, t)),
  )
  | inr f ↦ ground (arith, f)
]

-- Attempts at a delivery, none of them accepted: it is dead afterwards exactly when it was, when one of
-- them was not worth another, or when the attempts made, those before and one more in each round, have
-- reached `WEBHOOK_ATTEMPTS`. (A delivery that had them all before was dead.)
pub fail_rounds_lem :
    (row : DeliveryRow) (rounds : List Round)
    → (leb webhook_attempts row.attempts ≡ true → is_some row.dead_at ≡ true)
    → is_some (fail_rounds row rounds).dead_at ≡ (
        is_some row.dead_at
        || (is_refused rounds || leb webhook_attempts (row.attempts + length rounds)))
fail_rounds_lem row [] spent = elim (Bool-cases (leb webhook_attempts row.attempts)) [
  | inl t ↦ ground (arith, t, spent t)
  | inr f ↦ ground (arith, f)
]
fail_rounds_lem row (round ∷ rest) spent =
    let (counted, said, dead) = fail_round_lem round row in
    let next = fail_round round row in
    let spent' : leb webhook_attempts next.attempts ≡ true → is_some next.dead_at ≡ true =
      λ t. ground (arith, counted, dead, t) in
    let sum : next.attempts + length rest ≡ row.attempts + suc (length rest) =
      omega (arith, counted) in
    let later = fail_rounds_lem next rest spent' in ground (arith, later, sum, dead, counted, spent)

put_delivery-ids :
    (row : DeliveryRow) (rows : List DeliveryRow)
    → map (λ r. r.delivery_id) (put_delivery row rows) ≡ map (λ r. r.delivery_id) rows
unfolding put_delivery
put_delivery-ids row [] = refl
put_delivery-ids row (x ∷ xs) = elim (Bool-cases (str_eq x.delivery_id row.delivery_id)) [
  | inl t ↦ rw t (ground (arith, eq_iff x.delivery_id row.delivery_id, put_delivery-ids row xs))
  | inr f ↦ rw f (ground (arith, put_delivery-ids row xs))
]

-- An attempt that was not accepted loses no delivery: the outbox holds the same ones, in the same
-- order, whether it is tried again, dead, or went with its subscription.
pub settle-keeps :
    (delivery : Delivery) (attempt : Attempt) (now : ℕ) (box : Outbox)
    → is_some attempt.error ≡ true
    → map (λ r. r.delivery_id) (settle delivery attempt now box).1.deliveries
      ≡ map (λ r. r.delivery_id) box.deliveries
unfolding settle
settle-keeps delivery attempt now box failed =
    elim (Option-cases
      (find_first (λ r. str_eq r.delivery_id delivery.delivery_id) box.deliveries)) [
        | inl gone ↦ rw (failed, gone)
        | inr (row, there) ↦
            rw (failed, there)
              (put_delivery-ids (failed_row delivery.attempts attempt now row) box.deliveries)
      ]
