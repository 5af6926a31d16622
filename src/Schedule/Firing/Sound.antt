-- ===== src/Schedule/Firing/Sound.antt =====
-- What holds of every schedule between two transactions, whatever is asked of the service.
use agent_runs.Base.{
  ℕ, ◌≤◌, ◌<◌, String, ◌≡◌, Bool, true, false, not, ◌&&◌, arith, is_some, ltb, str_eq, Bool-cases,
  Option-cases, inl, inr, eq_iff, refl,
}
use agent_runs.Run.Rows.{AgentError}
use agent_runs.Schedule.Cadence.{looked_up, buckets, next_fire_at}
use agent_runs.Schedule.Rows.{ScheduleSpec, ScheduleRow}
use agent_runs.Schedule.Store.{
  World, max_consecutive_failures, apply, arm, still_pending, rearm, fresh_schedule, retimed_row,
  cleared, updated_row, fired_row, struck_row,
}

-- A schedule is armed exactly when its cadence fires by itself; its failures are counted with the last
-- error, hold it back only while there are some, and never reach the limit while it is enabled.
pub record IsKept (row : ScheduleRow) : Type 0 where
  pub armed : is_some row.next_fire_at ≡ is_some (looked_up buckets row.spec.cadence)
  pub counted : is_some row.last_error ≡ ltb 0 row.consecutive_failures
  pub backing_off : is_some row.retry_after ≡ true → 1 ≤ row.consecutive_failures
  pub firing : row.spec.enabled ≡ true → row.consecutive_failures < max_consecutive_failures
  pub capped : row.consecutive_failures ≤ max_consecutive_failures

module _ (w : World) where
  pub fresh_schedule-IsKept :
      (id : String) (spec : ScheduleSpec) (created_by : String) (now : ℕ)
      → IsKept (fresh_schedule w id spec created_by now)
  unfolding fresh_schedule arm apply next_fire_at
  fresh_schedule-IsKept id spec created_by now =
      elim (Option-cases (looked_up buckets spec.cadence)) [
        | inl manual ↦ ground arith
        | inr (expression, fires) ↦ ground arith
      ]

  pub fired_row-IsKept :
      (row : ScheduleRow) (fire_time : ℕ) (run : String) (now : ℕ)
      → IsKept (fired_row w row fire_time run now)
  unfolding fired_row arm next_fire_at
  fired_row-IsKept row fire_time run now =
      elim (Option-cases (looked_up buckets row.spec.cadence)) [
        | inl manual ↦ ground arith
        | inr (expression, fires) ↦ ground arith
      ]

  pub struck_row-IsKept :
      (row : ScheduleRow) (error : AgentError) (now : ℕ)
      → IsKept row
      → row.spec.enabled ≡ true
      → IsKept (struck_row row error now)
  unfolding struck_row
  struck_row-IsKept row error now v on = ground arith

  abbrev IsArmed : ScheduleRow → Type 0
  IsArmed row = is_some row.next_fire_at ≡ is_some (looked_up buckets row.spec.cadence)

  arm-IsArmed : (row : ScheduleRow) (after : ℕ) → IsArmed (arm w row after)
  unfolding arm next_fire_at
  arm-IsArmed row after = elim (Option-cases (looked_up buckets row.spec.cadence)) [
    | inl manual ↦ ground arith
    | inr (expression, fires) ↦ ground arith
  ]

  rearm-IsArmed : (row : ScheduleRow) (at : ℕ) → IsArmed row → IsArmed (rearm w row at)
  unfolding rearm
  rearm-IsArmed row at v = elim (Bool-cases (still_pending w row at)) [
    | inl pending ↦ rw pending v
    | inr past ↦ rw past (arm-IsArmed row at)
  ]

  retimed_row-IsArmed :
      (row : ScheduleRow) (retimed re_enabled : Bool) (now : ℕ)
      → (retimed ≡ false → IsArmed row)
      → IsArmed (retimed_row w row retimed re_enabled now)
  unfolding retimed_row
  retimed_row-IsArmed row true re_enabled now v = arm-IsArmed row now
  retimed_row-IsArmed row false true now v = rearm-IsArmed row now (v refl)
  retimed_row-IsArmed row false false now v = v refl

  -- The columns that the clock of an update leaves alone.
  retimed_row-rest :
      (row : ScheduleRow) (retimed re_enabled : Bool) (now : ℕ)
      → let r = retimed_row w row retimed re_enabled now in
        (r.spec ≡ row.spec)
        × (r.last_error ≡ row.last_error)
        × (r.retry_after ≡ row.retry_after)
        × (r.consecutive_failures ≡ row.consecutive_failures)
  unfolding retimed_row rearm arm
  retimed_row-rest row retimed re_enabled now = ground arith

  cleared-IsKept :
      (row r : ScheduleRow) (spec : ScheduleSpec)
      → IsKept row
      → (r.spec ≡ spec)
        × (r.last_error ≡ row.last_error)
        × (r.retry_after ≡ row.retry_after)
        × (r.consecutive_failures ≡ row.consecutive_failures)
      → IsArmed r
      → IsKept (cleared r (spec.enabled && not row.spec.enabled))
  unfolding cleared
  cleared-IsKept row r spec v same armed =
      elim (Bool-cases (spec.enabled && not row.spec.enabled)) [
        | inl on ↦ rw on (ground (arith, armed))
        | inr off ↦ rw off (ground (arith, armed))
      ]

  pub updated_row-IsKept :
      (row : ScheduleRow) (spec : ScheduleSpec) (now : ℕ)
      → IsKept row
      → IsKept (updated_row w row spec now)
  unfolding updated_row
  updated_row-IsKept row spec now v =
      let retimed =
        not (str_eq spec.cadence row.spec.cadence && str_eq spec.timezone row.spec.timezone) in
      let re_enabled = spec.enabled && not row.spec.enabled in
      let changed = apply w row spec in
      let r = retimed_row w changed retimed re_enabled now in
      let same = retimed_row-rest changed retimed re_enabled now in
      let armed : IsArmed r = retimed_row-IsArmed changed retimed re_enabled now kept_cadence in
      let kept = cleared-IsKept row r spec v (unfold apply in same) armed in
      record {
        armed = kept.armed;
        counted = kept.counted;
        backing_off = kept.backing_off;
        firing = kept.firing;
        capped = kept.capped;
      }
    where
      kept_cadence :
          not (str_eq spec.cadence row.spec.cadence && str_eq spec.timezone row.spec.timezone)
            ≡ false
          → IsArmed (apply w row spec)
      kept_cadence same =
          unfold apply in ground (arith, eq_iff spec.cadence row.spec.cadence, v.armed)
