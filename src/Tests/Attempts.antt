-- ===== src/Tests/Attempts.antt =====
-- A worker's attempt: a heartbeat that fails, one that says a cancel was asked for, and the handler's end.
use agent_runs.Base.{ℕ, ◌≡◌, true, false, some, [], ◌∷◌, refl}
use agent_runs.Retry.{seconds}
use agent_runs.Run.Status.{cancelled}
use agent_runs.Worker.{
  Lease, was_cancelled, renewed, no_answer, Event, received, beat, settles, Attempt, begin,
  stopped_beating, renew, heard, ending_of, happened, step, begun, next,
}
use agent_runs.Worker.Attempts.{IsJustified, sent-IsJustified}

abbrev calm : Lease
calm = record { remaining_seconds = some (seconds 600); cancel_requested = false }

abbrev asking : Lease
asking = record { remaining_seconds = some (seconds 550); cancel_requested = true }

abbrev failed : Event
failed = beat (seconds 20) no_answer

abbrev told : Event
told = beat (seconds 40) (renewed asking)

abbrev lease_length : ℕ
lease_length = seconds 60

abbrev last : Attempt
last =
    step lease_length (step lease_length (step lease_length (begin 0 calm) failed) told)
      (settles was_cancelled)

last-sent : last.sent ≡ some cancelled
unfolding step happened heard begin stopped_beating renew ending_of
last-sent = refl

sent-IsJustified_example :
    IsJustified (settles was_cancelled ∷ told ∷ failed ∷ received 0 calm ∷ []) cancelled
sent-IsJustified_example =
    sent-IsJustified lease_length (settles was_cancelled ∷ told ∷ failed ∷ received 0 calm ∷ [])
      last cancelled (next (settles was_cancelled) (next told (next failed (begun 0 calm))))
      last-sent
