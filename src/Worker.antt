-- ===== src/Worker.antt =====
-- The worker of sdk/python/src/trellis/runs/worker.py: one attempt at a claimed run as a state machine,
-- the handler and the heartbeats interleaved in any order.
pub mod Attempts
use agent_runs.Base.{
  ℕ, ◌+◌, ◌-◌, ◌*◌, ◌/◌, ◌^◌, min, max, String, Bool, true, false, not, ◌&&◌, ◌||◌, Option, none,
  some, List, [], ◌∷◌, ltb, leb, holds, is_some, if◌then◌else◌, ServiceError,
}
use agent_runs.Retry.{seconds}
use agent_runs.Run.Status.{RunStatus, error, timeout, cancelled}

-- `WORKING_TIME_GRACE_SECONDS`
abbrev pub working_time_grace : ℕ
working_time_grace = seconds 1

abbrev pub idle_least : ℕ
idle_least = 500000

abbrev pub idle_most : ℕ
idle_most = seconds 10

-- `Lease`, as the worker reads it.
pub record Lease : Type 0 where
  pub remaining_seconds : Option ℕ
  pub cancel_requested : Bool

-- `_Renewed`, with the wall of the working time: when the handler is stopped, if it has a limit.
pub record Job : Type 0 where
  pub lease : Lease
  pub renewed_at : ℕ
  pub stop_at : Option ℕ

-- `remaining_seconds`
unfoldable pub remaining : Job → ℕ → Option ℕ
remaining job now = elim job.lease.remaining_seconds [
  | none ↦ none
  | some left ↦ some (left - (now - job.renewed_at))
]

-- How the handler's task ended; `was_cancelled` is `execution.cancelled()`.
pub data Outcome : Type 0 where
  returned was_cancelled lost_its_lease raised : Outcome

-- What a heartbeat is answered.
pub data Answer : Type 0 where
  renewed : Lease → Answer
  lease_gone no_answer : Answer

-- What happens to an attempt, at an instant of the worker's clock: a lease taken in from the claim or a
-- checkpoint, a heartbeat, the end of the working time, the end of the handler.
pub data Event : Type 0 where
  received : ℕ → Lease → Event
  beat : ℕ → Answer → Event
  expires : ℕ → Event
  settles : Outcome → Event

-- One attempt: the handler works until it settles, the heartbeats stop when they told it to, and the
-- worker may have sent an ending.
pub record Attempt : Type 0 where
  pub job : Job
  pub working : Bool
  pub told : Bool
  pub beating : Bool
  pub expired : Bool
  pub sent : Option RunStatus

-- `_execute`, up to the wait for the handler.
unfoldable pub begin : ℕ → Lease → Attempt
begin now lease = record {
  job = record {
    lease = lease;
    renewed_at = now;
    stop_at = elim lease.remaining_seconds [
      | none ↦ none
      | some left ↦ some (now + (left + working_time_grace))
    ];
  };
  working = true;
  told = false;
  beating = true;
  expired = false;
  sent = none;
}

-- `_renew`
unfoldable pub renew : Attempt → ℕ → Lease → Attempt
renew a now lease = record a { job = record a.job { lease = lease; renewed_at = now } }

-- The handler is cancelled and the heartbeats end.
unfoldable pub stopped_beating : Attempt → Attempt
stopped_beating a = record a { told = true; beating = false }

-- One round of `_heartbeat`.
unfoldable pub heard : ℕ → Attempt → ℕ → Answer → Attempt
unfolding renew stopped_beating
heard lease_seconds a now (renewed lease) =
    if lease.cancel_requested then stopped_beating (renew a now lease) else renew a now lease
heard lease_seconds a now lease_gone = stopped_beating a
heard lease_seconds a now no_answer =
    if leb (a.job.renewed_at + lease_seconds) now then stopped_beating a else a

-- The ending `_execute` sends for a handler that settled, if any.
unfoldable pub ending_of : Outcome → Bool → Bool → Option RunStatus
ending_of returned expired cancel_requested = none
ending_of was_cancelled expired cancel_requested =
    if expired then some timeout else if cancel_requested then some cancelled else none
ending_of lost_its_lease expired cancel_requested = none
ending_of raised expired cancel_requested = if expired then some timeout else some error

-- What an event does to an attempt whose handler works; the timeout fires once its instant has come.
unfoldable pub happened : ℕ → Attempt → Event → Attempt
unfolding renew heard ending_of
happened lease_seconds a (received now lease) = renew a now lease
happened lease_seconds a (beat now answer) =
    if a.beating then heard lease_seconds a now answer else a
happened lease_seconds a (expires now) =
    if holds a.job.stop_at (λ at. leb at now) then record a { told = true; expired = true } else a
happened lease_seconds a (settles outcome) = record a {
  working = false;
  beating = false;
  sent = ending_of outcome a.expired a.job.lease.cancel_requested;
}

-- After the handler settled nothing happens to the attempt.
unfoldable pub step : ℕ → Attempt → Event → Attempt
unfolding happened
step lease_seconds a event = if a.working then happened lease_seconds a event else a

-- The attempts that a claim's lease and then the events, the latest first, lead to.
pub data Ran (lease_seconds : ℕ) : List Event → Attempt → Type 0 where
  begun : (now : ℕ) (lease : Lease) → Ran lease_seconds (received now lease ∷ []) (begin now lease)
  next :
      {events : List Event} {a : Attempt} (event : Event)
      → Ran lease_seconds events a
      → Ran lease_seconds (event ∷ events) (step lease_seconds a event)

-- `MAX_DEFAULT_CONCURRENCY`
abbrev pub max_default_concurrency : ℕ
max_default_concurrency = 8

-- `default_concurrency`, of the count of processors where it is known.
unfoldable pub default_concurrency : Option ℕ → ℕ
default_concurrency none = 1
default_concurrency (some cpus) = max 1 (min max_default_concurrency (max 1 cpus))

-- The ceiling of the wait after an empty round; the wait is half of it and a random part of the rest.
unfoldable pub idle_ceiling : ℕ → ℕ
idle_ceiling rounds = min idle_most (idle_least * 2 ^ min (rounds - 1) 16)
