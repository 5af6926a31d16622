-- ===== src/Worker/Attempts.antt =====
-- Why a worker ends a run of its own accord.
use mathlib.Core.Path.{subst, sym}
use mathlib.Core.List.{Memᴰ}
use agent_runs.Base.{
  ℕ, ◌+◌, ◌≤◌, ◌≡◌, Bool, true, false, Option, none, some, List, [], ◌∷◌, arith, refl, leb, holds,
  if◌then◌else◌, Bool-cases, Option-cases, inl, inr, last_of,
}
use agent_runs.Run.Status.{RunStatus, error, timeout, cancelled}
use agent_runs.Worker.{
  Lease, working_time_grace, Outcome, returned, was_cancelled, lost_its_lease, raised, Answer,
  renewed, lease_gone, no_answer, Event, received, beat, expires, settles, Attempt, begin, renew,
  stopped_beating, heard, ending_of, happened, step, Ran, begun, next,
}

-- The lease an event brings.
abbrev pub lease_in : Event → Option Lease
lease_in (received now lease) = some lease
lease_in (beat now (renewed lease)) = some lease
lease_in _ = none

-- Somebody asked to cancel the run, as a lease said.
pub data Asked (events : List Event) : Type 0 where
  asked :
      (event : Event) (lease : Lease)
      → Memᴰ event events
      → lease_in event ≡ some lease
      → lease.cancel_requested ≡ true
      → Asked events

-- The lease of the claim, which the first event brought, left the run working time, which is over, with
-- its grace, at an instant.
pub data Limited (events : List Event) (stop_at : ℕ) : Type 0 where
  limited :
      (at : ℕ) (lease : Lease) (left : ℕ)
      → last_of events ≡ some (received at lease)
      → lease.remaining_seconds ≡ some left
      → stop_at ≡ at + (left + working_time_grace)
      → Limited events stop_at

-- That instant had come.
pub data TimedOut (events : List Event) : Type 0 where
  timed_out :
      (now stop_at : ℕ)
      → Limited events stop_at
      → stop_at ≤ now
      → Memᴰ (expires now) events
      → TimedOut events

-- Why an ending is right.
pub data IsJustified (events : List Event) : RunStatus → Type 0 where
  by_cancel : Asked events → IsJustified events cancelled
  by_time : TimedOut events → IsJustified events timeout
  by_error : Memᴰ (settles raised) events → IsJustified events error

later-Asked : {events : List Event} (event : Event) → Asked events → Asked (event ∷ events)
later-Asked event (asked e lease m said asks) = asked e lease (Memᴰ.tail m) said asks

last_of-later :
    (event : Event) (events : List Event) {first : Event}
    → last_of events ≡ some first
    → last_of (event ∷ events) ≡ some first
last_of-later event [] e = absurd (ground arith)
last_of-later event (x ∷ xs) e = ground (arith, e)

later-Limited :
    {events : List Event} (event : Event) {stop_at : ℕ}
    → Limited events stop_at
    → Limited (event ∷ events) stop_at
later-Limited {events} event (limited at lease left m r e) =
    limited at lease left (last_of-later event events m) r e

later-TimedOut : {events : List Event} (event : Event) → TimedOut events → TimedOut (event ∷ events)
later-TimedOut event (timed_out now stop_at l e m) =
    timed_out now stop_at (later-Limited event l) e (Memᴰ.tail m)

later-IsJustified :
    {events : List Event} (event : Event) {status : RunStatus}
    → IsJustified events status
    → IsJustified (event ∷ events) status
later-IsJustified event (by_cancel a) = by_cancel (later-Asked event a)
later-IsJustified event (by_time t) = by_time (later-TimedOut event t)
later-IsJustified event (by_error m) = by_error (Memᴰ.tail m)

-- What holds of an attempt after some events.
record IsFounded (events : List Event) (a : Attempt) : Type 0 where
  pub asks : a.job.lease.cancel_requested ≡ true → Asked events
  pub wall : (t : ℕ) → a.job.stop_at ≡ some t → Limited events t
  pub over : a.expired ≡ true → TimedOut events
  pub right : (status : RunStatus) → a.sent ≡ some status → IsJustified events status

later-IsFounded :
    {events : List Event} {a : Attempt} (event : Event)
    → IsFounded events a
    → IsFounded (event ∷ events) a
later-IsFounded event v = record {
  asks = λ e. later-Asked event (v.asks e);
  wall = λ t e. later-Limited event (v.wall t e);
  over = λ e. later-TimedOut event (v.over e);
  right = λ status e. later-IsJustified event (v.right status e);
}

renew-IsFounded :
    {events : List Event} (a : Attempt) (now : ℕ) (lease : Lease) (event : Event)
    → lease_in event ≡ some lease
    → IsFounded events a
    → IsFounded (event ∷ events) (renew a now lease)
unfolding renew
renew-IsFounded a now lease event brings v = record {
  asks = λ e. asked event lease (Memᴰ.head refl) brings e;
  wall = λ t e. later-Limited event (v.wall t e);
  over = λ e. later-TimedOut event (v.over e);
  right = λ status e. later-IsJustified event (v.right status e);
}

stopped-IsFounded :
    {events : List Event} (a : Attempt) → IsFounded events a → IsFounded events (stopped_beating a)
unfolding stopped_beating
stopped-IsFounded a v = record { asks = v.asks; wall = v.wall; over = v.over; right = v.right }

ending-IsJustified :
    {events : List Event} (a : Attempt) (outcome : Outcome) (status : RunStatus)
    → IsFounded events a
    → ending_of outcome a.expired a.job.lease.cancel_requested ≡ some status
    → IsJustified (settles outcome ∷ events) status
unfolding ending_of
ending-IsJustified a returned status v e = absurd (ground arith)
ending-IsJustified a lost_its_lease status v e = absurd (ground arith)
ending-IsJustified {events} a was_cancelled status v e = elim (Bool-cases a.expired) [
  | inl late ↦
      let same : timeout ≡ status = ground (arith, late) in
      subst (IsJustified (settles was_cancelled ∷ events)) same
        (by_time (later-TimedOut _ (v.over late)))
  | inr early ↦ elim (Bool-cases a.job.lease.cancel_requested) [
    | inl asks ↦
        let same : cancelled ≡ status = ground (arith, early, asks) in
        subst (IsJustified (settles was_cancelled ∷ events)) same
          (by_cancel (later-Asked _ (v.asks asks)))
    | inr quiet ↦ absurd (ground (arith, early, quiet))
  ]
]
ending-IsJustified {events} a raised status v e = elim (Bool-cases a.expired) [
  | inl late ↦
      let same : timeout ≡ status = ground (arith, late) in
      subst (IsJustified (settles raised ∷ events)) same (by_time (later-TimedOut _ (v.over late)))
  | inr early ↦
      let same : error ≡ status = ground (arith, early) in
      subst (IsJustified (settles raised ∷ events)) same (by_error (Memᴰ.head refl))
]

either-IsFounded :
    {events : List Event} (test : Bool) (a b : Attempt)
    → IsFounded events a
    → IsFounded events b
    → IsFounded events (if test then a else b)
either-IsFounded true a b v w = v
either-IsFounded false a b v w = w

heard-IsFounded :
    {events : List Event} (lease_seconds : ℕ) (a : Attempt) (now : ℕ) (answer : Answer)
    → IsFounded events a
    → IsFounded (beat now answer ∷ events) (heard lease_seconds a now answer)
unfolding heard
heard-IsFounded lease_seconds a now (renewed lease) v =
    let kept = renew-IsFounded a now lease (beat now (renewed lease)) refl v in
    either-IsFounded lease.cancel_requested (stopped_beating (renew a now lease))
      (renew a now lease) (stopped-IsFounded (renew a now lease) kept) kept
heard-IsFounded lease_seconds a now lease_gone v = stopped-IsFounded a (later-IsFounded _ v)
heard-IsFounded lease_seconds a now no_answer v =
    elim (Bool-cases (leb (a.job.renewed_at + lease_seconds) now)) [
      | inl t ↦ rw t (stopped-IsFounded a (later-IsFounded _ v))
      | inr f ↦ rw f (later-IsFounded _ v)
    ]

expired-IsFounded :
    {events : List Event} (a : Attempt) (now stop_at : ℕ)
    → a.job.stop_at ≡ some stop_at
    → stop_at ≤ now
    → IsFounded events a
    → IsFounded (expires now ∷ events) (record a { told = true; expired = true })
expired-IsFounded a now stop_at armed past v = record {
  asks = λ e. later-Asked (expires now) (v.asks e);
  wall = λ t e. later-Limited (expires now) (v.wall t e);
  over = λ e.
      timed_out now stop_at (later-Limited (expires now) (v.wall stop_at armed)) past
        (Memᴰ.head refl);
  right = λ status e. later-IsJustified (expires now) (v.right status e);
}

holds-some :
    (o : Option ℕ) (now : ℕ)
    → holds o (λ at. leb at now) ≡ true
    → (t : ℕ) × (o ≡ some t) × (t ≤ now)
holds-some none now e = absurd (ground arith)
holds-some (some t) now e = (t, refl, ground arith)

happened-IsFounded :
    {events : List Event} (lease_seconds : ℕ) (a : Attempt) (event : Event)
    → IsFounded events a
    → IsFounded (event ∷ events) (happened lease_seconds a event)
unfolding happened
happened-IsFounded lease_seconds a (received now lease) v =
    renew-IsFounded a now lease (received now lease) refl v
happened-IsFounded lease_seconds a (beat now answer) v =
    either-IsFounded a.beating (heard lease_seconds a now answer) a
      (heard-IsFounded lease_seconds a now answer v) (later-IsFounded _ v)
happened-IsFounded {events} lease_seconds a (expires now) v =
    elim (Bool-cases (holds a.job.stop_at (λ at. leb at now))) [
      | inl past ↦
          let (t, armed, come) = holds-some a.job.stop_at now past in
          subst
            (λ b.
              IsFounded (expires now ∷ events)
                (if b then record a { told = true; expired = true } else a))
            (sym past) (expired-IsFounded a now t armed come v)
      | inr early ↦
          subst
            (λ b.
              IsFounded (expires now ∷ events)
                (if b then record a { told = true; expired = true } else a))
            (sym early) (later-IsFounded _ v)
    ]
happened-IsFounded lease_seconds a (settles outcome) v = record {
  asks = λ e. later-Asked (settles outcome) (v.asks e);
  wall = λ t e. later-Limited (settles outcome) (v.wall t e);
  over = λ e. later-TimedOut (settles outcome) (v.over e);
  right = λ status e. ending-IsJustified a outcome status v e;
}

begin-IsFounded : (now : ℕ) (lease : Lease) → IsFounded (received now lease ∷ []) (begin now lease)
unfolding begin
begin-IsFounded now lease = record {
  asks = λ e. asked (received now lease) lease (Memᴰ.head refl) refl e;
  wall = λ t e. elim (Option-cases lease.remaining_seconds) [
    | inl unlimited ↦ absurd (ground (arith, unlimited))
    | inr (left, has) ↦ limited now lease left refl has (ground (arith, has))
  ];
  over = λ e. absurd (ground arith);
  right = λ status e. absurd (ground arith);
}

Ran-IsFounded :
    (lease_seconds : ℕ) (events : List Event) (a : Attempt)
    → Ran lease_seconds events a
    → IsFounded events a
unfolding step
Ran-IsFounded lease_seconds events a (begun now lease) = begin-IsFounded now lease
Ran-IsFounded lease_seconds events a (next {events = earlier} {a = b} event before) =
    let v = Ran-IsFounded lease_seconds earlier b before in
    either-IsFounded b.working (happened lease_seconds b event) b
      (happened-IsFounded lease_seconds b event v) (later-IsFounded event v)

-- However heartbeats, checkpoints, the end of the working time and the handler's end interleave, a worker
-- ends a run of its own accord only for a reason: CANCELLED where a lease it was given said that someone
-- asked for it, TIMEOUT where the working time that the claim's own lease left, and its grace, were over on its clock
-- since that claim, whatever later leases said, and
-- ERROR where the handler raised.
pub sent-IsJustified :
    (lease_seconds : ℕ) (events : List Event) (a : Attempt) (status : RunStatus)
    → Ran lease_seconds events a
    → a.sent ≡ some status
    → IsJustified events status
sent-IsJustified lease_seconds events a status ran e =
    (Ran-IsFounded lease_seconds events a ran).right status e
