-- ===== src/Limiter/Window.antt =====
-- How many requests a window of time lets through.
use agent_runs.Base.{
  ℕ, zero, suc, ◌+◌, ◌-◌, ◌*◌, ◌≤◌, ◌≡◌, max, true, false, Option, none, some, List, [], ◌∷◌, arith,
  inl, inr, ◌⊎◌, if◌then◌else◌,
}
use agent_runs.Limiter.{TenantRateLimiter, tolerance, due, take_request}

-- How many of the requests at these instants are allowed.
abbrev pub allowed_count : TenantRateLimiter → List ℕ → Option ℕ → ℕ
allowed_count l [] tat = 0
allowed_count l (now ∷ rest) tat =
    let taken = take_request l now tat in
    (if taken.0.allowed then 1 else 0) + allowed_count l rest taken.1

-- The instants come one after the other, from the first on and until the last.
abbrev pub IsWindow : ℕ → ℕ → List ℕ → Type 0
IsWindow from to [] = from ≤ to
IsWindow from to (now ∷ rest) = (from ≤ now) × IsWindow now to rest

window_le : (from to : ℕ) (times : List ℕ) → IsWindow from to times → from ≤ to
window_le from to [] w = w
window_le from to (now ∷ rest) w = omega (arith, w.0, window_le now to rest w.1)

abbrev tat_of : Option ℕ → ℕ
tat_of none = 0
tat_of (some tat) = tat

-- What one request does to the row.
step_lem :
    (l : TenantRateLimiter) (now : ℕ) (tat : Option ℕ)
    → (((take_request l now tat).0.allowed ≡ true)
        × (tat_of (take_request l now tat).1 ≡ max (tat_of tat) now + l.interval)
        × (max (tat_of tat) now ≤ now + tolerance l))
      ⊎ (((take_request l now tat).0.allowed ≡ false)
          × (tat_of (take_request l now tat).1 ≡ tat_of tat))
unfolding take_request due
step_lem l now none = ground arith
step_lem l now (some tat) = ground arith

bound_lem :
    (l : TenantRateLimiter) (from to : ℕ) (times : List ℕ) (tat : Option ℕ)
    → IsWindow from to times
    → allowed_count l times tat * l.interval + max (tat_of tat) from
      ≤ max (tat_of tat) (to + (tolerance l + l.interval))
bound_lem l from to [] tat w = omega (arith, w)
bound_lem l from to (now ∷ rest) tat w =
    let rest_le = bound_lem l now to rest (take_request l now tat).1 w.1 in
    let le = window_le now to rest w.1 in
    let more : (1 + allowed_count l rest (take_request l now tat).1) * l.interval
        ≡ l.interval + allowed_count l rest (take_request l now tat).1 * l.interval =
      grind arith in
    elim (step_lem l now tat) [
      | inl (passes, next, room) ↦ rw passes (omega (arith, w.0))
      | inr (stays, same) ↦ rw stays (omega (arith, w.0))
    ]

-- A tenant that starts with a full budget of at least one request has at most its burst let through,
-- and one more for each interval of the window: however its requests fall between two instants, those
-- allowed take no more time than the window and a burst of intervals.
pub window_bound :
    (l : TenantRateLimiter) (from to : ℕ) (times : List ℕ)
    → 1 ≤ l.burst
    → IsWindow from to times
    → allowed_count l times none * l.interval ≤ (to - from) + l.interval * l.burst
window_bound l from to times some_burst w =
    let whole : tolerance l + l.interval ≡ l.interval * l.burst =
      burst_lem l.interval l.burst some_burst in
    omega (arith, bound_lem l from to times none w, window_le from to times w)
  where
    burst_lem : (i b : ℕ) → 1 ≤ b → i * (b - 1) + i ≡ i * b
    burst_lem i zero p = absurd (omega arith)
    burst_lem i (suc n) p = let e : suc n - 1 ≡ n = omega arith in rw e (grind arith)
