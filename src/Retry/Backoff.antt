-- ===== src/Retry/Backoff.antt =====
-- What the backoff and its jitter promise.
use mathlib.Core.Path.{subst}
use native.Mathlib.Nat.{pow-suc, div-add-mod}
use agent_runs.Base.{
  dec_lt, ℕ, zero, suc, ◌+◌, ◌-◌, ◌*◌, ◌/◌, ◌%◌, ◌^◌, ◌≤◌, ◌<◌, ◌≡◌, min, arith, ltb, ◌==◌, ◌&&◌,
  ◌||◌, ◌↔◌, refl, some, none, leb, if◌then◌else◌,
}
use agent_runs.Retry.{minutes, max_timedelta, backoff, divide_nearest, jittered}

doubled : (base n : ℕ) → base * 2 ^ suc n ≡ 2 * (base * 2 ^ n)
doubled base n = simp pow-suc (grind arith)

mul_mono : (b q h : ℕ) → h ≤ q → h * b ≤ b * q
mul_mono b q h le = grind arith

power_positive : (n : ℕ) → 1 ≤ 2 ^ n
power_positive zero = omega arith
power_positive (suc n) = rw (pow-suc 2 n) (omega (arith, power_positive n))

power_rises : (n k : ℕ) → 2 ^ n ≤ 2 ^ (n + k)
power_rises n zero = let e : n + 0 ≡ n = omega arith in rw e (omega arith)
power_rises n (suc k) =
    let e : n + suc k ≡ suc (n + k) = omega arith in
    rw (e, pow-suc 2 (n + k)) (omega (arith, power_rises n k))

power_few : (n : ℕ) → n ≤ 7 → 2 ^ n ≤ 128
power_few n few =
    let e : n + (7 - n) ≡ 7 = omega arith in
    let up : 2 ^ n ≤ 2 ^ 7 = subst (λ m. 2 ^ n ≤ 2 ^ m) e (power_rises n (7 - n)) in
    omega (arith, up)

backoff-suc :
    (base cap n : ℕ)
    → backoff base (suc n) cap
      ≡ (if leb (base * 2 ^ n) max_timedelta then some (min (base * 2 ^ n) cap) else none)
unfolding backoff
backoff-suc base cap n = let e : suc n - 1 ≡ n = omega arith in rw e refl

backoff-fits :
    (base cap n : ℕ)
    → base * 2 ^ n ≤ max_timedelta
    → backoff base (suc n) cap ≡ some (min (base * 2 ^ n) cap)
backoff-fits base cap n fits = rw (backoff-suc base cap n) (ground (arith, fits))

-- While the next product still is a `timedelta`, the wait is there, never passes the cap, never shrinks
-- as failures go on, and doubles with each further failure until the cap is reached; the first one is the
-- base, capped. After any number of failures there is no wait, but an OverflowError, exactly when the
-- product passes the largest `timedelta`.
pub backoff_lem :
    (base cap n m : ℕ)
    → base * 2 ^ suc n ≤ max_timedelta
    → (wait : ℕ) × (next : ℕ) × (backoff base (suc n) cap ≡ some wait)
      × (backoff base (suc (suc n)) cap ≡ some next)
      × (next ≤ cap)
      × (wait ≤ next)
      × (next ≡ min (2 * wait) cap)
      × (backoff base 1 cap ≡ some (min base cap))
      × ((backoff base (suc m) cap ≡ none) ↔ (max_timedelta < base * 2 ^ m))
backoff_lem base cap n m fits =
    let twice = doubled base n in
    (
      min (base * 2 ^ n) cap,
      min (base * 2 ^ suc n) cap,
      backoff-fits base cap n (omega (arith, twice, fits)),
      backoff-fits base cap (suc n) fits,
      omega arith,
      omega (arith, twice),
      omega (arith, twice),
      first_wait,
      rw (backoff-suc base cap m) (ground arith),
    )
  where
    first_wait : backoff base 1 cap ≡ some (min base cap)
    first_wait = ground (
      arith,
      backoff-suc base cap 0,
      fits,
      doubled base n,
      mul_mono base (2 ^ suc n) 1 (power_positive (suc n)),
    )

-- The service's waits: of a base of at most five minutes, after a few failures, none overflows.
pub backoff_few :
    (base cap n : ℕ)
    → base ≤ minutes 5
    → n ≤ 7
    → backoff base (n + 1) cap ≡ some (min (base * 2 ^ n) cap)
backoff_few base cap n small few =
    let e : n + 1 ≡ suc n = omega arith in
    rw e
      (backoff-fits base cap n (omega (arith, mul_mono base 128 (2 ^ n) (power_few n few), small)))

quotient_le : (q r b h : ℕ) → b * q + r ≤ h * b → r < b → q ≤ h
quotient_le q r b h le lt = elim (dec_lt h q) [
  | yes p ↦ absurd (omega (arith, mul_mono b q (suc h) p))
  | no p ↦ omega arith
]

nearest_case :
    (q r b h : ℕ)
    → b * q + r ≤ h * b
    → r < b
    → (if ltb b (2 * r) || (2 * r == b && q % 2 == 1) then q + 1 else q) ≤ h
nearest_case q r b h le lt = elim (dec_lt q h) [
  | yes p ↦ ground arith
  | no p ↦
      let top : q ≤ h = quotient_le q r b h le lt in
      let e : h * b ≤ b * q = mul_mono b q h (omega arith) in ground arith
]

divide_nearest-le : (a b h : ℕ) → 0 < b → a ≤ h * b → divide_nearest a b ≤ h
unfolding divide_nearest
divide_nearest-le a b h p le =
    nearest_case (a / b) (a % b) b h (omega (arith, div-add-mod a b)) (omega arith)

half_exact : (h : ℕ) → divide_nearest (2 * h) 2 ≡ h
unfolding divide_nearest
half_exact h = ground arith

share : (h draw : ℕ) → draw ≤ 2 ^ 53 → 2 * h * draw ≤ h * 2 ^ 54
share h draw p = omega (arith, mul_mono h (2 ^ 53) draw p)

-- Of a wait of an even number of microseconds, as every wait of whole seconds is, the jittered wait
-- lies in the upper half: at least half of it and at most the whole, whatever was drawn.
pub jittered_bounds :
    (h draw : ℕ) → draw < 2 ^ 53 → (h ≤ jittered (2 * h) draw) × (jittered (2 * h) draw ≤ 2 * h)
unfolding jittered
jittered_bounds h draw p =
    let upper : divide_nearest (2 * h * draw) (2 ^ 54) ≤ h =
      divide_nearest-le (2 * h * draw) (2 ^ 54) h (omega arith) (share h draw (omega arith)) in
    (omega (arith, half_exact h), omega (arith, half_exact h))
