-- ===== src/Schedule/Cadence.antt =====
-- src/agent_runs/domain/cadence.py: which cadences are taken, and when one fires next. The cron
-- library, the time zones and `str.strip` are given; an instant is a count of microseconds.
use agent_runs.Base.{
  ℕ, suc, zero, ◌-◌, String, Bool, true, false, not, Option, none, some, List, [], ◌∷◌, str_eq, ltb,
  if◌then◌else◌, Result, ok, err, unprocessable, internal, raise_if, ◌>>=◌, ◌>>◌,
}
use agent_runs.Retry.{hours}

-- `croniter` and what it is called through: whether a text is a cron expression; its next occurrence in
-- UTC strictly after an instant, `none` where it raises because the expression has no date; the next
-- occurrence strictly after an instant in a zone, of a cadence that was validated and so has dates; and
-- the text without its outer blanks.
pub record Cron : Type 0 where
  pub is_valid : String → Bool
  pub probe : String → ℕ → Option ℕ
  pub next_occurrence : String → ℕ → String → ℕ
  pub strip : String → String

-- `BUCKETS`
abbrev pub buckets : List (String × Option String)
buckets =
    ("hourly", some "0 * * * *")
    ∷ ("daily", some "0 0 * * *")
    ∷ ("weekly", some "0 0 * * 1")
    ∷ ("weekdays", some "0 0 * * 1-5")
    ∷ ("manual", none)
    ∷ []

-- `BUCKETS.get(cadence, cadence)`
unfoldable pub looked_up : List (String × Option String) → String → Option String
looked_up [] cadence = some cadence
looked_up (bucket ∷ rest) cadence =
    let later = looked_up rest cadence in if str_eq bucket.0 cadence then bucket.1 else later

-- `normalized in BUCKETS`
unfoldable pub is_bucket : List (String × Option String) → String → Bool
is_bucket [] cadence = false
is_bucket (bucket ∷ rest) cadence =
    let later = is_bucket rest cadence in if str_eq bucket.0 cadence then true else later

-- `MIN_INTERVAL`
abbrev pub min_interval : ℕ
min_interval = hours 1

-- `_PROBE_COUNT`
abbrev pub probe_count : ℕ
probe_count = 8

-- `get_next`, or the error it raises.
unfoldable pub get_next : Cron → String → ℕ → Result ℕ
get_next cron expression from = elim (cron.probe expression from) [
  | none ↦ err internal
  | some at ↦ ok at
]

-- Consecutive occurrences from an instant on.
unfoldable pub occurrences : Cron → String → ℕ → ℕ → Result (List ℕ)
unfolding get_next
occurrences cron expression zero from = ok []
occurrences cron expression (suc n) from = do
  next ← get_next cron expression from
  later ← occurrences cron expression n next
  ok (next ∷ later)

-- `interval < MIN_INTERVAL`, over the pairs of neighbours.
unfoldable pub too_often : List ℕ → Bool
too_often [] = false
too_often (first ∷ rest) = elim rest [
  | [] ↦ false
  | second ∷ more ↦
      let later = too_often rest in if ltb (second - first) min_interval then true else later
]

-- `validate_cadence`; `probe_from` is the instant of `_PROBE_FROM`.
unfoldable pub validate_cadence : Cron → ℕ → String → Result String
unfolding is_bucket occurrences too_often
validate_cadence cron probe_from cadence =
    let normalized = cron.strip cadence in
    if is_bucket buckets normalized
    then ok normalized
    else if not (cron.is_valid normalized)
    then err unprocessable
    else do
      times ← occurrences cron normalized probe_count probe_from
      raise_if (too_often times) unprocessable
      ok normalized

-- `next_fire_at`
unfoldable pub next_fire_at : Cron → String → ℕ → String → Option ℕ
unfolding looked_up
next_fire_at cron cadence after timezone = elim (looked_up buckets cadence) [
  | none ↦ none
  | some expression ↦ some (cron.next_occurrence expression after timezone)
]
