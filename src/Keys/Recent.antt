-- ===== src/Keys/Recent.antt =====
-- No answer is older than its time to live, and the cache is bounded.
use mathlib.Core.List.{Memᴰ}
use agent_runs.Base.{
  ℕ, ◌+◌, ◌≤◌, ◌<◌, String, ◌≡◌, ◌≢◌, ◌⊎◌, false, Option, none, List, All, length, Result, ok, err,
  unavailable,
}
use agent_runs.Answering.{KeyInfo}
use agent_runs.Keys.{
  Reply, unreachable, replied, introspect, Entry, max_cached_keys, ttl_of, is_success, Asking,
}

-- The registry was asked for the digest, replied the answer, and the answer lives until then.
abbrev pub Told : List Asking → String → Result KeyInfo → ℕ → Type 0
Told log digest answer until =
    (asking : Asking) × Memᴰ asking log
    × (asking.digest ≡ digest)
    × (introspect asking.reply ≡ ok answer)
    × (until ≡ asking.at + ttl_of answer)

abbrev IsTold : List Asking → Entry → Type 0
IsTold log entry = Told log entry.digest entry.answer entry.expires_at

abbrev Kept : List Asking → List Entry → Type 0
Kept log cache = All (IsTold log) cache × (length cache ≤ max_cached_keys)

-- The registry is down: it cannot be reached, or it neither knows nor refuses the key with 401 or 403
-- and fails, or describes no key.
abbrev pub IsDown : Reply → Type 0
IsDown unreachable = Unit
IsDown (replied status described) =
    (status ≢ 401) × (status ≢ 403) × ((is_success status ≡ false) ⊎ (described ≡ none))

-- What one call answers, with the questions asked by then, and the cache it leaves.
abbrev Answered : Option Entry → Reply → String → ℕ → List Asking → Result KeyInfo → Type 0
Answered live reply digest now log answer =
    (live ≡ none) × IsDown reply × (answer ≡ err unavailable)
    ⊎ ((until : ℕ) × (now < until) × Told log digest answer until)
