-- ===== src/Keys.antt =====
-- `KeyRegistry` of src/agent_runs/keys.py: the answers of the key registry, cached by the digest of a
-- key. What the registry replies is given; an instant is a count of microseconds of the clock.
pub mod Recent
use agent_runs.Base.{
  ℕ, ◌+◌, String, Bool, true, false, not, ◌&&◌, ◌||◌, Option, none, some, List, [], ◌∷◌, ◌++◌,
  str_eq, ltb, leb, ◌==◌, length, select, find_first, if◌then◌else◌, Result, ok, err, unauthorized,
  forbidden, unavailable,
}
use agent_runs.Retry.{seconds}
use agent_runs.Answering.{KeyInfo}

-- `KEY_CACHE_SECONDS`
abbrev pub key_cache : ℕ
key_cache = seconds 60

-- `KEY_NEGATIVE_CACHE_SECONDS`
abbrev pub key_negative_cache : ℕ
key_negative_cache = seconds 10

abbrev pub max_cached_keys : ℕ
max_cached_keys = 10000

-- What the registry replies: nothing, or a status with the key its body describes, if it does.
pub data Reply : Type 0 where
  unreachable : Reply
  replied : ℕ → Option KeyInfo → Reply

abbrev pub is_success : ℕ → Bool
is_success status = leb 200 status && leb status 299

-- `_introspect`: an answer that is kept, an identity or a refusal, or the error that is raised.
unfoldable pub introspect : Reply → Result (Result KeyInfo)
introspect unreachable = err unavailable
introspect (replied status described) =
    if status == 401
    then ok (err unauthorized)
    else if status == 403
    then ok (err forbidden)
    else if not (is_success status)
    then err unavailable
    else elim described [ none ↦ err unavailable | some info ↦ ok (ok info) ]

-- An entry of `_cache`.
pub record Entry : Type 0 where
  pub digest : String
  pub expires_at : ℕ
  pub answer : Result KeyInfo

abbrev pub ttl_of : Result KeyInfo → ℕ
ttl_of (ok info) = key_cache
ttl_of (err refusal) = key_negative_cache

abbrev pub is_entry : String → Entry → Bool
is_entry digest entry = str_eq entry.digest digest

-- An entry put, or moved, to the end of the cache.
unfoldable pub put_last : Entry → List Entry → List Entry
put_last entry cache = select (λ e. not (is_entry entry.digest e)) cache ++ (entry ∷ [])

-- The oldest entries go while there are too many.
unfoldable pub evicted : ℕ → List Entry → List Entry
evicted most [] = []
evicted most (entry ∷ cache) =
    let rest = evicted most cache in
    if ltb most (length (entry ∷ cache)) then rest else entry ∷ cache

-- The entry that still answers.
unfoldable pub live_entry : String → ℕ → List Entry → Option Entry
live_entry digest now cache = elim (find_first (is_entry digest) cache) [
  | none ↦ none
  | some entry ↦ if ltb now entry.expires_at then some entry else none
]

-- A reply taken in.
unfoldable pub taken_in :
    String → ℕ → Result (Result KeyInfo) → List Entry → Result KeyInfo × List Entry
unfolding put_last evicted
taken_in digest now (err why) cache = (err why, cache)
taken_in digest now (ok answer) cache = (
  answer,
  evicted max_cached_keys (
      put_last (record { digest = digest; expires_at = now + ttl_of answer; answer = answer })
        cache),
)

-- What a call answers by the entry that is live, or else by asking the registry.
unfoldable pub resolve_by :
    Option Entry → String → ℕ → Reply → List Entry → Result KeyInfo × List Entry
unfolding introspect put_last taken_in
resolve_by (some entry) digest now reply cache = (entry.answer, put_last entry cache)
resolve_by none digest now reply cache = taken_in digest now (introspect reply) cache

-- `KeyRegistry.resolve`
unfoldable pub resolve : String → ℕ → Reply → List Entry → Result KeyInfo × List Entry
unfolding live_entry resolve_by
resolve digest now reply cache = resolve_by (live_entry digest now cache) digest now reply cache

-- A question the registry was asked, and its reply.
pub record Asking : Type 0 where
  pub digest : String
  pub at : ℕ
  pub reply : Reply

-- The questions asked, after one more call.
unfoldable pub asked_by : Option Entry → String → ℕ → Reply → List Asking → List Asking
asked_by (some entry) digest now reply log = log
asked_by none digest now reply log = record { digest = digest; at = now; reply = reply } ∷ log

abbrev pub asked : String → ℕ → Reply → List Entry → List Asking → List Asking
asked digest now reply cache log = asked_by (live_entry digest now cache) digest now reply log

-- The caches that calls lead to from an empty one, with the questions the calls asked.
pub data Called : List Asking → List Entry → Type 0 where
  uncalled : Called [] []
  called :
      {log : List Asking} {cache : List Entry} (digest : String) (now : ℕ) (reply : Reply)
      → Called log cache
      → Called (asked digest now reply cache log) (resolve digest now reply cache).1
