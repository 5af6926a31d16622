-- ===== src/Sender.antt =====
-- Sending webhook deliveries: `WebhookSender` of src/agent_runs/webhooks.py, with the guard of
-- src/agent_runs/egress.py against a subscription that points the service at its own network. The
-- resolver, the HTTP client, the clock, the digest and the JSON encoder are given.
pub mod Checked
use agent_runs.Base.{
  ℕ, String, Bool, true, false, not, ◌&&◌, ◌||◌, Option, none, some, List, [], ◌∷◌, ◌++◌, map,
  contains, leb, ◌==◌, if◌then◌else◌,
}
use agent_runs.Keys.{is_success}
use agent_runs.Outbox.{Delivery, Attempt}
use agent_runs.Signing.{Text, sign}

-- An address as `ipaddress` describes it: `str(address)`, `is_global` and `is_multicast`.
pub record Address : Type 0 where
  pub spelled : String
  pub is_global : Bool
  pub is_multicast : Bool

-- `ip_address(sockaddr[0])`; an IPv6 address may have an IPv4 address mapped into it.
pub data Resolved : Type 0 where
  ipv4 : Address → Resolved
  ipv6 : Address → Option Address → Resolved

-- The address that is judged: a mapped one as itself.
unfoldable pub judged : Resolved → Address
judged (ipv4 address) = address
judged (ipv6 address none) = address
judged (ipv6 address (some mapped)) = mapped

-- The test of `public_addresses`: a global unicast address.
unfoldable pub is_public : Address → Bool
is_public address = not (not address.is_global || address.is_multicast)

-- Why an attempt failed, with what its message names.
pub data Failure : Type 0 where
  refused_scheme : Failure
  unresolved : String → Failure
  not_public : String → String → Failure
  unreachable : String → Failure
  answered : ℕ → Failure

-- How a request of the HTTP client ended: an answer's status, a connection that was refused or timed
-- out, or any other `HTTPError`.
pub data Sent : Type 0 where
  response : ℕ → Sent
  not_connected : String → Sent
  broken : String → Sent

-- `Target`: where one attempt connects, and what its request carries to name the host there: headers,
-- and the one extension the code sets, `sni_hostname`.
pub record Target : Type 0 where
  pub url : String
  pub headers : List (String × String)
  pub sni_hostname : Option String

-- The body and the headers of an attempt.
pub record Letter : Type 0 where
  pub body : Text
  pub event : String
  pub delivery : String
  pub signature : Text

-- What the resolver answers: addresses, or an `OSError` with its text.
pub data Lookup : Type 0 where
  addresses : List Resolved → Lookup
  os_error : String → Lookup

-- What the code calls: `urlparse`, `getaddrinfo`, the URLs of the HTTP library by their text (one with
-- another host, its `netloc` and its `host`), the HTTP client, `json`, the digest, and how a failure is
-- put into words.
pub record Network : Type 0 where
  pub scheme_of : String → String
  pub host_of : String → Option String
  pub getaddrinfo : String → Lookup
  pub with_host : String → String → String
  pub netloc : String → String
  pub host : String → String
  pub request : Target → Letter → Sent
  pub encoded : String → Text
  pub type_of : String → String
  pub event_id_of : String → String
  pub mac : String → Text → Text
  pub in_words : Failure → String

-- The outcome of `public_addresses`, or of `_targets`: the list or the exception.
pub data Found (A : Type 0) : Type 0 where
  found : List A → Found A
  no_host : String → Found A
  refused : String → String → Found A

-- The loop of `public_addresses`, with the addresses kept so far.
unfoldable pub check_all : String → List String → List Resolved → Found String
unfolding judged is_public
check_all host kept [] = found kept
check_all host kept (r ∷ rs) =
    let address = judged r in
    let rest =
      check_all host
        (if contains address.spelled kept then kept else kept ++ (address.spelled ∷ [])) rs in
    if is_public address then rest else refused host address.spelled

unfoldable pub host_or_empty : Option String → String
host_or_empty none = ""
host_or_empty (some host) = host

-- `public_addresses`
unfoldable pub public_addresses : Network → String → Found String
unfolding check_all host_or_empty
public_addresses network url =
    let host = host_or_empty (network.host_of url) in
    elim (network.getaddrinfo host) [
      | addresses resolved ↦ check_all host [] resolved
      | os_error why ↦ no_host why
    ]

-- `pinned`
unfoldable pub pinned : Network → String → String → Target
pinned network url address = record {
  url = network.with_host url address;
  headers = ("Host", network.netloc url) ∷ [];
  sni_hostname = some (network.host url);
}

-- `Target` of a URL alone.
unfoldable pub anywhere : String → Target
anywhere url = record { url = url; headers = []; sni_hostname = none }

-- `_targets`
unfoldable pub targets_of : Bool → Network → String → Found Target
unfolding public_addresses pinned anywhere
targets_of allow_private network url =
    if allow_private then found (anywhere url ∷ []) else elim (public_addresses network url) [
      | found checked ↦ found (map (pinned network url) checked)
      | no_host why ↦ no_host why
      | refused host address ↦ refused host address
    ]

-- `_post`: the targets a request went to, and how the last one ended; with no target the unpacking raises.
unfoldable pub post : Network → Letter → List Target → List Target × Option Sent
post network message [] = ([], none)
post network message (last ∷ []) = (last ∷ [], some (network.request last message))
post network message (target ∷ next ∷ others) =
    let later = post network message (next ∷ others) in
    elim (network.request target message) [
      | not_connected why ↦ (target ∷ later.0, later.1)
      | response status ↦ (target ∷ [], some (response status))
      | broken why ↦ (target ∷ [], some (broken why))
    ]

-- `WEBHOOK_RETRYABLE`
unfoldable pub is_retryable : ℕ → Bool
is_retryable status =
    status == 408
    || (status == 429 || (status == 500 || (status == 502 || (status == 503 || status == 504))))

abbrev pub failed_attempt : Network → Failure → Bool → Attempt
failed_attempt network why again = record { error = some (network.in_words why); retry = again }

-- The attempt a reply makes.
unfoldable pub attempt_of : Network → Sent → Attempt
unfolding is_retryable
attempt_of network (response status) =
    if is_success status
    then record { error = none; retry = false }
    else failed_attempt network (answered status) (is_retryable status)
attempt_of network (not_connected why) = failed_attempt network (unreachable why) true
attempt_of network (broken why) = failed_attempt network (unreachable why) true

-- The body of `send`, its headers and its signature at the time given, in seconds.
unfoldable pub message_of : Network → ℕ → Delivery → Letter
message_of network now delivery = record {
  body = network.encoded delivery.payload;
  event = network.type_of delivery.payload;
  delivery = network.event_id_of delivery.payload;
  signature =
      sign network.mac delivery.secret now (network.encoded delivery.payload)
        delivery.previous_secret;
}

-- `self._schemes`
unfoldable pub is_allowed : Bool → String → Bool
is_allowed allow_http scheme =
    contains scheme (if allow_http then "https" ∷ "http" ∷ [] else "https" ∷ [])

-- `send`: where requests went, and how the attempt went; none where `_post` raises for want of a target.
unfoldable pub send : Bool → Bool → Network → ℕ → Delivery → List Target × Option Attempt
unfolding is_allowed targets_of post attempt_of message_of
send allow_http allow_private network now delivery =
    if is_allowed allow_http (network.scheme_of delivery.url)
    then elim (targets_of allow_private network delivery.url) [
      | no_host why ↦ ([], some (failed_attempt network (unresolved why) true))
      | refused host address ↦ ([], some (failed_attempt network (not_public host address) false))
      | found targets ↦
          let posted = post network (message_of network now delivery) targets in
          elim posted.1 [
            | none ↦ (posted.0, none)
            | some reply ↦ (posted.0, some (attempt_of network reply))
          ]
    ]
    else ([], some (failed_attempt network refused_scheme false))
