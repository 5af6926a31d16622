-- ===== src/Tests/Sends.antt =====
-- A delivery to a host of two public addresses, the first of which refuses the connection.
use agent_runs.Base.{◌≡◌, String, true, false, some, none, [], ◌∷◌, refl, str_eq, if◌then◌else◌}
use agent_runs.Outbox.{Delivery}
use agent_runs.Sender.{
  Address, ipv4, ipv6, judged, is_public, Sent, response, not_connected, Target, pinned, Letter,
  addresses, Network, check_all, host_or_empty, public_addresses, targets_of, post, is_retryable,
  attempt_of, is_allowed, send,
}

abbrev first : Address
first = record { spelled = "8.8.8.8"; is_global = true; is_multicast = false }

abbrev second : Address
second = record { spelled = "9.9.9.9"; is_global = true; is_multicast = false }

abbrev local : Address
local = record { spelled = "10.0.0.1"; is_global = false; is_multicast = false }

-- A URL of the tests is its host.
abbrev answers : Target → Letter → Sent
answers target message =
    if str_eq target.url "8.8.8.8" then not_connected "refused" else response 503

abbrev open_network : Network
open_network = record {
  scheme_of = λ url. "https";
  host_of = λ url. some "hooks.example";
  getaddrinfo = λ host. addresses (ipv4 first ∷ ipv4 first ∷ ipv6 local (some second) ∷ []);
  with_host = λ url address. address;
  netloc = λ url. url;
  host = λ url. url;
  request = answers;
  encoded = λ payload. 123 ∷ 125 ∷ [];
  type_of = λ payload. "run.ended";
  event_id_of = λ payload. "e1";
  mac = λ key text. text;
  in_words = λ why. "failed";
}

abbrev inner_network : Network
inner_network = record open_network {
  getaddrinfo = λ host. addresses (ipv4 first ∷ ipv6 first (some local) ∷ []);
}

abbrev at_address : String → Target
at_address address = record {
  url = address;
  headers = ("Host", "hooks.example") ∷ [];
  sni_hostname = some "hooks.example";
}

abbrev owed : Delivery
owed = record {
  delivery_id = "d1";
  url = "hooks.example";
  secret = "s";
  payload = "{}";
  attempts = 1;
  previous_secret = none;
}

sent-to_both : send false false open_network 0 owed ≡ (
  at_address "8.8.8.8" ∷ at_address "9.9.9.9" ∷ [],
  some (record { error = some "failed"; retry = true }),
)
unfolding send is_allowed targets_of pinned public_addresses check_all host_or_empty judged
    is_public post attempt_of is_retryable
sent-to_both = refl

sent-nowhere :
    send false false inner_network 0 owed
    ≡ ([], some (record { error = some "failed"; retry = false }))
unfolding send is_allowed targets_of pinned public_addresses check_all host_or_empty judged
    is_public
sent-nowhere = refl
