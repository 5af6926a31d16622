-- ===== src/Sender/Checked.antt =====
-- Where a delivery connects when private targets are refused.
use mathlib.Core.List.{Memᴰ}
use agent_runs.Base.{◌≡◌, some, true, String, List, [], ◌∷◌, All}
use agent_runs.Sender.{
  Resolved, judged, is_public, Target, addresses, Network, Found, found, no_host, refused,
  host_or_empty,
}

abbrev pub IsPublic : Resolved → Type 0
IsPublic r = is_public (judged r) ≡ true

-- A spelling of one of the addresses.
abbrev pub IsOneOf : List Resolved → String → Type 0
IsOneOf resolved spelled = (r : Resolved) × Memᴰ r resolved × (spelled ≡ (judged r).spelled)

-- The target is an address the URL's host resolves to, named as the host in the `Host` header and in SNI,
-- and all of those addresses are public.
abbrev pub IsChecked : Network → String → Target → Type 0
IsChecked network url target =
    (resolved : List Resolved) × (network.getaddrinfo (host_or_empty (network.host_of url))
      ≡ addresses resolved)
    × All IsPublic resolved
    × (spelled : String) × IsOneOf resolved spelled
    × (network.host target.url ≡ spelled)
    × (target.headers ≡ ("Host", network.netloc url) ∷ [])
    × (target.sni_hostname ≡ some (network.host url))

-- What a list of targets must satisfy, if one was found.
abbrev AllFound : {A : Type 0} → (A → Type 0) → Found A → Type 0
AllFound P (found xs) = All P xs
AllFound P (no_host why) = Unit
AllFound P (refused host address) = Unit
