-- ===== src/Collector/Ssrf/Destination.antt =====
-- ssrf.ts: resolveSafeDestination, which checks a URL's host and every address that it resolves to.
use Prim.Native.Char.{code}
use radar_ia.Prelude.{
  ℕ, String, Bool, true, false, not, ◌&&◌, ◌||◌, Option, none, some, List, [], ◌∷◌, any, ◌==◌,
  str_eq, if◌then◌else◌,
}
use radar_ia.Matching.Text.{empty, trim, drop_last}
use radar_ia.Collector.Ssrf.{is_blocked_ipv4}
use radar_ia.Collector.Ssrf.Ipv6.{is_blocked_ipv6}

-- the parts of a parsed URL that the code reads
pub record ParsedUrl : Type 0 where
  pub protocol : String
  pub hostname : String

-- what the code uses of the runtime: `toLowerCase`, `isIP` (0, 4 or 6), `new URL` (none where it
-- throws), and the lookup of a host name (none where it is rejected)
pub record Network : Type 0 where
  pub lower : String → String
  pub is_ip : String → ℕ
  pub parse_url : String → Option ParsedUrl
  pub lookup : String → Option (List String)

pub data DestinationError : Type 0 where
  invalid_url ssrf_blocked : DestinationError

pub record SafeDestination : Type 0 where
  pub url : ParsedUrl
  pub hostname : String
  pub pinned_addresses : List String
  pub pinned_address : String

pub data Resolution (A : Type 0) : Type 0 where
  resolved : A → Resolution A
  refused : DestinationError → Resolution A

abbrev pub ends_with : String → String → Bool
ends_with suffix String.[] = empty suffix
ends_with suffix (String.◌∷◌ c s) =
    let later = ends_with suffix s in if str_eq (String.◌∷◌ c s) suffix then true else later

abbrev pub starts_bracket : String → Bool
starts_bracket String.[] = false
starts_bracket (String.◌∷◌ c s) = code c == b'['

abbrev pub drop_first : String → String
drop_first String.[] = String.[]
drop_first (String.◌∷◌ c s) = s

-- the text without the dot at its end
abbrev pub without_dot : String → String
without_dot s = if ends_with "." s then drop_last s else s

abbrev pub without_brackets : String → String
without_brackets s = if starts_bracket s && ends_with "]" s then drop_last (drop_first s) else s

unfoldable pub normalize_hostname : Network → String → String
normalize_hostname net hostname = without_brackets (without_dot (net.lower (trim hostname)))

unfoldable pub is_local_hostname : String → Bool
is_local_hostname hostname =
    if str_eq hostname "localhost"
    then true
    else ends_with ".localhost" hostname || ends_with ".local" hostname

unfoldable pub is_blocked_ip_address : Network → String → Bool
is_blocked_ip_address net address =
    if net.is_ip address == 4
    then is_blocked_ipv4 address
    else if net.is_ip address == 6
    then is_blocked_ipv6 (net.lower address)
    else true

abbrev pub check_url : Option ParsedUrl → Resolution ParsedUrl
check_url none = refused invalid_url
check_url (some u) =
    if not (str_eq u.protocol "http:" || str_eq u.protocol "https:")
    then refused invalid_url
    else if empty u.hostname
    then refused invalid_url
    else resolved u

unfoldable pub parse_http_url : Network → String → Resolution ParsedUrl
parse_http_url net input = check_url (net.parse_url input)

abbrev pub pin : ParsedUrl → String → List String → String → SafeDestination
pin u hostname addresses first = record {
  url = u;
  hostname = hostname;
  pinned_addresses = addresses;
  pinned_address = first;
}

abbrev pub check_addresses :
    Network → ParsedUrl → String → Option (List String) → Resolution SafeDestination
check_addresses net u hostname none = refused ssrf_blocked
check_addresses net u hostname (some []) = refused ssrf_blocked
check_addresses net u hostname (some (first ∷ rest)) =
    if any (λ address. is_blocked_ip_address net address) (first ∷ rest)
    then refused ssrf_blocked
    else resolved (pin u hostname (first ∷ rest) first)

unfoldable pub check_host : Network → ParsedUrl → String → Resolution SafeDestination
check_host net u hostname =
    if is_local_hostname hostname
    then refused ssrf_blocked
    else if not (net.is_ip hostname == 0)
    then if is_blocked_ip_address net hostname
      then refused ssrf_blocked
      else resolved (pin u hostname (hostname ∷ []) hostname)
    else check_addresses net u hostname (net.lookup hostname)

abbrev pub check_parsed : Network → Resolution ParsedUrl → Resolution SafeDestination
check_parsed net (refused e) = refused e
check_parsed net (resolved u) = check_host net u (normalize_hostname net u.hostname)

unfoldable pub resolve_safe_destination : Network → String → Resolution SafeDestination
resolve_safe_destination net input = check_parsed net (parse_http_url net input)

abbrev pub url_of : Resolution SafeDestination → Resolution ParsedUrl
url_of (refused e) = refused e
url_of (resolved d) = resolved d.url

unfoldable pub assert_safe_destination : Network → String → Resolution ParsedUrl
assert_safe_destination net input = url_of (resolve_safe_destination net input)
