-- ===== src/Collector/Examples.antt =====
-- Instances of the results on addresses and destinations, and tests.
use radar_ia.Prelude.{
  ◌≡◌, ◌+◌, ◌*◌, refl, true, false, some, [], ◌∷◌, any, arith, str_eq, is_space, if◌then◌else◌,
}
use radar_ia.Collector.Ssrf.{parse_octet, parse_ipv4_octets, is_blocked_octets, is_blocked_ipv4}
use radar_ia.Collector.Ssrf.Ipv6.{
  ipv6_groups, embedded, extract_ipv4_from_mapped, is_blocked_groups, is_blocked_ipv6,
}
use radar_ia.Collector.Ssrf.Networks.{contains, reserved, is_blocked_ipv6-mapped}
use radar_ia.Collector.Ssrf.Destination.{
  Network, resolved, pin, resolve_safe_destination, parse_http_url, check_host, normalize_hostname,
  is_local_hostname, is_blocked_ip_address,
}
use radar_ia.Collector.Ssrf.Safe.{Safe, resolve_safe_destination-Safe}

-- a network in which one name resolves to two addresses
abbrev one_name : Network
one_name = record {
  lower = λ s. s;
  is_ip = λ s. if str_eq s "feed.test" then 0 else 4;
  parse_url = λ s. some (record { protocol = "https:"; hostname = s });
  lookup = λ s. some ("8.8.8.8" ∷ "9.9.9.9" ∷ []);
}

resolve_safe_destination-Safe_example :
    Safe one_name (resolve_safe_destination one_name "feed.test")
resolve_safe_destination-Safe_example = resolve_safe_destination-Safe one_name "feed.test"

allowed :
    resolve_safe_destination one_name "feed.test"
    ≡ resolved (
        pin
          (record { protocol = "https:"; hostname = "feed.test" })
          "feed.test"
          ("8.8.8.8" ∷ "9.9.9.9" ∷ [])
          "8.8.8.8")
unfolding resolve_safe_destination parse_http_url check_host normalize_hostname is_local_hostname
    is_blocked_ip_address is_blocked_ipv4 is_blocked_octets parse_ipv4_octets parse_octet is_space
allowed = refl

mapped_groups : ipv6_groups "::ffff:a00:1" ≡ some (0 ∷ 0 ∷ 0 ∷ 0 ∷ 0 ∷ 0xffff ∷ 0xa00 ∷ 1 ∷ [])
unfolding ipv6_groups
mapped_groups = refl

is_blocked_ipv6-mapped_example :
    is_blocked_ipv6 "::ffff:a00:1" ≡ any (λ n. contains (65536 * 0xa00 + 1) n) reserved
is_blocked_ipv6-mapped_example =
    is_blocked_ipv6-mapped "::ffff:a00:1" 0xa00 1 refl mapped_groups (omega arith) (omega arith)

-- the same private address behind the prefix of NAT64 is not blocked
nat64_allowed : is_blocked_ipv6 "64:ff9b::a00:1" ≡ false
unfolding is_blocked_ipv6 extract_ipv4_from_mapped embedded ipv6_groups is_blocked_groups
nat64_allowed = refl

-- nor is an address of the documentation network
documentation_allowed : is_blocked_ipv6 "2001:db8::1" ≡ false
unfolding is_blocked_ipv6 extract_ipv4_from_mapped embedded ipv6_groups is_blocked_groups
documentation_allowed = refl

private_blocked : is_blocked_ipv4 "172.20.0.1" ≡ true
unfolding is_blocked_ipv4 is_blocked_octets parse_ipv4_octets parse_octet
private_blocked = refl

loopback_blocked : is_blocked_ipv6 "::1" ≡ true
unfolding is_blocked_ipv6 extract_ipv4_from_mapped embedded ipv6_groups is_blocked_groups
loopback_blocked = refl
