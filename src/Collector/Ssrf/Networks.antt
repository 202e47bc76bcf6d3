-- ===== src/Collector/Ssrf/Networks.antt =====
-- The blocked addresses as a list of networks.
use radar_ia.Prelude.{
  ◌≡◌, ◌<◌, refl, ap, ◌∙◌, ℕ, ◌+◌, ◌*◌, ◌/◌, ◌%◌, String, none, Bool, true, false, ◌&&◌, ◌||◌, some,
  List, [], ◌∷◌, any, leb, ◌==◌, arith, if◌then◌else◌,
}
use radar_ia.Collector.Ssrf.{dotted, is_blocked_octets, is_blocked_ipv4}
use radar_ia.Collector.Ssrf.Ipv6.{
  dotted_match, ipv6_groups, embedded, extract_ipv4_from_mapped, is_blocked_ipv6,
}
use radar_ia.Collector.Ssrf.Address.{parse_ipv4_octets-dotted}

-- the addresses whose 32 bits, without the last ones, are `prefix`; `size` is how many there are
pub record NetworkBlock : Type 0 where
  pub prefix : ℕ
  pub size : ℕ

abbrev pub contains : ℕ → NetworkBlock → Bool
contains address n = address / n.size == n.prefix

abbrev pub block : ℕ → ℕ → NetworkBlock
block prefix size = record { prefix = prefix; size = size }

-- 0/8, 10/8, 100.64/10, 127/8, 169.254/16, 172.16/12, 192.0.0/24, 192.0.2/24, 192.168/16, 198.18/15,
-- 198.51.100/24, 203.0.113/24, 224/4, 240/4
abbrev pub reserved : List NetworkBlock
reserved =
    block 0 16777216
    ∷ block 10 16777216
    ∷ block 401 4194304
    ∷ block 127 16777216
    ∷ block 43518 65536
    ∷ block 2753 1048576
    ∷ block 12582912 256
    ∷ block 12582914 256
    ∷ block 49320 65536
    ∷ block 25353 131072
    ∷ block 12989284 256
    ∷ block 13303921 256
    ∷ block 14 268435456
    ∷ block 15 268435456
    ∷ []

-- the octets of an address
abbrev pub address : ℕ → ℕ → ℕ → ℕ → ℕ
address a b c d = 16777216 * a + 65536 * b + 256 * c + d

module _ (a b c d : ℕ) (ha : a < 256) (hb : b < 256) (hc : c < 256) (hd : d < 256) where
  byte_of : address a b c d / 16777216 ≡ a
  byte_of = omega arith

  two_of : address a b c d / 65536 ≡ 256 * a + b
  two_of = omega arith

  three_of : address a b c d / 256 ≡ 65536 * a + 256 * b + c
  three_of = omega arith

  shared_of : address a b c d / 4194304 ≡ 4 * a + b / 64
  shared_of = omega arith

  twelve_of : address a b c d / 1048576 ≡ 16 * a + b / 16
  twelve_of = omega arith

  fifteen_of : address a b c d / 131072 ≡ 128 * a + b / 2
  fifteen_of = omega arith

  four_of : address a b c d / 268435456 ≡ a / 16
  four_of = omega arith

  -- each network against the test of the code
  shared_test : (4 * a + b / 64 == 401) ≡ (a == 100 && leb 64 b && leb b 127)
  shared_test = ground arith

  local_test : (256 * a + b == 43518) ≡ (a == 169 && b == 254)
  local_test = ground arith

  twelve_test : (16 * a + b / 16 == 2753) ≡ (a == 172 && leb 16 b && leb b 31)
  twelve_test = ground arith

  protocol_test : (65536 * a + 256 * b + c == 12582912) ≡ (a == 192 && b == 0 && c == 0)
  protocol_test = ground arith

  first_test : (65536 * a + 256 * b + c == 12582914) ≡ (a == 192 && b == 0 && c == 2)
  first_test = ground arith

  private_test : (256 * a + b == 49320) ≡ (a == 192 && b == 168)
  private_test = ground arith

  benchmark_test : (128 * a + b / 2 == 25353) ≡ (a == 198 && (b == 18 || b == 19))
  benchmark_test = ground arith

  second_test : (65536 * a + 256 * b + c == 12989284) ≡ (a == 198 && b == 51 && c == 100)
  second_test = ground arith

  third_test : (65536 * a + 256 * b + c == 13303921) ≡ (a == 203 && b == 0 && c == 113)
  third_test = ground arith

  high_test : (if a / 16 == 14 then true else if a / 16 == 15 then true else false) ≡ leb 224 a
  high_test = ground arith

  is_blocked_octets-reserved :
      is_blocked_octets a b c ≡ any (λ n. contains (address a b c d) n) reserved
  unfolding is_blocked_octets
  is_blocked_octets-reserved =
      rw (byte_of, two_of, three_of, shared_of, twelve_of, fifteen_of, four_of)
        (rw (shared_test, local_test, twelve_test, protocol_test, first_test, private_test)
          (rw (benchmark_test, second_test, third_test, high_test) refl))

-- An IPv4 address that stands in the last two groups of an IPv6 address is blocked exactly if it lies
-- in one of the reserved networks.
is_blocked_ipv4-dotted :
    (hi lo : ℕ)
    → hi < 65536
    → lo < 65536
    → is_blocked_ipv4 (dotted hi lo) ≡ any (λ n. contains (65536 * hi + lo) n) reserved
unfolding is_blocked_ipv4
is_blocked_ipv4-dotted hi lo h l =
    let same : address (hi / 256 % 256) (hi % 256) (lo / 256 % 256) (lo % 256) ≡ 65536 * hi + lo =
      omega arith in
    rw (parse_ipv4_octets-dotted hi lo) (
      is_blocked_octets-reserved (hi / 256 % 256) (hi % 256) (lo / 256 % 256) (lo % 256)
        (omega arith) (omega arith) (omega arith) (omega arith)
      ∙ ap (λ v. any (λ n. contains v n) reserved) same)

-- An IPv4-mapped IPv6 address in hexadecimal groups is blocked exactly if the IPv4 address in its last
-- 32 bits lies in one of the reserved networks.
pub is_blocked_ipv6-mapped :
    (lowered : String) (hi lo : ℕ)
    → dotted_match lowered ≡ none
    → ipv6_groups lowered ≡ some (0 ∷ 0 ∷ 0 ∷ 0 ∷ 0 ∷ 0xffff ∷ hi ∷ lo ∷ [])
    → hi < 65536
    → lo < 65536
    → is_blocked_ipv6 lowered ≡ any (λ n. contains (65536 * hi + lo) n) reserved
unfolding is_blocked_ipv6 extract_ipv4_from_mapped embedded
is_blocked_ipv6-mapped lowered hi lo plain groups h l =
    rw plain (rw groups (is_blocked_ipv4-dotted hi lo h l))
