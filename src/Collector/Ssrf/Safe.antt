-- ===== src/Collector/Ssrf/Safe.antt =====
-- What a resolved destination may connect to.
use radar_ia.Prelude.{
  ◌≡◌, refl, String, true, false, ◌||◌, Option, none, some, List, [], ◌∷◌, any, All, ◌==◌, head?,
  str_eq, arith, Bool-cases, inl, inr,
}
use radar_ia.Matching.Text.{empty}
use radar_ia.Collector.Ssrf.Destination.{
  ParsedUrl, Network, SafeDestination, Resolution, resolved, refused, is_local_hostname,
  is_blocked_ip_address, check_url, parse_http_url, check_addresses, check_host, check_parsed,
  resolve_safe_destination, normalize_hostname,
}

-- every pinned address is allowed, the one to connect to is the first of them, and the host is not a
-- local name
abbrev pub Safe : Network → Resolution SafeDestination → Type 0
Safe net (refused e) = Unit
Safe net (resolved d) =
    All (λ address. is_blocked_ip_address net address ≡ false) d.pinned_addresses
    × (head? d.pinned_addresses ≡ some d.pinned_address)
    × (is_local_hostname d.hostname ≡ false)
    × (str_eq d.url.protocol "http:" || str_eq d.url.protocol "https:" ≡ true)

All-allowed :
    (net : Network) (addresses : List String)
    → any (λ address. is_blocked_ip_address net address) addresses ≡ false
    → All (λ address. is_blocked_ip_address net address ≡ false) addresses
All-allowed net [] h = tt
All-allowed net (a ∷ rest) h = elim (Bool-cases (is_blocked_ip_address net a)) [
  | inl bad ↦ absurd (ground arith)
  | inr good ↦ (good, All-allowed net rest (ground arith))
]

check_host-Safe :
    (net : Network) (u : ParsedUrl) (hostname : String)
    → (str_eq u.protocol "http:" || str_eq u.protocol "https:" ≡ true)
    → Safe net (check_host net u hostname)
unfolding check_host
check_host-Safe net u hostname web = elim (Bool-cases (is_local_hostname hostname)) [
  | inl here ↦ rw here tt
  | inr away ↦ elim (Bool-cases (net.is_ip hostname == 0)) [
    | inl name ↦ rw away (rw name (named away (net.lookup hostname)))
    | inr literal ↦ elim (Bool-cases (is_blocked_ip_address net hostname)) [
      | inl bad ↦ rw away (rw literal (rw bad tt))
      | inr good ↦ rw away (rw literal (rw good ((good, tt), refl, away, web)))
    ]
  ]
]
  where
    named :
        is_local_hostname hostname ≡ false
        → (o : Option (List String)) → Safe net (check_addresses net u hostname o)
    named away none = tt
    named away (some []) = tt
    named away (some (first ∷ rest)) =
        elim (Bool-cases (any (λ address. is_blocked_ip_address net address) (first ∷ rest))) [
          | inl bad ↦ rw bad tt
          | inr good ↦ rw good (All-allowed net (first ∷ rest) good, refl, away, web)
        ]

check_url-web : (net : Network) (o : Option ParsedUrl) → Safe net (check_parsed net (check_url o))
check_url-web net none = tt
check_url-web net (some u) =
    elim (Bool-cases (str_eq u.protocol "http:" || str_eq u.protocol "https:")) [
      | inl web ↦ elim (Bool-cases (empty u.hostname)) [
        | inl nameless ↦ rw web (rw nameless tt)
        | inr hosted ↦
            rw web (rw hosted (check_host-Safe net u (normalize_hostname net u.hostname) web))
      ]
      | inr strange ↦ rw strange tt
    ]

-- Whatever the DNS lookup answers: a destination that is resolved has an http or https URL and a host
-- that is no local name, none of its pinned addresses is blocked, and the address to connect to is the
-- first of them.
pub resolve_safe_destination-Safe :
    (net : Network) (input : String) → Safe net (resolve_safe_destination net input)
unfolding resolve_safe_destination parse_http_url
resolve_safe_destination-Safe net input = check_url-web net (net.parse_url input)
