-- ===== src/Collector/Ssrf.antt =====
-- ssrf.ts: which addresses a request may go to. node:net's isIP, the URL parser, toLowerCase and the
-- DNS lookup are the fields of Network.
pub mod Address
pub mod Ipv6
pub mod Networks
pub mod Destination
pub mod Safe
use Prim.Native.Char.{Char, code}
use radar_ia.Prelude.{
  ℕ, ◌+◌, ◌-◌, ◌*◌, ◌/◌, ◌%◌, String, Bool, true, false, not, ◌&&◌, ◌||◌, Option, none, some, List,
  [], ◌∷◌, leb, ltb, ◌==◌, length, if◌then◌else◌,
}

-- `text.split(c)` for a single character, by its code
abbrev pub push : Char → List String → List String
push x [] = String.◌∷◌ x String.[] ∷ []
push x (y ∷ ys) = String.◌∷◌ x y ∷ ys

abbrev pub split : ℕ → String → List String
split c String.[] = String.[] ∷ []
split c (String.◌∷◌ x s) =
    let rest = split c s in if code x == c then String.[] ∷ rest else push x rest

abbrev pub is_digit : ℕ → Bool
is_digit c = leb b'0' c && leb c b'9'

abbrev pub all_digits : String → Bool
all_digits String.[] = true
all_digits (String.◌∷◌ c s) = is_digit (code c) && all_digits s

abbrev pub text_length : String → ℕ
text_length String.[] = 0
text_length (String.◌∷◌ c s) = 1 + text_length s

-- `Number(part)` of digits, from the value of the digits before
abbrev pub decimal : ℕ → String → ℕ
decimal n String.[] = n
decimal n (String.◌∷◌ c s) = decimal (10 * n + (code c - b'0')) s

abbrev pub starts_with_zero : String → Bool
starts_with_zero String.[] = false
starts_with_zero (String.◌∷◌ c s) = code c == b'0'

-- one part of an address: one to three digits, at most 255, without a leading zero
unfoldable pub parse_octet : String → Option ℕ
parse_octet part =
    if not (all_digits part && leb 1 (text_length part) && leb (text_length part) 3)
    then none
    else if ltb 255 (decimal 0 part)
    then none
    else if ltb 1 (text_length part) && starts_with_zero part
    then none
    else some (decimal 0 part)

abbrev pub cons_octet : Option ℕ → Option (List ℕ) → Option (List ℕ)
cons_octet (some n) (some ns) = some (n ∷ ns)
cons_octet _ _ = none

abbrev pub parse_octets : List String → Option (List ℕ)
parse_octets [] = some []
parse_octets (part ∷ rest) = cons_octet (parse_octet part) (parse_octets rest)

unfoldable pub parse_ipv4_octets : String → Option (List ℕ)
parse_ipv4_octets ip =
    if not (length (split b'.' ip) == 4) then none else parse_octets (split b'.' ip)

-- the tests of isBlockedIpv4 on the first three octets
unfoldable pub is_blocked_octets : ℕ → ℕ → ℕ → Bool
is_blocked_octets a b c =
    if a == 0
    then true
    else if a == 10
    then true
    else if a == 100 && leb 64 b && leb b 127
    then true
    else if a == 127
    then true
    else if a == 169 && b == 254
    then true
    else if a == 172 && leb 16 b && leb b 31
    then true
    else if a == 192 && b == 0 && c == 0
    then true
    else if a == 192 && b == 0 && c == 2
    then true
    else if a == 192 && b == 168
    then true
    else if a == 198 && (b == 18 || b == 19)
    then true
    else if a == 198 && b == 51 && c == 100
    then true
    else if a == 203 && b == 0 && c == 113
    then true
    else leb 224 a

abbrev pub is_blocked_parsed : Option (List ℕ) → Bool
is_blocked_parsed (some (a ∷ b ∷ c ∷ d ∷ [])) = is_blocked_octets a b c
is_blocked_parsed _ = false

unfoldable pub is_blocked_ipv4 : String → Bool
is_blocked_ipv4 ip = is_blocked_parsed (parse_ipv4_octets ip)

-- `${n}` for an octet
abbrev pub digit : ℕ → Char
digit n =
    if n == 0
    then "0"
    else if n == 1
    then "1"
    else if n == 2
    then "2"
    else if n == 3
    then "3"
    else if n == 4
    then "4"
    else if n == 5
    then "5"
    else if n == 6
    then "6"
    else if n == 7
    then "7"
    else if n == 8
    then "8"
    else "9"

unfoldable pub print_octet : ℕ → String
print_octet n =
    if ltb n 10
    then String.◌∷◌ (digit n) String.[]
    else if ltb n 100
    then String.◌∷◌ (digit (n / 10)) (String.◌∷◌ (digit (n % 10)) String.[])
    else String.◌∷◌ (digit (n / 100))
        (String.◌∷◌ (digit (n / 10 % 10)) (String.◌∷◌ (digit (n % 10)) String.[]))

-- the text of two texts with a dot between them
abbrev pub with_dot : String → String → String
with_dot String.[] t = String.◌∷◌ "." t
with_dot (String.◌∷◌ c s) t = String.◌∷◌ c (with_dot s t)

-- the dotted address of the last two groups of an IPv6 address
unfoldable pub dotted : ℕ → ℕ → String
dotted hi lo = with_dot (print_octet (hi / 256 % 256)) (
    with_dot (print_octet (hi % 256))
      (with_dot (print_octet (lo / 256 % 256)) (print_octet (lo % 256))))
