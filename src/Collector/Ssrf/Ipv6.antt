-- ===== src/Collector/Ssrf/Ipv6.antt =====
-- ssrf.ts: IPv6 addresses. A group is 16 bits, so a mask that clears its low bits is a division.
use Prim.Native.Char.{Char, code}
use radar_ia.Prelude.{
  ℕ, zero, suc, ◌+◌, ◌-◌, ◌*◌, ◌/◌, String, Bool, true, false, not, ◌&&◌, ◌||◌, Option, none, some,
  List, [], ◌∷◌, ◌++◌, all, leb, ltb, ◌==◌, length, str_eq, or_option, if◌then◌else◌,
}
use radar_ia.Collector.Ssrf.{
  push, split, is_digit, all_digits, text_length, dotted, is_blocked_ipv4,
}

abbrev pub is_colon : Char → Bool
is_colon c = code c == b':'

-- `text.split("::")`, from left to right; `pending` says that a colon was just read
abbrev pub split_double : Bool → String → List String
split_double pending String.[] = if pending then ":" ∷ [] else String.[] ∷ []
split_double pending (String.◌∷◌ c s) =
    let rest = split_double (is_colon c && not pending) s in
    if pending
    then if is_colon c then String.[] ∷ rest else push ":" (push c rest)
    else if is_colon c
    then rest
    else push c rest

abbrev pub split_side : String → List String
split_side side = if str_eq side "" then [] else split b':' side

abbrev pub zeros : ℕ → List String
zeros zero = []
zeros (suc n) = "0" ∷ zeros n

-- the groups of the one or two sides of "::", before they are checked
abbrev pub join_sides : List String → Option (List String)
join_sides (left ∷ []) = if length (split_side left) == 8 then some (split_side left) else none
join_sides (left ∷ right ∷ []) =
    if ltb 8 (length (split_side left) + length (split_side right))
    then none
    else some (
        split_side left
        ++ zeros (8 - length (split_side left) - length (split_side right))
        ++ split_side right)
join_sides _ = none

abbrev pub is_hex : ℕ → Bool
is_hex c = is_digit c || (leb b'a' c && leb c b'f')

abbrev pub all_hex : String → Bool
all_hex String.[] = true
all_hex (String.◌∷◌ c s) = is_hex (code c) && all_hex s

-- /^[0-9a-f]{1,4}$/
abbrev pub is_group : String → Bool
is_group group = all_hex group && leb 1 (text_length group) && leb (text_length group) 4

abbrev pub hex_digit : ℕ → ℕ
hex_digit c = if is_digit c then c - b'0' else c - b'a' + 10

-- `Number.parseInt(group, 16)`
abbrev pub hex : ℕ → String → ℕ
hex n String.[] = n
hex n (String.◌∷◌ c s) = hex (16 * n + hex_digit (code c)) s

abbrev pub hex_groups : List String → List ℕ
hex_groups [] = []
hex_groups (group ∷ rest) = hex 0 group ∷ hex_groups rest

abbrev pub check_groups : Option (List String) → Option (List ℕ)
check_groups none = none
check_groups (some groups) = if all is_group groups then some (hex_groups groups) else none

abbrev pub has_dot : String → Bool
has_dot String.[] = false
has_dot (String.◌∷◌ c s) = code c == b'.' || has_dot s

-- `ipv6Groups` of a text in lower case; its groups are written out in full and read again
unfoldable pub ipv6_groups : String → Option (List ℕ)
ipv6_groups lowered =
    if has_dot lowered then none else check_groups (join_sides (split_double false lowered))

-- what follows a prefix
abbrev pub drop_prefix : String → String → Option String
drop_prefix String.[] s = some s
drop_prefix (String.◌∷◌ p ps) String.[] = none
drop_prefix (String.◌∷◌ p ps) (String.◌∷◌ c s) =
    let rest = drop_prefix ps s in if code p == code c then rest else none

abbrev pub is_short_number : String → Bool
is_short_number part = all_digits part && leb 1 (text_length part) && leb (text_length part) 3

-- \d{1,3}(?:\.\d{1,3}){3}
abbrev pub is_quad : String → Bool
is_quad s = length (split b'.' s) == 4 && all is_short_number (split b'.' s)

abbrev pub only_quad : Option String → Option String
only_quad none = none
only_quad (some s) = if is_quad s then some s else none

abbrev pub dotted_match : String → Option String
dotted_match lowered =
    or_option (only_quad (drop_prefix "0:0:0:0:0:ffff:" lowered))
      (only_quad (drop_prefix "::ffff:" lowered))

abbrev pub all_zero : List ℕ → Bool
all_zero gs = all (λ g. g == 0) gs

-- the address in the last two groups, where the first six mark it as mapped or compatible
unfoldable pub embedded : Option (List ℕ) → Option String
embedded (some (a ∷ b ∷ c ∷ d ∷ e ∷ f ∷ hi ∷ lo ∷ [])) =
    if all_zero (a ∷ b ∷ c ∷ d ∷ e ∷ []) && f == 0xffff
    then some (dotted hi lo)
    else if all_zero (a ∷ b ∷ c ∷ d ∷ e ∷ f ∷ [])
        && not (hi == 0 && lo == 0)
        && not (hi == 0 && lo == 1)
    then some (dotted hi lo)
    else none
embedded _ = none

unfoldable pub extract_ipv4_from_mapped : String → Option String
extract_ipv4_from_mapped lowered = or_option (dotted_match lowered) (embedded (ipv6_groups lowered))

-- the tests on the groups; an address that is not parsed is blocked
unfoldable pub is_blocked_groups : Option (List ℕ) → Bool
is_blocked_groups (some (a ∷ b ∷ c ∷ d ∷ e ∷ f ∷ g ∷ h ∷ [])) =
    if all_zero (a ∷ b ∷ c ∷ d ∷ e ∷ f ∷ g ∷ h ∷ [])
    then true
    else if all_zero (a ∷ b ∷ c ∷ d ∷ e ∷ f ∷ g ∷ []) && h == 1
    then true
    else if a / 64 * 64 == 0xfe80
    then true
    else if a / 512 * 512 == 0xfc00
    then true
    else a / 256 * 256 == 0xff00
is_blocked_groups _ = true

abbrev pub is_blocked_unmapped : Option String → Option (List ℕ) → Bool
is_blocked_unmapped none groups = is_blocked_groups groups
is_blocked_unmapped (some ipv4) groups = is_blocked_ipv4 ipv4

-- `isBlockedIpv6` of an address in lower case
unfoldable pub is_blocked_ipv6 : String → Bool
is_blocked_ipv6 lowered =
    is_blocked_unmapped (extract_ipv4_from_mapped lowered) (ipv6_groups lowered)
