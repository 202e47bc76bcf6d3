-- ===== src/Matching/Text.antt =====
-- matching-signals.ts: normalized labels, canonical URLs, and the white space of titles. The runtime's
-- Unicode tables come in by `Runtime`; what is left is on characters.
pub mod Normal
use Prim.Native.Char.{Char, code}
use Prim.Native.String.{◌++◌ as append, len}
use radar_ia.Prelude.{
  ℕ, ◌+◌, String, Bool, true, false, not, ◌&&◌, ◌||◌, Option, none, some, List, [], ◌∷◌, leb, ltb,
  ◌==◌, str_eq, is_space, if◌then◌else◌,
}
use radar_ia.Matching.Runtime.{Runtime, Url}

-- a text is empty
abbrev pub empty : String → Bool
empty String.[] = true
empty _ = false

-- the number of characters
abbrev pub text_length : String → ℕ
text_length String.[] = 0
text_length (String.◌∷◌ c s) = 1 + text_length s

abbrev pub space : Char
space = " "

abbrev pub is_mark : ℕ → Bool
is_mark c = leb 0x300 c && leb c 0x36f

-- [a-z0-9.+-]
abbrev pub is_token_char : ℕ → Bool
is_token_char c =
    (leb b'a' c && leb c b'z') || (leb b'0' c && leb c b'9') || c == b'.' || c == b'+' || c == b'-'

-- .replace(/[\u0300-\u036f]/g, "")
abbrev pub strip_marks : String → String
strip_marks String.[] = String.[]
strip_marks (String.◌∷◌ c s) =
    let rest = strip_marks s in if is_mark (code c) then rest else String.◌∷◌ c rest

-- the text goes on with a space, so that a run of separators has begun
abbrev pub on_space : String → Bool
on_space String.[] = false
on_space (String.◌∷◌ c s) = code c == 32

-- .replace(/[^a-z0-9.+-]+/g, " "): a run of other characters becomes one space
abbrev pub join_separators : String → String
join_separators String.[] = String.[]
join_separators (String.◌∷◌ c s) =
    let rest = join_separators s in
    if is_token_char (code c)
    then String.◌∷◌ c rest
    else if on_space rest
    then rest
    else String.◌∷◌ space rest

-- .replace(/\s+/g, " ")
abbrev pub join_spaces : String → String
join_spaces String.[] = String.[]
join_spaces (String.◌∷◌ c s) =
    let rest = join_spaces s in
    if not (is_space (code c))
    then String.◌∷◌ c rest
    else if on_space rest
    then rest
    else String.◌∷◌ space rest

abbrev pub trim_start : String → String
trim_start String.[] = String.[]
trim_start (String.◌∷◌ c s) =
    let rest = trim_start s in if is_space (code c) then rest else String.◌∷◌ c s

abbrev pub trim_end : String → String
trim_end String.[] = String.[]
trim_end (String.◌∷◌ c s) =
    let rest = trim_end s in
    if is_space (code c) && empty rest then String.[] else String.◌∷◌ c rest

-- .trim()
abbrev pub trim : String → String
trim s = trim_end (trim_start s)

-- `text.endsWith("/")` and `text.slice(0, -1)`
abbrev pub ends_with_slash : String → Bool
ends_with_slash String.[] = false
ends_with_slash (String.◌∷◌ c s) =
    let rest = ends_with_slash s in if empty s then code c == b'/' else rest

abbrev pub drop_last : String → String
drop_last String.[] = String.[]
drop_last (String.◌∷◌ c s) =
    let rest = drop_last s in if empty s then String.[] else String.◌∷◌ c rest

module _ (rt : Runtime) where
  unfoldable pub normalize_token : String → String
  normalize_token s = join_spaces (trim (join_separators (rt.lower (strip_marks (rt.nfkd s)))))

  -- `url.host`: the hostname, with the port where there is one
  abbrev pub host : String → String → String
  host hostname port = if empty port then hostname else append hostname (append ":" port)

  -- the port after the default ones are cleared
  abbrev pub kept_port : Url → String
  kept_port u =
      if (str_eq u.protocol "http:" && str_eq u.port "80")
        || (str_eq u.protocol "https:" && str_eq u.port "443")
      then ""
      else u.port

  abbrev pub kept_path : String → String
  kept_path pathname =
      if ltb 1 (text_length pathname) && ends_with_slash pathname
      then drop_last pathname
      else pathname

  abbrev pub canonical_form : Url → Option String
  canonical_form u =
      if not (str_eq u.protocol "http:") && not (str_eq u.protocol "https:")
      then none
      else some (
          append u.protocol (
            append "//" (
              append (host (rt.lower u.hostname) (kept_port u))
                (append (kept_path u.pathname) u.search))))

  abbrev pub canonical_parsed : Option Url → Option String
  canonical_parsed none = none
  canonical_parsed (some u) = canonical_form u

  unfoldable pub canonicalize_matching_url : String → Option String
  canonicalize_matching_url raw = canonical_parsed (rt.parse_url raw)
