-- ===== src/Matching/Runtime.antt =====
-- What the matching uses of the JavaScript runtime: Unicode tables, the URL parser, the clock's date
-- parser, the locale's order, and the regular expressions, each as the function that it computes.
use radar_ia.Prelude.{ℕ, String, Bool, Option, List}
use radar_ia.Matching.Types.{AnnouncementNature}

-- the parts of a parsed URL that the code reads; a port is "" when it is the scheme's own or absent
pub record Url : Type 0 where
  pub protocol : String
  pub hostname : String
  pub port : String
  pub pathname : String
  pub search : String

pub record Runtime : Type 0 where
  -- `s.normalize("NFKD")` and `s.toLowerCase()`
  pub nfkd : String → String
  pub lower : String → String
  -- `new URL(s)`, none where it throws
  pub parse_url : String → Option Url
  -- `Date.parse(s)` in milliseconds, none for NaN
  pub parse_date : String → Option ℕ
  -- `a.localeCompare(b) <= 0`
  pub locale_le : String → String → Bool
  -- `NATURE_PATTERNS`: the pattern of a nature
  pub nature_pattern : AnnouncementNature → String → Bool
  -- group 1 of the two patterns of extractVersion
  pub named_version : String → Option String
  pub semver : String → Option String
  -- the matches of the pattern of extractEntities
  pub proper_nouns : String → List String
  -- the patterns of extractFactKeys, with their groups
  pub explicit_date : String → Option String
  pub says_ga : String → Bool
  pub says_preview : String → Bool
  pub says_waitlist : String → Bool
  pub region : String → Option String
  pub price : String → Option (Option String × Option String)
  pub says_delayed : String → Bool
  pub says_cancelled : String → Bool
  pub says_confirmed : String → Bool
