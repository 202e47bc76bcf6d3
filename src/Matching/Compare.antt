-- ===== src/Matching/Compare.antt =====
-- matching-signals.ts: the comparison of an article's fingerprint with a folder's.
pub mod Verdict
pub mod Result
pub mod Self
pub mod Novel
pub mod Natures
use text.Mathlib.Text.{starts_with}
use radar_ia.Prelude.{
  ℕ, ◌+◌, ◌*◌, ◌-◌, String, Bool, true, false, not, ◌&&◌, ◌||◌, Option, none, some, List, [], ◌∷◌,
  ◌++◌, map, leb, ltb, ◌==◌, length, filter, any, head?, is_empty, is_some, or_option, or_else,
  str_eq, same_text, includes, if◌then◌else◌,
}
use radar_ia.Matching.Types.{
  MatchingSourceTier, MatchingConfidence, high, medium, low, no_confidence, AnnouncementNature,
  launch, update, acquisition, paper, denial, availability, correction, other, MatchingArticleInput,
  EventFingerprint, MatchingEnrichmentFact, MatchingThresholds,
}
use radar_ia.Matching.Runtime.{Runtime}
use radar_ia.Matching.Text.{empty, normalize_token, canonicalize_matching_url}
use radar_ia.Matching.Signals.{
  is_truthy, sorted_unique, is_metadata_fact_key, extract_article_facts, is_other,
  is_tier_strictly_higher,
}

-- `FingerprintComparison`
pub record FingerprintComparison : Type 0 where
  pub confidence : MatchingConfidence
  pub favorable_signals : List String
  pub unfavorable_signals : List String
  pub blocking_conflict : Bool
  pub clearly_distinct : Bool
  pub novel_facts : List MatchingEnrichmentFact

-- the name of a nature in the source
abbrev pub nature_name : AnnouncementNature → String
nature_name launch = "launch"
nature_name update = "update"
nature_name acquisition = "acquisition"
nature_name paper = "paper"
nature_name denial = "denial"
nature_name availability = "availability"
nature_name correction = "correction"
nature_name other = "other"

abbrev pub same_nature_name : AnnouncementNature → AnnouncementNature → Bool
same_nature_name a b = str_eq (nature_name a) (nature_name b)

-- `INCOMPATIBLE_NATURE_PAIRS`, whose keys put the lesser name first
abbrev pub incompatible_pair : AnnouncementNature → AnnouncementNature → Bool
incompatible_pair acquisition launch = true
incompatible_pair launch acquisition = true
incompatible_pair acquisition paper = true
incompatible_pair paper acquisition = true
incompatible_pair acquisition availability = true
incompatible_pair availability acquisition = true
incompatible_pair launch paper = true
incompatible_pair paper launch = true
incompatible_pair _ _ = false

abbrev pub is_nature : AnnouncementNature → AnnouncementNature → Bool
is_nature a b = same_nature_name b a

-- `naturesIncompatible` of two natures that are there
unfoldable pub natures_clash : AnnouncementNature → AnnouncementNature → Bool
natures_clash a b =
    if is_nature other a || is_nature other b
    then false
    else if same_nature_name a b
    then false
    else if is_nature correction a
        || is_nature correction b
        || is_nature denial a
        || is_nature denial b
    then false
    else if is_nature update a && is_nature launch b
    then false
    else if is_nature update b && is_nature launch a
    then false
    else if is_nature availability a && (is_nature launch b || is_nature update b)
    then false
    else if is_nature availability b && (is_nature launch a || is_nature update a)
    then false
    else incompatible_pair a b

abbrev pub natures_incompatible : Option AnnouncementNature → Option AnnouncementNature → Bool
natures_incompatible (some a) (some b) = natures_clash a b
natures_incompatible _ _ = false

-- the same nature on both sides, and not "other"
abbrev pub same_nature : Option AnnouncementNature → Option AnnouncementNature → Bool
same_nature (some a) (some b) = same_nature_name a b && not (is_other a)
same_nature _ _ = false

-- the difference of two times
abbrev pub distance : ℕ → ℕ → ℕ
distance a b = if ltb a b then b - a else a - b

abbrev pub within : ℕ → Option ℕ → Option ℕ → Bool
within days (some a) (some b) = leb (distance a b) (days * 86400000)
within days _ _ = false

abbrev pub is_higher_than : MatchingSourceTier → Option MatchingSourceTier → Bool
is_higher_than tier none = false
is_higher_than tier (some best) = is_tier_strictly_higher tier best

module _ (rt : Runtime) where
  abbrev pub among : String → List String → Bool
  among item right = includes (normalize_token rt item) (map (normalize_token rt) right)

  -- `sharedCount`
  abbrev pub shared_count : List String → List String → ℕ
  shared_count left right = length (filter (λ item. among item right) left)

  abbrev pub parsed_date : Option String → Option ℕ
  parsed_date none = none
  parsed_date (some iso) = if empty iso then none else rt.parse_date iso

  -- `daysBetween(a, b) !== null && daysBetween(a, b) <= days`
  abbrev pub is_near : ℕ → Option String → Option String → Bool
  is_near days a b = within days (parsed_date a) (parsed_date b)

  -- both labels are there and normalize alike
  abbrev pub same_label : Option String → Option String → Bool
  same_label (some a) (some b) = str_eq (normalize_token rt a) (normalize_token rt b)
  same_label _ _ = false

  -- both labels are there, none is empty, and they normalize apart
  abbrev pub different_label : Option String → Option String → Bool
  different_label a b =
      is_truthy a
      && is_truthy b
      && not (str_eq (normalize_token rt (or_else a "")) (normalize_token rt (or_else b "")))

  abbrev pub has_url : Option String → List String → Bool
  has_url none urls = false
  has_url (some url) urls = any (λ u. same_text (canonicalize_matching_url rt u) (some url)) urls

-- what the comparison finds; `different_product` and `different_version` are tested where the label
-- is not the same
pub record Findings : Type 0 where
  pub same_url : Bool
  pub same_entities : Bool
  pub same_product : Bool
  pub different_product : Bool
  pub same_nature : Bool
  pub incompatible_nature : Bool
  pub same_version : Bool
  pub different_version : Bool
  pub category_overlap : Bool
  pub near : Bool
  pub higher_tier : Bool
  pub different_entities : Bool

abbrev pub has_strong_identity : EventFingerprint → EventFingerprint → Bool
has_strong_identity a f =
    is_some a.product_or_org || is_some f.product_or_org || is_some a.version || is_some f.version

unfoldable pub find_signals :
    Runtime
    → MatchingArticleInput
    → EventFingerprint
    → EventFingerprint
    → MatchingThresholds
    → Findings
find_signals rt article a f thresholds = record {
  same_url = has_url rt (head? a.canonical_urls) f.canonical_urls;
  same_entities = leb thresholds.min_shared_entities (shared_count rt a.entities f.entities);
  same_product = same_label rt a.product_or_org f.product_or_org;
  different_product = different_label rt a.product_or_org f.product_or_org;
  same_nature = same_nature a.announcement_nature f.announcement_nature;
  incompatible_nature = natures_incompatible a.announcement_nature f.announcement_nature;
  same_version = same_label rt a.version f.version;
  different_version = different_label rt a.version f.version;
  category_overlap = ltb 0 (shared_count rt a.categories f.categories);
  near =
      is_near rt thresholds.temporal_proximity_days
        (or_option article.published_at a.reference_date) f.reference_date;
  higher_tier = is_higher_than article.source_tier f.best_source_tier;
  different_entities =
      not (leb thresholds.min_shared_entities (shared_count rt a.entities f.entities))
      && not (same_label rt a.product_or_org f.product_or_org)
      && has_strong_identity a f
      && not (is_empty a.entities)
      && not (is_empty f.entities)
      && (shared_count rt a.entities f.entities == 0);
}
