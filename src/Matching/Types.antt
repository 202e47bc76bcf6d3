-- ===== src/Matching/Types.antt =====
-- matching-types.ts and matching-thresholds.ts.
use radar_ia.Prelude.{ℕ, String, Bool, Option, List}

-- `MatchingSourceTier`, from S to E
pub data MatchingSourceTier : Type 0 where
  tier_s tier_a tier_b tier_c tier_d tier_e : MatchingSourceTier

pub data MatchingDecisionIssue : Type 0 where
  create_dossier attach_enrich duplicate_editorial ambiguous_no_action : MatchingDecisionIssue

pub data MatchingConfidence : Type 0 where
  high medium low no_confidence : MatchingConfidence

pub data MatchingFolderStatus : Type 0 where
  open_folder idle closed : MatchingFolderStatus

pub data AnnouncementNature : Type 0 where
  launch update acquisition paper denial availability correction other : AnnouncementNature

pub record MatchingArticleInput : Type 0 where
  pub source_id : String
  pub source_tier : MatchingSourceTier
  pub external_id : Option String
  pub title : String
  pub url : String
  pub published_at : Option String
  pub summary : Option String
  pub content : Option String
  pub categories : List String

pub record EventFingerprint : Type 0 where
  pub entities : List String
  pub product_or_org : Option String
  pub announcement_nature : Option AnnouncementNature
  pub version : Option String
  pub known_fact_keys : List String
  pub categories : List String
  pub canonical_urls : List String
  pub reference_date : Option String
  pub best_source_tier : Option MatchingSourceTier

pub record MatchingCandidateFolder : Type 0 where
  pub id : String
  pub status : MatchingFolderStatus
  pub title : String
  pub fingerprint : EventFingerprint

pub record MatchingEnrichmentFact : Type 0 where
  pub key : String
  pub value : String

-- the origin of a proposal is the constant "rule" and is left out
pub record MatchingEvaluationResult : Type 0 where
  pub issue : MatchingDecisionIssue
  pub folder_id : Option String
  pub confidence : MatchingConfidence
  pub motive_codes : List String
  pub favorable_signals : List String
  pub unfavorable_signals : List String
  pub enrichment_facts : Option (List MatchingEnrichmentFact)
  pub enrichment_type : Option String
  pub folder_title : Option String
  pub justification : String
  pub reevaluable : Bool

pub record MatchingThresholds : Type 0 where
  pub temporal_proximity_days : ℕ
  pub min_entity_token_length : ℕ
  pub min_shared_entities : ℕ
  pub min_primary_text_length : ℕ

-- `MATCHING_THRESHOLDS`
abbrev pub default_thresholds : MatchingThresholds
default_thresholds = record {
  temporal_proximity_days = 14;
  min_entity_token_length = 2;
  min_shared_entities = 1;
  min_primary_text_length = 12;
}
