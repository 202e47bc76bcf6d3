-- ===== src/Analysis/Types.antt =====
-- The closed sets of packages/analysis/src/analysis-proposal-types.ts and analysis-service-types.ts.

-- `SourceTier`; the letters S to E carry a prefix, since a letter alone reads as a variable.
pub data SourceTier : Type 0 where
  tier_s tier_a tier_b tier_c tier_d tier_e : SourceTier

pub data AnalysisFolderStatus : Type 0 where
  open_folder idle closed : AnalysisFolderStatus

pub data MatchingTriggerIssue : Type 0 where
  create_dossier attach_enrich duplicate_editorial ambiguous_no_action : MatchingTriggerIssue

pub data AnalysisValidationStatus : Type 0 where
  accepted accepted_with_warnings rejected : AnalysisValidationStatus

pub data PublicationDecision : Type 0 where
  publish enrich_thread_only hold reject_editorial : PublicationDecision

pub data ChannelSalonHint : Type 0 where
  annonces_majeures veille_pertinente flux_ia none : ChannelSalonHint

pub data PublishWorthiness : Type 0 where
  high medium low none : PublishWorthiness

pub data AnalysisCategory : Type 0 where
  model_release product_update research benchmark funding_or_corp : AnalysisCategory
  policy_or_safety open_source other : AnalysisCategory
