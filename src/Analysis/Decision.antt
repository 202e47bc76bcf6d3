-- ===== src/Analysis/Decision.antt =====
-- analysis-decision.ts: the backend's decision and the channel hint.
pub mod Laws
use radar_ia.Prelude.{
  ℕ, String, Bool, true, false, not, ◌&&◌, ◌||◌, Option, leb, ltb, is_some, if◌then◌else◌,
}
use radar_ia.Analysis.Types.{
  AnalysisValidationStatus, accepted, accepted_with_warnings, PublicationDecision, publish,
  enrich_thread_only, hold, reject_editorial, ChannelSalonHint, annonces_majeures, flux_ia,
  veille_pertinente, PublishWorthiness, AnalysisCategory, model_release, funding_or_corp,
}

pub record PublicationDecisionInput : Type 0 where
  pub validation_status : AnalysisValidationStatus
  pub composite : ℕ
  pub publish_worthiness : PublishWorthiness
  pub has_main_publication : Bool
  pub is_material_enrich_reanalysis : Bool
  pub anchored_fact_count : ℕ
  pub prior_hold_count : ℕ
  -- a null or empty reason is `none`: the code tests its truth only
  pub technical_hold_reason : Option String

abbrev pub is_accepted : AnalysisValidationStatus → Bool
is_accepted accepted = true
is_accepted accepted_with_warnings = true
is_accepted _ = false

worth_at : PublishWorthiness → ℕ → Bool
worth_at PublishWorthiness.none composite = leb 90 composite
worth_at PublishWorthiness.high composite = true
worth_at PublishWorthiness.medium composite = true
worth_at PublishWorthiness.low composite = leb 85 composite

unfoldable pub meets_publish : PublicationDecisionInput → Bool
unfolding worth_at
meets_publish i =
    if i.has_main_publication
    then false
    else if ltb i.composite 70
    then false
    else worth_at i.publish_worthiness i.composite

unfoldable pub meets_enrich_thread_only : PublicationDecisionInput → Bool
meets_enrich_thread_only i =
    if not i.has_main_publication
    then false
    else if not i.is_material_enrich_reanalysis
    then false
    else (leb 50 i.composite || leb 1 i.anchored_fact_count)

abbrev is_worthless : PublishWorthiness → Bool
is_worthless PublishWorthiness.none = true
is_worthless _ = false

unfoldable pub meets_reject_editorial_scores : PublicationDecisionInput → Bool
meets_reject_editorial_scores i =
    if ltb i.composite 45
    then true
    else if is_worthless i.publish_worthiness && ltb i.composite 70
    then true
    else false

unfoldable pub decide_publication : PublicationDecisionInput → PublicationDecision
unfolding meets_publish meets_enrich_thread_only meets_reject_editorial_scores
decide_publication i =
    if is_some i.technical_hold_reason
    then hold
    else if not (is_accepted i.validation_status)
    then hold
    else if meets_publish i
    then publish
    else if meets_enrich_thread_only i
    then enrich_thread_only
    else if leb 2 i.prior_hold_count
    then reject_editorial
    else if meets_reject_editorial_scores i
    then reject_editorial
    else hold

pub record ChannelMappingInput : Type 0 where
  pub composite : ℕ
  pub effective_impact : ℕ
  pub primary_category : AnalysisCategory
  pub suggested_channel_role : ChannelSalonHint

abbrev is_major_category : AnalysisCategory → Bool
is_major_category model_release = true
is_major_category funding_or_corp = true
is_major_category _ = false

abbrev is_flux_ia : ChannelSalonHint → Bool
is_flux_ia flux_ia = true
is_flux_ia _ = false

unfoldable pub map_channel_salon_hint : ChannelMappingInput → ChannelSalonHint
map_channel_salon_hint i =
    if leb 85 i.composite && (leb 80 i.effective_impact || is_major_category i.primary_category)
    then annonces_majeures
    else if leb 70 i.composite && is_flux_ia i.suggested_channel_role
    then flux_ia
    else if leb 70 i.composite
    then veille_pertinente
    else ChannelSalonHint.none
