-- ===== src/Analysis/Decision/Laws.antt =====
-- What decidePublication and mapChannelSalonHint promise.
use radar_ia.Prelude.{ℕ, ◌<◌, ◌≤◌, ◌≡◌, ◌≢◌, ◌↔◌, true, false, none, arith}
use radar_ia.Analysis.Types.{
  publish, hold, enrich_thread_only, ChannelSalonHint, PublishWorthiness, tier_e,
}
use radar_ia.Analysis.Scoring.{BackendScoringInput, compute_backend_scoring}
use radar_ia.Analysis.Decision.{
  PublicationDecisionInput, is_accepted, decide_publication, ChannelMappingInput,
  map_channel_salon_hint,
}

-- The least composite at which a folder of this worthiness is published.
abbrev pub publish_threshold : PublishWorthiness → ℕ
publish_threshold PublishWorthiness.high = 70
publish_threshold PublishWorthiness.medium = 70
publish_threshold PublishWorthiness.low = 85
publish_threshold PublishWorthiness.none = 90

-- When a folder is announced, without the code's order of tests.
pub record Publishable (i : PublicationDecisionInput) : Type 0 where
  pub no_technical_reason : i.technical_hold_reason ≡ none
  pub valid : is_accepted i.validation_status ≡ true
  pub unpublished : i.has_main_publication ≡ false
  pub scored : publish_threshold i.publish_worthiness ≤ i.composite

publish-Publishable :
    (i : PublicationDecisionInput) → decide_publication i ≡ publish → Publishable i
unfolding decide_publication
publish-Publishable i h = ground arith

Publishable-publish :
    (i : PublicationDecisionInput) → Publishable i → decide_publication i ≡ publish
unfolding decide_publication
Publishable-publish i h = ground arith

-- The decision is `publish` exactly when there is no technical reason to hold, the analysis is
-- accepted, the folder has no main publication, and the composite reaches the worthiness's threshold.
pub decide_publication-publish_iff :
    (i : PublicationDecisionInput) → (decide_publication i ≡ publish) ↔ Publishable i
decide_publication-publish_iff i = (publish-Publishable i, Publishable-publish i)

-- After two earlier holds, an accepted analysis with no technical reason is never held again.
pub decide_publication-hold_bounded :
    (i : PublicationDecisionInput)
    → i.technical_hold_reason ≡ none
    → is_accepted i.validation_status ≡ true
    → 2 ≤ i.prior_hold_count
    → decide_publication i ≢ hold
unfolding decide_publication
decide_publication-hold_bounded i h k l e = ground arith

-- A folder is enriched only if it has a main publication and its reanalysis is material, and then
-- with a composite of 50 or more or at least one anchored fact.
pub record Enrichable (i : PublicationDecisionInput) : Type 0 where
  pub published : i.has_main_publication ≡ true
  pub material : i.is_material_enrich_reanalysis ≡ true
  pub substance : i.composite < 50 → 1 ≤ i.anchored_fact_count

pub decide_publication-Enrichable :
    (i : PublicationDecisionInput) → decide_publication i ≡ enrich_thread_only → Enrichable i
unfolding decide_publication
decide_publication-Enrichable i h = ground arith

-- Whatever is published gets a channel: at the same composite the hint is never `none`.
pub publish-channel :
    (i : PublicationDecisionInput) (c : ChannelMappingInput)
    → c.composite ≡ i.composite
    → decide_publication i ≡ publish
    → map_channel_salon_hint c ≢ ChannelSalonHint.none
unfolding decide_publication map_channel_salon_hint
publish-channel i c e h k = ground arith

tier_e_composite :
    (s : BackendScoringInput)
    → s.best_source_tier ≡ tier_e
    → s.relevance ≤ 100
    → s.impact ≤ 100
    → s.novelty ≤ 100
    → (compute_backend_scoring s).composite ≤ 88
unfolding compute_backend_scoring
tier_e_composite s t r i n = ground arith

-- From sources of the lowest tier alone, a folder that the model judges worthless (`none`) is never
-- published, whatever the proposal's scores in 0 to 100.
pub tier_e-not_published :
    (s : BackendScoringInput) (i : PublicationDecisionInput)
    → s.best_source_tier ≡ tier_e
    → s.relevance ≤ 100
    → s.impact ≤ 100
    → s.novelty ≤ 100
    → i.composite ≡ (compute_backend_scoring s).composite
    → i.publish_worthiness ≡ PublishWorthiness.none
    → decide_publication i ≢ publish
tier_e-not_published s i t r im n e w p =
    let h = publish-Publishable i p in ground (arith, h.scored, tier_e_composite s t r im n)
