-- ===== src/Analysis/Examples.antt =====
-- Instances of the results on the analysis package.
use radar_ia.Prelude.{◌≡◌, ◌≢◌, ◌↔◌, ◌≤◌, refl, ℕ, true, false, none, [], ◌∷◌, arith}
use radar_ia.Analysis.Types.{
  tier_a, tier_c, tier_e, tier_s, accepted, publish, hold, enrich_thread_only, ChannelSalonHint,
  PublishWorthiness, product_update,
}
use radar_ia.Analysis.Scoring.{
  BackendScoringInput, compute_backend_scoring, resolve_best_source_tier, tier_rank,
}
use radar_ia.Analysis.Scoring.Bounds.{
  NoBetter, compute_backend_scoring_mono, compute_backend_scoring_bounds,
}
use radar_ia.Analysis.Scoring.Best.{IsBest, resolve_best_source_tier-IsBest}
use radar_ia.Analysis.Decision.{
  PublicationDecisionInput, decide_publication, ChannelMappingInput, map_channel_salon_hint,
}
use radar_ia.Analysis.Decision.Laws.{
  Publishable, Enrichable, decide_publication-publish_iff, decide_publication-hold_bounded,
  decide_publication-Enrichable, publish-channel, tier_e-not_published,
}

abbrev weak_scores : BackendScoringInput
weak_scores = record { relevance = 60; impact = 50; novelty = 40; best_source_tier = tier_e }

abbrev strong_scores : BackendScoringInput
strong_scores = record { relevance = 95; impact = 90; novelty = 80; best_source_tier = tier_a }

abbrev top_scores_tier_e : BackendScoringInput
top_scores_tier_e = record {
  relevance = 100;
  impact = 100;
  novelty = 100;
  best_source_tier = tier_e;
}

abbrev decision_input : ℕ → PublicationDecisionInput
decision_input c = record {
  validation_status = accepted;
  composite = c;
  publish_worthiness = PublishWorthiness.medium;
  has_main_publication = false;
  is_material_enrich_reanalysis = false;
  anchored_fact_count = 0;
  prior_hold_count = 2;
  technical_hold_reason = none;
}

abbrev enrich_input : PublicationDecisionInput
enrich_input = record (decision_input 40) {
  has_main_publication = true;
  is_material_enrich_reanalysis = true;
  anchored_fact_count = 1;
}

abbrev worthless_input : PublicationDecisionInput
worthless_input = record (decision_input 88) { publish_worthiness = PublishWorthiness.none }

abbrev mapping_input : ChannelMappingInput
mapping_input = record {
  composite = 74;
  effective_impact = 60;
  primary_category = product_update;
  suggested_channel_role = ChannelSalonHint.none;
}

-- tests: of 60, 50 and 40 the scores 51 and 42, so 20.4 + 16.8 + 8
scores_of_weak : (compute_backend_scoring weak_scores).composite ≡ 45
unfolding compute_backend_scoring
scores_of_weak = refl

composite_of_top_tier_e : 88 ≡ (compute_backend_scoring top_scores_tier_e).composite
unfolding compute_backend_scoring
composite_of_top_tier_e = refl

published_at_74 : decide_publication (decision_input 74) ≡ publish
unfolding decide_publication
published_at_74 = refl

enriched_by_fact : decide_publication enrich_input ≡ enrich_thread_only
unfolding decide_publication
enriched_by_fact = refl

decide_publication-publish_iff_example :
    (decide_publication (decision_input 74) ≡ publish) ↔ Publishable (decision_input 74)
decide_publication-publish_iff_example = decide_publication-publish_iff (decision_input 74)

decide_publication-hold_bounded_example : decide_publication (decision_input 50) ≢ hold
decide_publication-hold_bounded_example =
    decide_publication-hold_bounded (decision_input 50) refl refl (omega arith)

decide_publication-Enrichable_example : Enrichable enrich_input
decide_publication-Enrichable_example = decide_publication-Enrichable enrich_input enriched_by_fact

publish-channel_example : map_channel_salon_hint mapping_input ≢ ChannelSalonHint.none
publish-channel_example = publish-channel (decision_input 74) mapping_input refl published_at_74

tier_e-not_published_example : decide_publication worthless_input ≢ publish
tier_e-not_published_example =
    tier_e-not_published top_scores_tier_e worthless_input refl (omega arith) (omega arith)
      (omega arith) composite_of_top_tier_e refl

weak_NoBetter : NoBetter weak_scores strong_scores
unfolding tier_rank
weak_NoBetter = record {
  relevance = omega arith;
  impact = omega arith;
  novelty = omega arith;
  tier = omega arith;
}

compute_backend_scoring_mono_example :
    let r = compute_backend_scoring weak_scores in
    let s = compute_backend_scoring strong_scores in
    (r.effective_relevance ≤ s.effective_relevance)
    × (r.effective_impact ≤ s.effective_impact)
    × (r.composite ≤ s.composite)
compute_backend_scoring_mono_example =
    compute_backend_scoring_mono weak_scores strong_scores weak_NoBetter

compute_backend_scoring_bounds_example :
    let r = compute_backend_scoring top_scores_tier_e in
    (r.effective_relevance ≤ 100) × (r.effective_impact ≤ 100) × (r.composite ≤ 100)
compute_backend_scoring_bounds_example = compute_backend_scoring_bounds top_scores_tier_e

resolve_best_source_tier-IsBest_example :
    IsBest
      (resolve_best_source_tier (tier_c ∷ tier_s ∷ tier_e ∷ []))
      (tier_c ∷ tier_s ∷ tier_e ∷ [])
resolve_best_source_tier-IsBest_example =
    resolve_best_source_tier-IsBest tier_c (tier_s ∷ tier_e ∷ [])
