-- ===== src/Analysis/Eligibility/Triggered.antt =====
-- Folders that the matching triggers an analysis of.
use radar_ia.Prelude.{◌≡◌, refl, String, true, false, List}
use radar_ia.Matching.Types.{
  MatchingDecisionIssue, MatchingArticleInput, MatchingCandidateFolder, MatchingThresholds,
}
use radar_ia.Matching.Runtime.{Runtime}
use radar_ia.Matching.Signals.{extract_event_fingerprint}
use radar_ia.Matching.Compare.Result.{is_denial_or_correction, enrichment_type_for}
use radar_ia.Matching.Engine.{evaluate_article}
use radar_ia.Matching.Engine.Enriched.{is_enriching, evaluate_article-Typed}
use radar_ia.Analysis.Types.{SourceTier, MatchingTriggerIssue}
use radar_ia.Analysis.Trigger.{
  NewsFolderArticle, trigger_issue_of, matching_result_to_analysis_input,
  resolve_trigger_enrichment_type, analyze_input,
}
use radar_ia.Analysis.Eligibility.{
  AnalyzeFolderInput, eligible, is_closed, is_material_enrichment_type, is_material_enrichment,
  evaluate_eligibility,
}

trigger-Attached :
    (i : MatchingDecisionIssue)
    → is_enriching i ≡ true
    → trigger_issue_of i ≡ MatchingTriggerIssue.attach_enrich
trigger-Attached MatchingDecisionIssue.attach_enrich h = refl
trigger-Attached MatchingDecisionIssue.create_dossier h = cc h
trigger-Attached MatchingDecisionIssue.duplicate_editorial h = cc h
trigger-Attached MatchingDecisionIssue.ambiguous_no_action h = cc h

-- Where the matching attaches an article that denies or corrects to a folder with new facts, the input
-- that the orchestrator makes of this result for the analysis passes the test of eligibility, as a
-- material enrichment, unless the folder is closed by then: whatever memberships and facts are loaded
-- and whatever the best tier of the sources was and is.
pub evaluate_eligibility-corrected :
    (rt : Runtime) (article : MatchingArticleInput) (folders : List MatchingCandidateFolder)
    (t : MatchingThresholds) (lower : String → String) (article_id : String)
    (memberships : List NewsFolderArticle) (loaded : AnalyzeFolderInput) (best : SourceTier)
    → is_enriching (evaluate_article rt article folders t).issue ≡ true
    → is_denial_or_correction (extract_event_fingerprint rt article t).announcement_nature ≡ true
    → is_closed loaded.folder_status ≡ false
    → let input =
        matching_result_to_analysis_input article_id (evaluate_article rt article folders t) in
      evaluate_eligibility lower (analyze_input memberships input loaded) best ≡ eligible true
unfolding evaluate_eligibility is_material_enrichment is_material_enrichment_type
    enrichment_type_for analyze_input matching_result_to_analysis_input
    resolve_trigger_enrichment_type
evaluate_eligibility-corrected rt article folders t lower article_id memberships loaded best h
      nature open_one =
    let typed = evaluate_article-Typed rt article folders t h in
    let corrects : enrichment_type_for (extract_event_fingerprint rt article t).announcement_nature
          typed.0
        ≡ "correction" =
      rw nature refl in
    let issue = trigger-Attached (evaluate_article rt article folders t).issue h in
    rw open_one (rw issue (rw typed.3 (rw corrects refl)))
