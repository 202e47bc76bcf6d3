-- ===== src/Analysis/Trigger.antt =====
-- analysis-orchestration-types.ts and analysis-orchestrator.ts: what a result of the matching hands to
-- the analysis. Only the trigger of the analysis is modelled of both files.
use radar_ia.Prelude.{String, Option, none, some, List, [], ◌∷◌, str_eq, if◌then◌else◌}
use radar_ia.Matching.Types.{MatchingDecisionIssue, MatchingEvaluationResult}
use radar_ia.Analysis.Types.{MatchingTriggerIssue}
use radar_ia.Analysis.Eligibility.{AnalyzeFolderInput}

-- a membership of an article in a folder, as far as it is read
pub record NewsFolderArticle : Type 0 where
  pub article_id : String
  pub enrichment_type : Option String

-- an absent field is none; a null one is some none
pub record AnalysisOrchestrationInput : Type 0 where
  pub matching_issue : MatchingTriggerIssue
  pub article_id : Option String
  pub trigger_enrichment_type : Option (Option String)

-- the two types are the same four texts
abbrev pub trigger_issue_of : MatchingDecisionIssue → MatchingTriggerIssue
trigger_issue_of MatchingDecisionIssue.create_dossier = MatchingTriggerIssue.create_dossier
trigger_issue_of MatchingDecisionIssue.attach_enrich = MatchingTriggerIssue.attach_enrich
trigger_issue_of MatchingDecisionIssue.duplicate_editorial =
    MatchingTriggerIssue.duplicate_editorial
trigger_issue_of MatchingDecisionIssue.ambiguous_no_action =
    MatchingTriggerIssue.ambiguous_no_action

-- `matchingResultToAnalysisInput`; the article's id is that of the persisted decision
unfoldable pub matching_result_to_analysis_input :
    String → MatchingEvaluationResult → AnalysisOrchestrationInput
matching_result_to_analysis_input article_id proposal = record {
  matching_issue = trigger_issue_of proposal.issue;
  article_id = some article_id;
  trigger_enrichment_type = some proposal.enrichment_type;
}

abbrev pub enrichment_type_of : String → List NewsFolderArticle → Option String
enrichment_type_of i [] = none
enrichment_type_of i (m ∷ rest) =
    let later = enrichment_type_of i rest in
    if str_eq m.article_id i then m.enrichment_type else later

abbrev pub by_membership : Option String → List NewsFolderArticle → Option String
by_membership none memberships = none
by_membership (some i) memberships = enrichment_type_of i memberships

abbrev pub given_or : Option (Option String) → Option String → Option String
given_or (some given) found = given
given_or none found = found

unfoldable pub resolve_trigger_enrichment_type :
    List NewsFolderArticle → AnalysisOrchestrationInput → Option String
resolve_trigger_enrichment_type memberships input =
    given_or input.trigger_enrichment_type (by_membership input.article_id memberships)

-- the trigger's fields of the call of `analyze`; the other fields come with `loaded`
unfoldable pub analyze_input :
    List NewsFolderArticle → AnalysisOrchestrationInput → AnalyzeFolderInput → AnalyzeFolderInput
analyze_input memberships input loaded = record loaded {
  trigger_issue = input.matching_issue;
  trigger_enrichment_type = resolve_trigger_enrichment_type memberships input;
}
