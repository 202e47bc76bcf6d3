-- ===== src/Matching/Report.antt =====
-- matching-engine.ts: a result with its justification.
use Prim.Native.String.{◌++◌ as append}
use radar_ia.Prelude.{String, true, Option, none, some, List, [], ◌∷◌, if◌then◌else◌}
use radar_ia.Matching.Types.{
  MatchingDecisionIssue, create_dossier, attach_enrich, duplicate_editorial, ambiguous_no_action,
  MatchingConfidence, high, medium, low, no_confidence, MatchingEnrichmentFact,
  MatchingEvaluationResult,
}
use radar_ia.Matching.Text.{empty}

abbrev pub issue_name : MatchingDecisionIssue → String
issue_name create_dossier = "create_dossier"
issue_name attach_enrich = "attach_enrich"
issue_name duplicate_editorial = "duplicate_editorial"
issue_name ambiguous_no_action = "ambiguous_no_action"

abbrev pub confidence_name : MatchingConfidence → String
confidence_name high = "high"
confidence_name medium = "medium"
confidence_name low = "low"
confidence_name no_confidence = "none"

-- `xs.join(separator)`
abbrev pub join : String → List String → String
join separator [] = ""
join separator (x ∷ []) = x
join separator (x ∷ y ∷ rest) = append x (append separator (join separator (y ∷ rest)))

-- `xs.join(",") || "none"`
abbrev pub listed : List String → String
listed xs = if empty (join "," xs) then "none" else join "," xs

abbrev pub folder_part : Option String → String
folder_part none = "folder=none"
folder_part (some id) = if empty id then "folder=none" else append "folder=" id

unfoldable pub build_justification :
    MatchingDecisionIssue
    → MatchingConfidence
    → Option String
    → List String
    → List String
    → List String
    → String
build_justification issue confidence folder_id motives favorable unfavorable = join "; " (
    append "issue=" (issue_name issue)
    ∷ append "confidence=" (confidence_name confidence)
    ∷ folder_part folder_id
    ∷ append "motives=" (listed motives)
    ∷ append "favorable=" (listed favorable)
    ∷ append "unfavorable=" (listed unfavorable)
    ∷ [])

unfoldable pub finalize :
    MatchingDecisionIssue
    → Option String
    → MatchingConfidence
    → List String
    → List String
    → List String
    → Option (List MatchingEnrichmentFact)
    → Option String
    → Option String
    → MatchingEvaluationResult
finalize issue folder_id confidence motives favorable unfavorable facts kind title = record {
  issue = issue;
  folder_id = folder_id;
  confidence = confidence;
  motive_codes = motives;
  favorable_signals = favorable;
  unfavorable_signals = unfavorable;
  enrichment_facts = facts;
  enrichment_type = kind;
  folder_title = title;
  justification = build_justification issue confidence folder_id motives favorable unfavorable;
  reevaluable = true;
}
