-- ===== src/Matching/Engine.antt =====
-- matching-engine.ts: the decision on an article and the candidate folders.
pub mod Candidates
pub mod Create
pub mod Chosen
pub mod Again
pub mod Enriched
use Prim.Native.String.{◌++◌ as append}
use radar_ia.Prelude.{
  ℕ, String, Bool, true, false, not, ◌&&◌, ◌||◌, Option, none, some, List, [], ◌∷◌, ◌++◌, map, leb,
  ltb, ◌==◌, length, filter, flat_map, is_empty, or_else, if◌then◌else◌,
}
use radar_ia.Prelude.Sort.{sort_by}
use radar_ia.Matching.Types.{
  MatchingDecisionIssue, create_dossier, attach_enrich, duplicate_editorial, ambiguous_no_action,
  MatchingConfidence, high, medium, low, no_confidence, MatchingFolderStatus, closed,
  MatchingArticleInput, EventFingerprint, MatchingCandidateFolder, MatchingEnrichmentFact,
  MatchingEvaluationResult, MatchingThresholds, default_thresholds,
}
use radar_ia.Matching.Runtime.{Runtime}
use radar_ia.Matching.Report.{finalize}
use radar_ia.Matching.Text.{empty}
use radar_ia.Matching.Signals.{sorted_unique, extract_event_fingerprint, has_primary_information}
use radar_ia.Matching.Compare.{FingerprintComparison}
use radar_ia.Matching.Compare.Result.{
  compare_fingerprints, enrichment_type_for, suggest_folder_title,
}

-- a folder with its comparison
pub record ScoredCandidate : Type 0 where
  pub folder : MatchingCandidateFolder
  pub comparison : FingerprintComparison

-- values of MatchingThresholds that a caller may override
pub record ThresholdOverrides : Type 0 where
  pub temporal_proximity_days : Option ℕ
  pub min_entity_token_length : Option ℕ
  pub min_shared_entities : Option ℕ
  pub min_primary_text_length : Option ℕ

unfoldable pub merge_thresholds : MatchingThresholds → ThresholdOverrides → MatchingThresholds
merge_thresholds base o = record {
  temporal_proximity_days = or_else o.temporal_proximity_days base.temporal_proximity_days;
  min_entity_token_length = or_else o.min_entity_token_length base.min_entity_token_length;
  min_shared_entities = or_else o.min_shared_entities base.min_shared_entities;
  min_primary_text_length = or_else o.min_primary_text_length base.min_primary_text_length;
}

abbrev pub rank_confidence : MatchingConfidence → ℕ
rank_confidence high = 3
rank_confidence medium = 2
rank_confidence low = 1
rank_confidence no_confidence = 0

abbrev pub is_closed : MatchingFolderStatus → Bool
is_closed closed = true
is_closed _ = false

abbrev pub rank : ScoredCandidate → ℕ
rank c = rank_confidence c.comparison.confidence

-- the order of the candidates: the better confidence first, then the identifier
abbrev pub comes_first : Runtime → ScoredCandidate → ScoredCandidate → Bool
comes_first rt left right =
    if rank right == rank left
    then rt.locale_le left.folder.id right.folder.id
    else ltb (rank right) (rank left)

abbrev pub is_attachable : ScoredCandidate → Bool
is_attachable c =
    not c.comparison.blocking_conflict
    && (rank_confidence c.comparison.confidence == 3
        || rank_confidence c.comparison.confidence == 2)

abbrev pub is_low_only : ScoredCandidate → Bool
is_low_only c = rank_confidence c.comparison.confidence == 1 && not c.comparison.clearly_distinct

abbrev pub is_blocked_distinct : ScoredCandidate → Bool
is_blocked_distinct c = c.comparison.blocking_conflict && c.comparison.clearly_distinct

abbrev pub is_unclear_conflict : ScoredCandidate → Bool
is_unclear_conflict c = c.comparison.blocking_conflict && not c.comparison.clearly_distinct

abbrev pub as_confident : ScoredCandidate → ScoredCandidate → Bool
as_confident top c = rank c == rank top

-- the loop over the candidates
unfoldable pub score :
    Runtime
    → MatchingArticleInput
    → EventFingerprint
    → MatchingThresholds
    → List MatchingCandidateFolder
    → List ScoredCandidate
score rt article fp thresholds [] = []
score rt article fp thresholds (folder ∷ rest) =
    let later = score rt article fp thresholds rest in
    let scored : ScoredCandidate = record {
      folder = folder;
      comparison = compare_fingerprints rt article fp folder.fingerprint thresholds;
    } in
    if is_closed folder.status then later else scored ∷ later

abbrev pub favorable_of : List ScoredCandidate → List String
favorable_of cs = flat_map (λ c. c.comparison.favorable_signals) cs

abbrev pub unfavorable_of : List ScoredCandidate → List String
unfavorable_of cs = flat_map (λ c. c.comparison.unfavorable_signals) cs

abbrev pub too_thin : MatchingEvaluationResult
too_thin =
    finalize ambiguous_no_action none low ("insufficient_primary_information" ∷ []) []
      ("content_too_thin" ∷ []) none none none

abbrev pub several_folders : List ScoredCandidate → MatchingEvaluationResult
several_folders tied =
    finalize ambiguous_no_action none low ("multiple_plausible_folders" ∷ [])
      (sorted_unique (favorable_of tied))
      (sorted_unique (unfavorable_of tied ++ ("conflicting_candidate_folders" ∷ []))) none none none

-- what becomes of the article in its best folder
unfoldable pub attach : EventFingerprint → ScoredCandidate → MatchingEvaluationResult
attach fp best =
    if not (is_empty best.comparison.novel_facts)
    then finalize attach_enrich (some best.folder.id) best.comparison.confidence
        ("same_event" ∷ "novel_information" ∷ []) best.comparison.favorable_signals
        best.comparison.unfavorable_signals (some best.comparison.novel_facts)
        (some (enrichment_type_for fp.announcement_nature best.comparison.novel_facts)) none
    else finalize duplicate_editorial (some best.folder.id) best.comparison.confidence
        ("same_event" ∷ "no_novel_information" ∷ []) best.comparison.favorable_signals
        (sorted_unique (best.comparison.unfavorable_signals ++ ("absence_of_new_value" ∷ []))) none
        none none

abbrev pub low_match : ScoredCandidate → MatchingEvaluationResult
low_match best =
    finalize ambiguous_no_action (some best.folder.id) low ("low_confidence_match" ∷ [])
      best.comparison.favorable_signals
      (sorted_unique (best.comparison.unfavorable_signals ++ ("insufficient_event_identity" ∷ [])))
      none none none

abbrev pub unclear_conflict : ScoredCandidate → MatchingEvaluationResult
unclear_conflict conflict =
    finalize ambiguous_no_action (some conflict.folder.id) low ("blocking_signal_conflict" ∷ [])
      conflict.comparison.favorable_signals conflict.comparison.unfavorable_signals none none none

abbrev pub create : MatchingArticleInput → List ScoredCandidate → MatchingEvaluationResult
create article blocked =
    finalize create_dossier none no_confidence
      (if not (is_empty blocked)
        then "distinct_event" ∷ "primary_information" ∷ []
        else "no_credible_candidate" ∷ "primary_information" ∷ [])
      [] (sorted_unique (unfavorable_of blocked)) none none (some (suggest_folder_title article))

-- the end of the decision, where no candidate is plausible
abbrev pub decide_conflicts :
    MatchingArticleInput → List ScoredCandidate → List ScoredCandidate → MatchingEvaluationResult
decide_conflicts article blocked [] = create article blocked
decide_conflicts article blocked (conflict ∷ rest) =
    if is_empty blocked then unclear_conflict conflict else create article blocked

abbrev pub decide_low :
    MatchingArticleInput → List ScoredCandidate → List ScoredCandidate → MatchingEvaluationResult
decide_low article scored [] =
    decide_conflicts article (filter is_blocked_distinct scored) (filter is_unclear_conflict scored)
decide_low article scored (best ∷ rest) = low_match best

-- ties are asked for only where there are several plausible candidates
abbrev pub decide_plausible :
    MatchingArticleInput
    → EventFingerprint
    → List ScoredCandidate
    → List ScoredCandidate
    → MatchingEvaluationResult
decide_plausible article fp scored [] = decide_low article scored (filter is_low_only scored)
decide_plausible article fp scored (top ∷ rest) =
    if ltb 1 (length (top ∷ rest)) && ltb 1 (length (filter (λ c. as_confident top c) (top ∷ rest)))
    then several_folders (filter (λ c. as_confident top c) (top ∷ rest))
    else attach fp top

unfoldable pub decide :
    MatchingArticleInput → EventFingerprint → List ScoredCandidate → MatchingEvaluationResult
decide article fp scored = decide_plausible article fp scored (filter is_attachable scored)

unfoldable pub evaluate_article :
    Runtime
    → MatchingArticleInput
    → List MatchingCandidateFolder
    → MatchingThresholds
    → MatchingEvaluationResult
evaluate_article rt article folders thresholds =
    let fp = extract_event_fingerprint rt article thresholds in
    let scored = sort_by (comes_first rt) (score rt article fp thresholds folders) in
    if not (has_primary_information article fp thresholds)
    then too_thin
    else decide article fp scored

-- `createMatchingEngine(options).evaluate`
unfoldable pub evaluate :
    Runtime
    → ThresholdOverrides
    → MatchingArticleInput
    → List MatchingCandidateFolder
    → MatchingEvaluationResult
evaluate rt overrides article folders =
    evaluate_article rt article folders (merge_thresholds default_thresholds overrides)
