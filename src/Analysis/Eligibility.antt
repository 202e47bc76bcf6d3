-- ===== src/Analysis/Eligibility.antt =====
-- analysis-eligibility.ts: whether a folder may be analysed again. `lower` is String.prototype.toLowerCase;
-- the record holds what the code reads of its input.
pub mod Triggered
use radar_ia.Prelude.{
  String, Bool, true, false, not, ◌&&◌, Option, none, some, List, [], ◌∷◌, any, map, includes,
  if◌then◌else◌,
}
use radar_ia.Matching.Text.{empty, trim}
use radar_ia.Analysis.Types.{
  SourceTier, AnalysisFolderStatus, closed, MatchingTriggerIssue, create_dossier, attach_enrich,
  duplicate_editorial, ambiguous_no_action,
}
use radar_ia.Analysis.Scoring.{is_tier_strictly_higher}

-- `MATERIAL_ENRICHMENT_TYPES`
abbrev pub material_enrichment_types : List String
material_enrichment_types = "correction" ∷ "denial" ∷ "availability" ∷ "update" ∷ "launch" ∷ []

pub data IneligibleReason : Type 0 where
  not_eligible enrichment_immaterial : IneligibleReason

pub data EligibilityOutcome : Type 0 where
  eligible : Bool → EligibilityOutcome
  ineligible : IneligibleReason → EligibilityOutcome

pub record AnalyzeFolderInput : Type 0 where
  pub folder_status : AnalysisFolderStatus
  pub trigger_issue : MatchingTriggerIssue
  pub trigger_enrichment_type : Option String
  pub enrichment_fact_keys : List String
  pub previous_enrichment_fact_keys : List String
  pub last_accepted_best_source_tier : Option SourceTier

unfoldable pub is_material_enrichment_type : Option String → Bool
is_material_enrichment_type none = false
is_material_enrichment_type (some value) =
    if empty value then false else includes value material_enrichment_types

abbrev pub is_better_tier : SourceTier → Option SourceTier → Bool
is_better_tier best none = false
is_better_tier best (some last) = is_tier_strictly_higher best last

abbrev pub is_closed : AnalysisFolderStatus → Bool
is_closed closed = true
is_closed _ = false

module _ (lower : String → String) where
  abbrev pub normalize_fact_key : String → String
  normalize_fact_key key = lower (trim key)

  -- a key that the previous aggregate does not have
  abbrev pub is_new_key : List String → String → Bool
  is_new_key previous key =
      not (empty (normalize_fact_key key))
      && not (includes (normalize_fact_key key) (map normalize_fact_key previous))

  unfoldable pub is_material_enrichment : AnalyzeFolderInput → SourceTier → Bool
  is_material_enrichment input best =
      if is_material_enrichment_type input.trigger_enrichment_type
      then true
      else if any (λ key. is_new_key input.previous_enrichment_fact_keys key)
          input.enrichment_fact_keys
      then true
      else is_better_tier best input.last_accepted_best_source_tier

  abbrev pub by_issue : MatchingTriggerIssue → AnalyzeFolderInput → SourceTier → EligibilityOutcome
  by_issue duplicate_editorial input best = ineligible not_eligible
  by_issue ambiguous_no_action input best = ineligible not_eligible
  by_issue create_dossier input best = eligible false
  by_issue attach_enrich input best =
      if not (is_material_enrichment input best)
      then ineligible enrichment_immaterial
      else eligible true

  unfoldable pub evaluate_eligibility : AnalyzeFolderInput → SourceTier → EligibilityOutcome
  evaluate_eligibility input best =
      if is_closed input.folder_status
      then ineligible not_eligible
      else by_issue input.trigger_issue input best
