-- ===== src/Matching/Compare/Result.antt =====
-- matching-signals.ts: the facts that are new to a folder, and the result of a comparison.
use text.Mathlib.Text.{starts_with}
use radar_ia.Prelude.{
  String, Bool, false, not, ◌&&◌, ◌||◌, Option, none, some, List, filter, any, str_eq,
  if◌then◌else◌,
}
use radar_ia.Matching.Types.{
  AnnouncementNature, MatchingArticleInput, EventFingerprint, MatchingEnrichmentFact,
  MatchingThresholds,
}
use radar_ia.Matching.Runtime.{Runtime}
use radar_ia.Matching.Text.{trim, join_spaces}
use radar_ia.Matching.Signals.{
  sorted_unique, is_metadata_fact_key, extract_article_facts, is_denial, is_correction,
}
use radar_ia.Matching.Compare.{FingerprintComparison, among, find_signals}
use radar_ia.Matching.Compare.Verdict.{weigh, judge}

abbrev pub is_novel : Runtime → List String → MatchingEnrichmentFact → Bool
is_novel rt known fact = not (is_metadata_fact_key fact.key) && not (among rt fact.key known)

unfoldable pub novel_facts :
    Runtime → MatchingArticleInput → List String → List MatchingEnrichmentFact
novel_facts rt article known =
    filter (λ fact. is_novel rt known fact) (extract_article_facts rt article)

unfoldable pub compare_fingerprints :
    Runtime
    → MatchingArticleInput
    → EventFingerprint
    → EventFingerprint
    → MatchingThresholds
    → FingerprintComparison
compare_fingerprints rt article a f thresholds = record {
  confidence = (judge (find_signals rt article a f thresholds)).0;
  favorable_signals = sorted_unique (weigh (find_signals rt article a f thresholds)).favorable;
  unfavorable_signals = sorted_unique (judge (find_signals rt article a f thresholds)).1;
  blocking_conflict = (weigh (find_signals rt article a f thresholds)).blocking_conflict;
  clearly_distinct = (weigh (find_signals rt article a f thresholds)).clearly_distinct;
  novel_facts = novel_facts rt article f.known_fact_keys;
}

unfoldable pub suggest_folder_title : MatchingArticleInput → String
suggest_folder_title article = join_spaces (trim article.title)

abbrev pub is_denial_or_correction : Option AnnouncementNature → Bool
is_denial_or_correction none = false
is_denial_or_correction (some nature) = is_denial nature || is_correction nature

unfoldable pub enrichment_type_for :
    Option AnnouncementNature → List MatchingEnrichmentFact → String
enrichment_type_for nature facts =
    if is_denial_or_correction nature
    then "correction"
    else if any (λ fact. starts_with fact.key "status:") facts
    then "status_change"
    else if any (λ fact. starts_with fact.key "availability:") facts
    then "availability"
    else if any (λ fact. starts_with fact.key "confirmation" || str_eq fact.key "status:confirmed")
        facts
    then "confirmation"
    else if any (λ fact. starts_with fact.key "version:") facts
    then "version"
    else "fact_update"
