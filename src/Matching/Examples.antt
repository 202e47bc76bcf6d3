-- ===== src/Matching/Examples.antt =====
-- Instances of the results on the matching, and tests of its operations.
use radar_ia.Prelude.{
  ◌≡◌, refl, true, false, not, ◌&&◌, some, none, [], ◌∷◌, any, All, map, is_space,
}
use radar_ia.Matching.Types.{
  attach_enrich, tier_a, high, denial, open_folder, duplicate_editorial, MatchingArticleInput,
  EventFingerprint, MatchingCandidateFolder, default_thresholds,
}
use radar_ia.Matching.Runtime.{Runtime, Url}
use radar_ia.Matching.Signals.{is_denial}
use radar_ia.Matching.Text.{canonicalize_matching_url, normalize_token}
use radar_ia.Matching.Text.Normal.{Words, normalize_token-again}
use radar_ia.Matching.Signals.{
  text_le, extract_version, extract_announcement_nature, extract_product_or_org, extract_entities,
  extract_fact_keys, extract_article_facts, extract_event_fingerprint, has_primary_information,
}
use radar_ia.Matching.Compare.{among, natures_clash, find_signals}
use radar_ia.Matching.Compare.Verdict.{weigh, judge}
use radar_ia.Matching.Compare.Result.{compare_fingerprints, novel_facts, enrichment_type_for}
use radar_ia.Matching.Compare.Novel.{Distinct, novel_facts-Distinct}
use radar_ia.Matching.Report.{finalize}
use radar_ia.Matching.Engine.{
  ScoredCandidate, is_attachable, score, attach, decide, evaluate_article,
}
use radar_ia.Matching.Engine.Candidates.{is_credible, Scored}
use radar_ia.Matching.Engine.Create.{is_create, evaluate_article-create}
use radar_ia.Matching.Engine.Chosen.{is_attached, Best, evaluate_article-Best}
use radar_ia.Matching.Engine.Again.{evaluate_article-again}
use radar_ia.Analysis.Types as AnalysisTypes
use radar_ia.Analysis.Trigger.{matching_result_to_analysis_input, analyze_input}
use radar_ia.Analysis.Eligibility.{AnalyzeFolderInput, eligible, evaluate_eligibility}
use radar_ia.Analysis.Eligibility.Triggered.{evaluate_eligibility-corrected}

abbrev parsed : Url
parsed = record {
  protocol = "https:";
  hostname = "news.test";
  port = "443";
  pathname = "/gpt/";
  search = "";
}

-- a runtime that knows one URL and no pattern but two
abbrev small : Runtime
small = record {
  nfkd = λ s. s;
  lower = λ s. s;
  parse_url = λ s. some parsed;
  parse_date = λ s. none;
  locale_le = text_le;
  nature_pattern = λ nature s. false;
  named_version = λ s. some "gpt-5";
  semver = λ s. none;
  proper_nouns = λ s. "openai" ∷ [];
  explicit_date = λ s. none;
  says_ga = λ s. true;
  says_preview = λ s. false;
  says_waitlist = λ s. false;
  region = λ s. none;
  price = λ s. some (none, some "20");
  says_delayed = λ s. false;
  says_cancelled = λ s. false;
  says_confirmed = λ s. false;
}

abbrev article : MatchingArticleInput
article = record {
  source_id = "feed";
  source_tier = tier_a;
  external_id = none;
  title = "openai ships gpt-5";
  url = "https://news.test:443/gpt/#top";
  published_at = none;
  summary = none;
  content = none;
  categories = "models" ∷ [];
}

abbrev known : EventFingerprint
known = extract_event_fingerprint small article default_thresholds

abbrev folder : MatchingCandidateFolder
folder = record { id = "f1"; status = open_folder; title = "gpt-5"; fingerprint = known }

-- the folder before the price and the availability were known
abbrev earlier : MatchingCandidateFolder
earlier = record folder { fingerprint = record known { known_fact_keys = "version:gpt-5" ∷ [] } }

url-canonical : canonicalize_matching_url small article.url ≡ some "https://news.test/gpt"
unfolding canonicalize_matching_url
url-canonical = refl

enough : has_primary_information article known default_thresholds ≡ true
unfolding has_primary_information extract_event_fingerprint extract_entities extract_product_or_org
    extract_version normalize_token is_space extract_announcement_nature
enough = refl

evaluate_article-again_example :
    ((evaluate_article small article (folder ∷ []) default_thresholds).issue ≡ duplicate_editorial)
    × ((evaluate_article small article (folder ∷ []) default_thresholds).folder_id ≡ some "f1")
    × ((evaluate_article small article (folder ∷ []) default_thresholds).confidence ≡ high)
unfolding canonicalize_matching_url
evaluate_article-again_example =
    evaluate_article-again small article default_thresholds "https://news.test/gpt" refl refl refl
      folder refl refl enough

evaluate_article-create_example :
    is_create (evaluate_article small article (folder ∷ []) default_thresholds).issue ≡ (
      has_primary_information article known default_thresholds
      && not (any (is_credible small article known default_thresholds) (folder ∷ [])))
evaluate_article-create_example =
    evaluate_article-create small article (folder ∷ []) default_thresholds

attached :
    is_attached (evaluate_article small article (earlier ∷ []) default_thresholds).issue ≡ true
unfolding evaluate_article score decide attach finalize compare_fingerprints find_signals weigh
    judge novel_facts natures_clash canonicalize_matching_url extract_article_facts
    extract_fact_keys has_primary_information extract_event_fingerprint extract_entities
    extract_product_or_org extract_version normalize_token is_space extract_announcement_nature
attached = refl

evaluate_article-Best_example :
    (c : ScoredCandidate) × Best
      (score small article known default_thresholds (earlier ∷ []))
      (evaluate_article small article (earlier ∷ []) default_thresholds)
      c
    × Scored small article known default_thresholds c
    × (is_attachable c ≡ true)
evaluate_article-Best_example =
    evaluate_article-Best small article (earlier ∷ []) default_thresholds attached

-- the same runtime for an article that denies
abbrev denying : Runtime
denying = record small { nature_pattern = λ nature s. is_denial nature }

-- what is loaded of the folder, before the trigger's fields are set
abbrev loaded : AnalyzeFolderInput
loaded = record {
  folder_status = AnalysisTypes.open_folder;
  trigger_issue = AnalysisTypes.duplicate_editorial;
  trigger_enrichment_type = none;
  enrichment_fact_keys = [];
  previous_enrichment_fact_keys = [];
  last_accepted_best_source_tier = none;
}

denied :
    ((evaluate_article denying article (earlier ∷ []) default_thresholds).issue ≡ attach_enrich)
    × ((evaluate_article denying article (earlier ∷ []) default_thresholds).enrichment_type
        ≡ some "correction")
    × ((extract_event_fingerprint denying article default_thresholds).announcement_nature
        ≡ some denial)
unfolding evaluate_article score decide attach finalize compare_fingerprints find_signals weigh
    judge novel_facts natures_clash canonicalize_matching_url enrichment_type_for
    extract_article_facts extract_fact_keys has_primary_information extract_event_fingerprint
    extract_entities extract_product_or_org extract_version normalize_token is_space
    extract_announcement_nature
denied = (refl, refl, refl)

evaluate_eligibility-corrected_example :
    let input =
      matching_result_to_analysis_input "a1"
        (evaluate_article denying article (earlier ∷ []) default_thresholds) in
    evaluate_eligibility (λ s. s) (analyze_input [] input loaded) AnalysisTypes.tier_e
    ≡ eligible true
evaluate_eligibility-corrected_example =
    evaluate_eligibility-corrected denying article (earlier ∷ []) default_thresholds (λ s. s) "a1"
      [] loaded AnalysisTypes.tier_e (rw denied.0 refl) (rw denied.2 refl) refl

novel_facts-Distinct_example :
    Distinct (novel_facts small article ("version:gpt-5" ∷ []))
    × All
        (λ f. among small f.key ("version:gpt-5" ∷ []) ≡ false)
        (novel_facts small article ("version:gpt-5" ∷ []))
novel_facts-Distinct_example = novel_facts-Distinct small article ("version:gpt-5" ∷ [])

normalize_token-again_example :
    Words (normalize_token small " GPT_5  turbo ")
    × (normalize_token small (normalize_token small " GPT_5  turbo ")
        ≡ normalize_token small " GPT_5  turbo ")
normalize_token-again_example =
    normalize_token-again small (λ s w. refl) (λ s w. refl) " GPT_5  turbo "

normalized : normalize_token small "--  gpt_5 (turbo)!" ≡ "-- gpt 5 turbo"
unfolding normalize_token is_space
normalized = refl

new_facts :
    map (λ f. f.key) (novel_facts small article ("version:gpt-5" ∷ []))
    ≡ "availability:ga" ∷ "price:20" ∷ []
unfolding novel_facts extract_article_facts extract_fact_keys extract_version normalize_token
    is_space extract_announcement_nature
new_facts = refl
