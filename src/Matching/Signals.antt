-- ===== src/Matching/Signals.antt =====
-- matching-signals.ts: the fingerprint and the facts of an article.
use text.Mathlib.Text.{find?, starts_with}
use Prim.Native.String.{◌++◌ as append, compare}
use Prim.Native.Nat.{Ordering}
use radar_ia.Prelude.{
  ℕ, String, Bool, true, false, not, ◌&&◌, ◌||◌, Option, none, some, List, [], ◌∷◌, ◌++◌, map, leb,
  ltb, filter, is_empty, is_some, or_else, or_option, str_eq, includes, if◌then◌else◌,
}
use radar_ia.Prelude.Sort.{sort_by}
use radar_ia.Matching.Types.{
  MatchingSourceTier, tier_s, tier_a, tier_b, tier_c, tier_d, tier_e, AnnouncementNature, launch,
  update, acquisition, paper, denial, availability, correction, other, MatchingArticleInput,
  EventFingerprint, MatchingEnrichmentFact, MatchingThresholds,
}
use radar_ia.Matching.Runtime.{Runtime}
use radar_ia.Matching.Text.{
  empty, text_length, trim, join_spaces, normalize_token, canonicalize_matching_url,
}

-- `xs.sort()` on texts: by code points, which on the basic plane is the order of UTF-16 units
abbrev pub text_le : String → String → Bool
text_le s t = elim (compare s t) [ Ordering.gt ↦ false | _ ↦ true ]

-- `[...new Set(values)]`: the first of equal values stays
abbrev pub unique : List String → List String
unique [] = []
unique (x ∷ xs) = let rest = unique xs in x ∷ filter (λ y. not (str_eq x y)) rest

abbrev pub sorted_unique : List String → List String
sorted_unique xs = sort_by text_le (unique xs)

-- a text that is neither undefined nor empty
abbrev pub is_truthy : Option String → Bool
is_truthy none = false
is_truthy (some s) = not (empty s)

-- `if (x) { xs.add(x) }`
abbrev pub if_truthy : Option String → List String
if_truthy none = []
if_truthy (some s) = if empty s then [] else s ∷ []

abbrev pub known_orgs : List String
known_orgs =
    "openai" ∷ "anthropic" ∷ "google" ∷ "deepmind" ∷ "meta" ∷ "microsoft" ∷ "amazon" ∷ "aws"
    ∷ "nvidia" ∷ "mistral" ∷ "cohere" ∷ "huggingface" ∷ "hugging face" ∷ "xai" ∷ "apple" ∷ "ibm"
    ∷ "stability ai" ∷ "perplexity" ∷ "databricks" ∷ []

abbrev pub stop_entities : List String
stop_entities =
    "ai" ∷ "the" ∷ "a" ∷ "an" ∷ "new" ∷ "update" ∷ "release" ∷ "model" ∷ "models" ∷ "why" ∷ "week"
    ∷ "this" ∷ "how" ∷ "what" ∷ "when" ∷ "industry" ∷ "notes" ∷ "matters" ∷ []

abbrev pub is_stop_entity : String → Bool
is_stop_entity token = includes token stop_entities

abbrev pub is_metadata_fact_key : String → Bool
is_metadata_fact_key key = starts_with key "url:" || starts_with key "date:"

abbrev pub first_org : String → List String → Option String
first_org normalized [] = none
first_org normalized (org ∷ rest) =
    let later = first_org normalized rest in
    if is_some (find? normalized org) then some org else later

abbrev pub collect_text : MatchingArticleInput → String
collect_text article = trim (
    append article.title (
      append "\n" (append (or_else article.summary "") (append "\n" (or_else article.content "")))))

-- the natures of `NATURE_PATTERNS`, in the order in which they are tried
abbrev pub nature_order : List AnnouncementNature
nature_order = denial ∷ correction ∷ acquisition ∷ paper ∷ launch ∷ update ∷ availability ∷ []

-- a fact, where the article has it
abbrev pub fact_when : Bool → String → String → List MatchingEnrichmentFact
fact_when b key value =
    if b
    then (let fact : MatchingEnrichmentFact = record { key = key; value = value } in fact ∷ [])
    else []

abbrev pub has_key : String → List MatchingEnrichmentFact → Bool
has_key key [] = false
has_key key (f ∷ rest) = let later = has_key key rest in if str_eq f.key key then true else later

-- the facts whose key was not seen before
abbrev pub unseen : List String → List MatchingEnrichmentFact → List MatchingEnrichmentFact
unseen seen [] = []
unseen seen (f ∷ rest) =
    let later = unseen (if includes f.key seen then seen else f.key ∷ seen) rest in
    if includes f.key seen then later else f ∷ later

abbrev pub is_denial : AnnouncementNature → Bool
is_denial denial = true
is_denial _ = false

abbrev pub is_correction : AnnouncementNature → Bool
is_correction correction = true
is_correction _ = false

module _ (rt : Runtime) where
  abbrev pub first_version : Option String → Option String → Option String
  first_version named semver =
      if is_truthy named
      then some (normalize_token rt (or_else named ""))
      else if is_truthy semver
      then some (normalize_token rt (or_else semver ""))
      else none

  unfoldable pub extract_version : String → Option String
  extract_version text = first_version (rt.named_version text) (rt.semver text)

  abbrev pub first_nature : String → List AnnouncementNature → AnnouncementNature
  first_nature text [] = other
  first_nature text (nature ∷ rest) =
      let later = first_nature text rest in if rt.nature_pattern nature text then nature else later

  unfoldable pub extract_announcement_nature : String → AnnouncementNature
  extract_announcement_nature text = first_nature text nature_order

  unfoldable pub extract_product_or_org : String → Option String
  extract_product_or_org text = first_org (normalize_token rt text) known_orgs

  abbrev pub noun_entities : ℕ → List String → List String
  noun_entities min_length nouns =
      filter (λ token. leb min_length (text_length token) && not (is_stop_entity token))
        (map (normalize_token rt) nouns)

  unfoldable pub extract_entities : String → ℕ → List String
  extract_entities text min_length = sorted_unique (
      if_truthy (extract_product_or_org text)
      ++ if_truthy (extract_version text)
      ++ noun_entities min_length (rt.proper_nouns text))

  -- a fact whose value is the normalized group of a pattern
  abbrev pub normalized_fact : String → Option String → List MatchingEnrichmentFact
  normalized_fact prefix group =
      fact_when (is_truthy group) (append prefix (normalize_token rt (or_else group "")))
        (normalize_token rt (or_else group ""))

  abbrev pub price_fact : Option (Option String × Option String) → List MatchingEnrichmentFact
  price_fact none = []
  price_fact (some groups) =
      let value = normalize_token rt (or_else (or_option groups.0 groups.1) "") in
      fact_when (not (empty value)) (append "price:" value) value

  abbrev pub version_fact : Option String → List MatchingEnrichmentFact
  version_fact version =
      fact_when (is_truthy version) (append "version:" (or_else version "")) (or_else version "")

  abbrev pub all_facts : String → AnnouncementNature → Option String → List MatchingEnrichmentFact
  all_facts text nature version =
      version_fact version
      ++ normalized_fact "event_date:" (rt.explicit_date text)
      ++ fact_when (rt.says_ga text) "availability:ga" "ga"
      ++ fact_when (rt.says_preview text) "availability:preview" "preview"
      ++ fact_when (rt.says_waitlist text) "availability:waitlist" "waitlist"
      ++ normalized_fact "region:" (rt.region text)
      ++ price_fact (rt.price text)
      ++ fact_when (rt.says_delayed text) "status:delayed" "delayed"
      ++ fact_when (rt.says_cancelled text) "status:cancelled" "cancelled"
      ++ fact_when (rt.says_confirmed text) "status:confirmed" "confirmed"
      ++ fact_when (is_denial nature) "correction:denial" "denial"
      ++ fact_when (is_correction nature) "correction:erratum" "correction"

  unfoldable pub extract_fact_keys :
      MatchingArticleInput → AnnouncementNature → Option String → List MatchingEnrichmentFact
  extract_fact_keys article nature version =
      unseen [] (all_facts (collect_text article) nature version)

  unfoldable pub extract_article_facts : MatchingArticleInput → List MatchingEnrichmentFact
  extract_article_facts article =
      extract_fact_keys article (extract_announcement_nature (collect_text article))
        (extract_version (collect_text article))

  abbrev pub url_list : Option String → List String
  url_list none = []
  url_list (some url) = if empty url then [] else url ∷ []

  unfoldable pub extract_event_fingerprint :
      MatchingArticleInput → MatchingThresholds → EventFingerprint
  extract_event_fingerprint article thresholds = record {
    entities = extract_entities (collect_text article) thresholds.min_entity_token_length;
    product_or_org = extract_product_or_org (collect_text article);
    announcement_nature = some (extract_announcement_nature (collect_text article));
    version = extract_version (collect_text article);
    known_fact_keys =
        map (λ fact. fact.key)
          (extract_fact_keys article (extract_announcement_nature (collect_text article))
            (extract_version (collect_text article)));
    categories =
        sort_by text_le (filter (λ c. not (empty c)) (map (normalize_token rt) article.categories));
    canonical_urls = url_list (canonicalize_matching_url rt article.url);
    reference_date = article.published_at;
    best_source_tier = some article.source_tier;
  }

abbrev pub is_other : AnnouncementNature → Bool
is_other other = true
is_other _ = false

abbrev pub is_named_nature : Option AnnouncementNature → Bool
is_named_nature none = false
is_named_nature (some nature) = not (is_other nature)

unfoldable pub has_primary_information :
    MatchingArticleInput → EventFingerprint → MatchingThresholds → Bool
has_primary_information article fingerprint thresholds =
    if ltb (text_length (trim (join_spaces (collect_text article))))
      thresholds.min_primary_text_length
    then false
    else not (is_empty fingerprint.entities)
      || is_some fingerprint.product_or_org
      || is_named_nature fingerprint.announcement_nature
      || is_some fingerprint.version

-- `SOURCE_TIER_RANK`
abbrev pub tier_rank : MatchingSourceTier → ℕ
tier_rank tier_s = 6
tier_rank tier_a = 5
tier_rank tier_b = 4
tier_rank tier_c = 3
tier_rank tier_d = 2
tier_rank tier_e = 1

abbrev pub is_tier_strictly_higher : MatchingSourceTier → MatchingSourceTier → Bool
is_tier_strictly_higher left right = ltb (tier_rank right) (tier_rank left)
