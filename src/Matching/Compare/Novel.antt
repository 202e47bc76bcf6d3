-- ===== src/Matching/Compare/Novel.antt =====
-- The facts that are new to a folder.
use radar_ia.Prelude.{
  ◌≡◌, refl, String, Bool, true, false, List, [], ◌∷◌, filter, All, includes, arith, Bool-cases,
  inl, inr, str_eq, eq_iff, eq_refl,
}
use radar_ia.Matching.Types.{MatchingArticleInput, MatchingEnrichmentFact}
use radar_ia.Matching.Runtime.{Runtime}
use radar_ia.Matching.Compare.{among}
use radar_ia.Matching.Compare.Result.{is_novel, novel_facts}
use radar_ia.Matching.Signals.{
  has_key, unseen, all_facts, collect_text, extract_fact_keys, extract_article_facts,
  extract_version, extract_announcement_nature,
}

-- no two facts have the same key
abbrev pub Distinct : List MatchingEnrichmentFact → Type 0
Distinct [] = Unit
Distinct (f ∷ rest) = (has_key f.key rest ≡ false) × Distinct rest

has_key-unseen :
    (key : String) (seen : List String) (facts : List MatchingEnrichmentFact)
    → includes key seen ≡ true
    → has_key key (unseen seen facts) ≡ false
has_key-unseen key seen [] h = refl
has_key-unseen key seen (f ∷ rest) h = elim (Bool-cases (includes f.key seen)) [
  | inl old ↦ rw old (has_key-unseen key seen rest h)
  | inr fresh ↦ elim (Bool-cases (str_eq f.key key)) [
    | inl same ↦
        let e = (eq_iff f.key key).0 same in
        let both : includes f.key seen ≡ true = rw e h in absurd (ground arith)
    | inr apart ↦
        let more : includes key (f.key ∷ seen) ≡ true = ground arith in
        rw fresh (rw apart (has_key-unseen key (f.key ∷ seen) rest more))
  ]
]

unseen-Distinct :
    (seen : List String) (facts : List MatchingEnrichmentFact) → Distinct (unseen seen facts)
unseen-Distinct seen [] = tt
unseen-Distinct seen (f ∷ rest) = elim (Bool-cases (includes f.key seen)) [
  | inl old ↦ rw old (unseen-Distinct seen rest)
  | inr fresh ↦
      let own : includes f.key (f.key ∷ seen) ≡ true = rw (eq_refl f.key) refl in
      rw fresh (has_key-unseen f.key (f.key ∷ seen) rest own, unseen-Distinct (f.key ∷ seen) rest)
]

has_key-filter :
    (p : MatchingEnrichmentFact → Bool) (key : String) (facts : List MatchingEnrichmentFact)
    → has_key key facts ≡ false
    → has_key key (filter p facts) ≡ false
has_key-filter p key [] h = refl
has_key-filter p key (f ∷ rest) h = ground (arith, has_key-filter p key rest)

filter-Distinct :
    (p : MatchingEnrichmentFact → Bool) (facts : List MatchingEnrichmentFact)
    → Distinct facts
    → Distinct (filter p facts)
filter-Distinct p [] d = tt
filter-Distinct p (f ∷ rest) d = elim (Bool-cases (p f)) [
  | inl kept ↦ rw kept (has_key-filter p f.key rest d.0, filter-Distinct p rest d.1)
  | inr dropped ↦ rw dropped (filter-Distinct p rest d.1)
]

filter-novel :
    (rt : Runtime) (known : List String) (facts : List MatchingEnrichmentFact)
    → All (λ f. among rt f.key known ≡ false) (filter (λ f. is_novel rt known f) facts)
filter-novel rt known [] = tt
filter-novel rt known (f ∷ rest) = elim (Bool-cases (is_novel rt known f)) [
  | inl novel ↦ rw novel (ground arith, filter-novel rt known rest)
  | inr old ↦ rw old (filter-novel rt known rest)
]

-- The facts with which an article would enrich a folder have distinct keys, and none of the keys,
-- normalized, is one that the folder knows.
pub novel_facts-Distinct :
    (rt : Runtime) (article : MatchingArticleInput) (known : List String)
    → Distinct (novel_facts rt article known)
      × All (λ f. among rt f.key known ≡ false) (novel_facts rt article known)
unfolding novel_facts extract_article_facts extract_fact_keys
novel_facts-Distinct rt article known = (
  filter-Distinct (λ f. is_novel rt known f) (extract_article_facts rt article)
      (unseen-Distinct [] facts),
  filter-novel rt known (extract_article_facts rt article),
)
  where
    facts : List MatchingEnrichmentFact
    facts =
        all_facts rt (collect_text article) (extract_announcement_nature rt (collect_text article))
          (extract_version rt (collect_text article))
