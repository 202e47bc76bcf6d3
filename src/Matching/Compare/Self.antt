-- ===== src/Matching/Compare/Self.antt =====
-- An article's fingerprint against itself.
use radar_ia.Prelude.{
  ◌≡◌, refl, String, Bool, true, false, Option, none, some, List, [], ◌∷◌, ◌==◌, map, filter,
  length, All, arith, eq_refl, is_empty,
}
use radar_ia.Matching.Types.{
  AnnouncementNature, launch, update, acquisition, paper, denial, availability, correction, other,
  MatchingArticleInput, EventFingerprint, MatchingEnrichmentFact, MatchingThresholds,
}
use radar_ia.Matching.Runtime.{Runtime}
use radar_ia.Matching.Text.{normalize_token}
use radar_ia.Matching.Compare.{
  Findings, natures_clash, natures_incompatible, among, shared_count, different_label, find_signals,
}
use radar_ia.Matching.Compare.Verdict.{weigh}
use radar_ia.Matching.Compare.Result.{is_novel, novel_facts}
use radar_ia.Matching.Signals.{extract_article_facts}

natures_clash_self : (a : AnnouncementNature) → natures_clash a a ≡ false
unfolding natures_clash
natures_clash_self launch = refl
natures_clash_self update = refl
natures_clash_self acquisition = refl
natures_clash_self paper = refl
natures_clash_self denial = refl
natures_clash_self availability = refl
natures_clash_self correction = refl
natures_clash_self other = refl

natures_incompatible_self : (a : Option AnnouncementNature) → natures_incompatible a a ≡ false
natures_incompatible_self none = refl
natures_incompatible_self (some a) = natures_clash_self a

different_label_self : (rt : Runtime) (a : Option String) → different_label rt a a ≡ false
different_label_self rt none = refl
different_label_self rt (some a) = rw (eq_refl (normalize_token rt a)) (ground arith)

module _ (rt : Runtime) where
  among-later :
      (x : String) (ys xs : List String)
      → All (λ y. among rt y ys ≡ true) xs
      → All (λ y. among rt y (x ∷ ys) ≡ true) xs
  among-later x ys [] h = tt
  among-later x ys (y ∷ rest) h = (ground (arith, h.0), among-later x ys rest h.1)

  among_self : (xs : List String) → All (λ y. among rt y xs ≡ true) xs
  among_self [] = tt
  among_self (x ∷ rest) =
      (rw (eq_refl (normalize_token rt x)) refl, among-later x rest rest (among_self rest))

  length-filter-All :
      (p : String → Bool) (xs : List String)
      → All (λ x. p x ≡ true) xs
      → length (filter p xs) ≡ length xs
  length-filter-All p [] h = refl
  length-filter-All p (x ∷ rest) h = ground (arith, h.0, length-filter-All p rest h.1)

  shared_count_self : (xs : List String) → shared_count rt xs xs ≡ length xs
  shared_count_self xs = length-filter-All (λ y. among rt y xs) xs (among_self xs)

length-is_empty : (xs : List String) → (length xs == 0) ≡ is_empty xs
length-is_empty [] = refl
length-is_empty (x ∷ rest) = ground arith

different_entities_self :
    (rt : Runtime) (article : MatchingArticleInput) (a : EventFingerprint) (t : MatchingThresholds)
    → (find_signals rt article a a t).different_entities ≡ false
unfolding find_signals
different_entities_self rt article a t =
    rw (shared_count_self rt a.entities) (rw (length-is_empty a.entities) (ground arith))

weigh-clear :
    (s : Findings)
    → s.different_product ≡ false
    → s.incompatible_nature ≡ false
    → s.different_version ≡ false
    → s.different_entities ≡ false
    → (weigh s).blocking_conflict ≡ false
unfolding weigh
weigh-clear s p n v e = ground arith

-- nothing in an article's own fingerprint speaks against it
pub weigh_self :
    (rt : Runtime) (article : MatchingArticleInput) (a : EventFingerprint) (t : MatchingThresholds)
    → (weigh (find_signals rt article a a t)).blocking_conflict ≡ false
unfolding find_signals
weigh_self rt article a t =
    weigh-clear (find_signals rt article a a t) (different_label_self rt a.product_or_org)
      (natures_incompatible_self a.announcement_nature) (different_label_self rt a.version)
      (different_entities_self rt article a t)

-- no fact is new to a folder that has its key
among-novel :
    (rt : Runtime) (known : List String) (facts : List MatchingEnrichmentFact)
    → All (λ key. among rt key known ≡ true) (map (λ f. f.key) facts)
    → filter (λ f. is_novel rt known f) facts ≡ []
among-novel rt known [] h = refl
among-novel rt known (f ∷ rest) h = ground (arith, h.0, among-novel rt known rest h.1)

pub novel_facts_self :
    (rt : Runtime) (article : MatchingArticleInput)
    → novel_facts rt article (map (λ f. f.key) (extract_article_facts rt article)) ≡ []
unfolding novel_facts
novel_facts_self rt article =
    among-novel rt (map (λ f. f.key) (extract_article_facts rt article))
      (extract_article_facts rt article)
      (among_self rt (map (λ f. f.key) (extract_article_facts rt article)))
