-- ===== src/Matching/Engine/Create.antt =====
-- When a new folder is proposed.
use radar_ia.Prelude.{
  ◌≡◌, ◌≤◌, refl, ◌∙◌, Bool, true, false, not, ◌&&◌, List, [], ◌∷◌, any, filter, All, arith,
  Bool-cases, inl, inr,
}
use radar_ia.Prelude.Sort.{sort_by, any-sort_by, All-sort_by}
use radar_ia.Matching.Types.{
  MatchingConfidence, high, medium, low, no_confidence, MatchingDecisionIssue, create_dossier,
  MatchingArticleInput, EventFingerprint, MatchingCandidateFolder, MatchingThresholds,
}
use radar_ia.Matching.Runtime.{Runtime}
use radar_ia.Matching.Report.{finalize}
use radar_ia.Matching.Signals.{extract_event_fingerprint, has_primary_information}
use radar_ia.Matching.Engine.{
  ScoredCandidate, rank_confidence, is_attachable, is_low_only, is_unclear_conflict, score,
  comes_first, attach, decide_low, decide_plausible, decide, evaluate_article,
}
use radar_ia.Matching.Engine.Candidates.{
  Consistent, is_hopeful, is_credible, score-Consistent, any-score,
}

-- a new folder is proposed
abbrev pub is_create : MatchingDecisionIssue → Bool
is_create create_dossier = true
is_create _ = false

-- a candidate without hope is in no list that the decision looks at
hopeless :
    (c : ScoredCandidate)
    → Consistent c.comparison
    → is_hopeful c ≡ false
    → (is_attachable c ≡ false) × (is_low_only c ≡ false) × (is_unclear_conflict c ≡ false)
hopeless c consistent h = (ground arith, ground arith, ground (arith, consistent.0))

rank-bound : (k : MatchingConfidence) → rank_confidence k ≤ 3
rank-bound high = omega arith
rank-bound medium = omega arith
rank-bound low = omega arith
rank-bound no_confidence = omega arith

-- and one with hope is plausible or low
hopeful :
    (c : ScoredCandidate)
    → Consistent c.comparison
    → is_attachable c ≡ false
    → is_low_only c ≡ false
    → is_hopeful c ≡ false
hopeful c consistent a l = elim (Bool-cases c.comparison.blocking_conflict) [
  | inl blocked ↦ rw (consistent.1 blocked) refl
  | inr clear ↦
      let clear_too : c.comparison.clearly_distinct ≡ false = consistent.0 ∙ clear in
      ground (arith, rank-bound c.comparison.confidence)
]

filter-none :
    (p : ScoredCandidate → Bool) (cs : List ScoredCandidate)
    → All (λ c. p c ≡ false) cs
    → filter p cs ≡ []
filter-none p [] h = refl
filter-none p (c ∷ rest) h = rw h.0 (filter-none p rest h.1)

All-Consistent_hopeless :
    (p : ScoredCandidate → Bool) (cs : List ScoredCandidate)
    → ((c : ScoredCandidate) → Consistent c.comparison → is_hopeful c ≡ false → p c ≡ false)
    → All (λ c. Consistent c.comparison) cs
    → any is_hopeful cs ≡ false
    → All (λ c. p c ≡ false) cs
All-Consistent_hopeless p [] out consistent h = tt
All-Consistent_hopeless p (c ∷ rest) out consistent h = (
  out c consistent.0 (ground arith),
  All-Consistent_hopeless p rest out consistent.1 (ground arith),
)

any-hopeful :
    (cs : List ScoredCandidate)
    → All (λ c. Consistent c.comparison) cs
    → filter is_attachable cs ≡ []
    → filter is_low_only cs ≡ []
    → any is_hopeful cs ≡ false
any-hopeful [] consistent a l = refl
any-hopeful (c ∷ rest) consistent a l = elim (Bool-cases (is_attachable c)) [
  | inl plausible ↦ ground arith
  | inr not_plausible ↦ elim (Bool-cases (is_low_only c)) [
    | inl low_one ↦ ground arith
    | inr not_low ↦
        ground (arith, hopeful c consistent.0 not_plausible not_low, any-hopeful rest consistent.1)
  ]
]

attach-no_create :
    (fp : EventFingerprint) (best : ScoredCandidate) → is_create (attach fp best).issue ≡ false
unfolding attach finalize
attach-no_create fp best = ground arith

decide-create :
    (article : MatchingArticleInput) (fp : EventFingerprint) (cs : List ScoredCandidate)
    → All (λ c. Consistent c.comparison) cs
    → is_create (decide article fp cs).issue ≡ not (any is_hopeful cs)
unfolding decide finalize
decide-create article fp cs consistent = elim (Bool-cases (any is_hopeful cs)) [
  | inl some_hope ↦ rw some_hope (with_hope some_hope)
  | inr no_hope ↦ rw no_hope (
      rw
        (filter-none is_attachable cs (
          All-Consistent_hopeless is_attachable cs (λ c k h. (hopeless c k h).0) consistent
            no_hope))
        (rw
          (filter-none is_low_only cs (
            All-Consistent_hopeless is_low_only cs (λ c k h. (hopeless c k h).1) consistent
              no_hope))
          (rw
            (filter-none is_unclear_conflict cs (
              All-Consistent_hopeless is_unclear_conflict cs (λ c k h. (hopeless c k h).2)
                consistent no_hope))
            refl)))
]
  where
    low_part :
        (ls : List ScoredCandidate)
        → filter is_attachable cs ≡ []
        → filter is_low_only cs ≡ ls
        → any is_hopeful cs ≡ true
        → is_create (decide_low article cs ls).issue ≡ false
    low_part [] a l h = ground (arith, any-hopeful cs consistent a l)
    low_part (best ∷ rest) a l h = refl

    plausible_part :
        (ps : List ScoredCandidate)
        → filter is_attachable cs ≡ ps
        → any is_hopeful cs ≡ true
        → is_create (decide_plausible article fp cs ps).issue ≡ false
    plausible_part [] a h = low_part (filter is_low_only cs) a refl h
    plausible_part (top ∷ rest) a h = ground (arith, attach-no_create fp top)

    with_hope : any is_hopeful cs ≡ true → is_create (decide article fp cs).issue ≡ false
    with_hope h = plausible_part (filter is_attachable cs) refl h

-- A new folder is proposed exactly when the article has primary information and no open folder
-- compares with it with any confidence.
pub evaluate_article-create :
    (rt : Runtime) (article : MatchingArticleInput) (folders : List MatchingCandidateFolder)
    (t : MatchingThresholds)
    → is_create (evaluate_article rt article folders t).issue ≡ (
        has_primary_information article (extract_event_fingerprint rt article t) t
        && not (any (is_credible rt article (extract_event_fingerprint rt article t) t) folders))
unfolding evaluate_article finalize
evaluate_article-create rt article folders t =
    elim (Bool-cases (has_primary_information article fp t)) [
      | inl enough ↦ rw enough (
          decide-create article fp sorted (
            All-sort_by (λ c. Consistent c.comparison) (comes_first rt) scored
              (score-Consistent rt article fp t folders))
          ∙ rw (any-sort_by (comes_first rt) is_hopeful scored)
              (rw (any-score rt article fp t folders) refl))
      | inr thin ↦ rw thin refl
    ]
  where
    fp : EventFingerprint
    fp = extract_event_fingerprint rt article t

    scored : List ScoredCandidate
    scored = score rt article fp t folders

    sorted : List ScoredCandidate
    sorted = sort_by (comes_first rt) scored
