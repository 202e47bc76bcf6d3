-- ===== src/Matching/Engine/Enriched.antt =====
-- The type of an enrichment that the engine proposes.
use radar_ia.Prelude.{
  ◌≡◌, refl, Bool, true, false, ◌&&◌, some, List, [], ◌∷◌, filter, arith, Bool-cases, inl, inr,
  is_empty, ltb, length,
}
use radar_ia.Prelude.Sort.{sort_by}
use radar_ia.Matching.Types.{
  MatchingDecisionIssue, create_dossier, attach_enrich, duplicate_editorial, ambiguous_no_action,
  MatchingArticleInput, EventFingerprint, MatchingCandidateFolder, MatchingThresholds,
  MatchingEvaluationResult, MatchingEnrichmentFact,
}
use radar_ia.Matching.Runtime.{Runtime}
use radar_ia.Matching.Report.{finalize}
use radar_ia.Matching.Signals.{extract_event_fingerprint, has_primary_information}
use radar_ia.Matching.Compare.Result.{enrichment_type_for}
use radar_ia.Matching.Engine.{
  ScoredCandidate, is_attachable, is_low_only, as_confident, score, comes_first, attach, decide_low,
  decide_plausible, decide, evaluate_article,
}
use radar_ia.Matching.Engine.Chosen.{is_attached, decide_low-not_attached}

-- new facts are proposed for a folder
abbrev pub is_enriching : MatchingDecisionIssue → Bool
is_enriching attach_enrich = true
is_enriching _ = false

-- the type is that of the facts that come with it
abbrev pub Typed : EventFingerprint → MatchingEvaluationResult → Type 0
Typed fp r =
    (facts : List MatchingEnrichmentFact) × (r.enrichment_facts ≡ some facts)
    × (is_empty facts ≡ false)
    × (r.enrichment_type ≡ some (enrichment_type_for fp.announcement_nature facts))

attach-Typed :
    (fp : EventFingerprint) (top : ScoredCandidate)
    → is_enriching (attach fp top).issue ≡ true
    → Typed fp (attach fp top)
unfolding attach finalize
attach-Typed fp top h = elim (Bool-cases (is_empty top.comparison.novel_facts)) [
  | inl known ↦ absurd (let h' = rw known at h in ground arith)
  | inr novel ↦ rw novel (top.comparison.novel_facts, refl, novel, refl)
]

is_enriching-attached : (i : MatchingDecisionIssue) → is_attached i ≡ false → is_enriching i ≡ false
is_enriching-attached create_dossier h = refl
is_enriching-attached attach_enrich h = ground arith
is_enriching-attached duplicate_editorial h = refl
is_enriching-attached ambiguous_no_action h = refl

decide-Typed :
    (article : MatchingArticleInput) (fp : EventFingerprint) (cs : List ScoredCandidate)
    → is_enriching (decide article fp cs).issue ≡ true
    → Typed fp (decide article fp cs)
unfolding decide finalize
decide-Typed article fp cs h = go (filter is_attachable cs) h
  where
    tied : List ScoredCandidate → ScoredCandidate → Bool
    tied ps top = ltb 1 (length ps) && ltb 1 (length (filter (λ c. as_confident top c) ps))

    go :
        (ps : List ScoredCandidate)
        → is_enriching (decide_plausible article fp cs ps).issue ≡ true
        → Typed fp (decide_plausible article fp cs ps)
    go [] e =
        let low = decide_low article cs (filter is_low_only cs) in
        let none_goes =
          is_enriching-attached low.issue
            (decide_low-not_attached article cs (filter is_low_only cs)) in
        absurd (ground (arith, none_goes))
    go (top ∷ rest) e = elim (Bool-cases (tied (top ∷ rest) top)) [
      | inl tie ↦ absurd (let e' = rw tie at e in ground arith)
      | inr no_tie ↦ rw no_tie (attach-Typed fp top (rw no_tie at e))
    ]

pub evaluate_article-Typed :
    (rt : Runtime) (article : MatchingArticleInput) (folders : List MatchingCandidateFolder)
    (t : MatchingThresholds)
    → is_enriching (evaluate_article rt article folders t).issue ≡ true
    → Typed (extract_event_fingerprint rt article t) (evaluate_article rt article folders t)
unfolding evaluate_article finalize
evaluate_article-Typed rt article folders t h =
    elim (Bool-cases (has_primary_information article fp t)) [
      | inl enough ↦ rw enough (decide-Typed article fp sorted (rw enough at h))
      | inr thin ↦ absurd (let h' = rw thin at h in ground arith)
    ]
  where
    fp : EventFingerprint
    fp = extract_event_fingerprint rt article t

    sorted : List ScoredCandidate
    sorted = sort_by (comes_first rt) (score rt article fp t folders)
