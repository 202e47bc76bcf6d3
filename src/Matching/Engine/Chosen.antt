-- ===== src/Matching/Engine/Chosen.antt =====
-- The folder that an article is attached to.
use radar_ia.Prelude.{
  ◌≡◌, refl, ◌∙◌, subst, Bool, true, false, ◌&&◌, some, List, [], ◌∷◌, leb, ltb, filter, All, arith,
  Bool-cases, inl, inr, length, is_empty, if◌then◌else◌,
}
use radar_ia.Prelude.Sort.{sort_by, Sorted, sort_by-Sorted, filter-sort_by}
use radar_ia.Matching.Types.{
  MatchingDecisionIssue, attach_enrich, duplicate_editorial, MatchingArticleInput, EventFingerprint,
  MatchingCandidateFolder, MatchingThresholds, MatchingEvaluationResult,
}
use radar_ia.Matching.Runtime.{Runtime}
use radar_ia.Matching.Report.{finalize}
use radar_ia.Matching.Signals.{extract_event_fingerprint, has_primary_information}
use radar_ia.Matching.Engine.{
  ScoredCandidate, rank, is_attachable, is_low_only, is_blocked_distinct, is_unclear_conflict,
  as_confident, score, comes_first, attach, decide_conflicts, decide_low, decide_plausible, decide,
  evaluate_article,
}
use radar_ia.Matching.Engine.Candidates.{Scored, score-Scored}

-- the article goes into an existing folder
abbrev pub is_attached : MatchingDecisionIssue → Bool
is_attached attach_enrich = true
is_attached duplicate_editorial = true
is_attached _ = false

-- a plausible candidate with at least the confidence of `top`
abbrev pub rivals : ScoredCandidate → ScoredCandidate → Bool
rivals top c = is_attachable c && leb (rank top) (rank c)

-- the order of the candidates by confidence alone
abbrev pub ranks_first : ScoredCandidate → ScoredCandidate → Bool
ranks_first a b = leb (rank b) (rank a)

All-filter_kept :
    (P : ScoredCandidate → Type 0) (p : ScoredCandidate → Bool) (cs : List ScoredCandidate)
    → All P cs
    → All P (filter p cs)
All-filter_kept P p [] h = tt
All-filter_kept P p (c ∷ rest) h = elim (Bool-cases (p c)) [
  | inl kept ↦ rw kept (h.0, All-filter_kept P p rest h.1)
  | inr dropped ↦ rw dropped (All-filter_kept P p rest h.1)
]

filter-Sorted :
    (p : ScoredCandidate → Bool) (cs : List ScoredCandidate)
    → Sorted ranks_first cs
    → Sorted ranks_first (filter p cs)
filter-Sorted p [] s = tt
filter-Sorted p (c ∷ rest) s = elim (Bool-cases (p c)) [
  | inl kept ↦
      rw kept (All-filter_kept (λ d. ranks_first c d ≡ true) p rest s.0, filter-Sorted p rest s.1)
  | inr dropped ↦ rw dropped (filter-Sorted p rest s.1)
]

-- among candidates that follow `top`, a rival is one as confident
filter-rivals :
    (top : ScoredCandidate) (cs : List ScoredCandidate)
    → All (λ d. ranks_first top d ≡ true) (filter is_attachable cs)
    → filter (rivals top) cs ≡ filter (as_confident top) (filter is_attachable cs)
filter-rivals top [] h = refl
filter-rivals top (c ∷ rest) h = elim (Bool-cases (is_attachable c)) [
  | inl plausible ↦
      let kept : All (λ d. ranks_first top d ≡ true)
          (if is_attachable c then c ∷ filter is_attachable rest else filter is_attachable rest) =
        h in
      let split = rw plausible at kept in ground (arith, split.0, filter-rivals top rest split.1)
  | inr not_plausible ↦
      let kept : All (λ d. ranks_first top d ≡ true)
          (if is_attachable c then c ∷ filter is_attachable rest else filter is_attachable rest) =
        h in
      rw not_plausible (filter-rivals top rest (rw not_plausible at kept))
]

as_confident_self : (top : ScoredCandidate) → as_confident top top ≡ true
as_confident_self top = ground arith

-- where the decision sees no tie, nobody is as confident as the first
filter-no_tie :
    (top : ScoredCandidate) (rest : List ScoredCandidate)
    → (ltb 1 (length (top ∷ rest))
        && ltb 1 (length (filter (λ c. as_confident top c) (top ∷ rest))))
      ≡ false
    → filter (as_confident top) (top ∷ rest) ≡ top ∷ []
filter-no_tie top [] h = rw (as_confident_self top) refl
filter-no_tie top (c ∷ rest) h = go (filter (as_confident top) (c ∷ rest)) refl
  where
    go :
        (xs : List ScoredCandidate)
        → filter (as_confident top) (c ∷ rest) ≡ xs
        → filter (as_confident top) (top ∷ c ∷ rest) ≡ top ∷ []
    go [] e = rw (as_confident_self top) (rw e refl)
    go (x ∷ xs) e =
        let two : filter (as_confident top) (top ∷ c ∷ rest) ≡ top ∷ x ∷ xs =
          rw (as_confident_self top) (rw e refl) in
        let tied = rw two at h in absurd (ground arith)

-- the result names the candidate c, the only one that is plausible with that confidence
abbrev pub Best : List ScoredCandidate → MatchingEvaluationResult → ScoredCandidate → Type 0
Best cs r c =
    (filter (rivals c) cs ≡ c ∷ [])
    × (r.folder_id ≡ some c.folder.id)
    × (r.confidence ≡ c.comparison.confidence)

attach-Best :
    (fp : EventFingerprint) (top : ScoredCandidate)
    → ((attach fp top).folder_id ≡ some top.folder.id)
      × ((attach fp top).confidence ≡ top.comparison.confidence)
unfolding attach finalize
attach-Best fp top = elim (Bool-cases (is_empty top.comparison.novel_facts)) [
  | inl known ↦ rw known (refl, refl)
  | inr novel ↦ rw novel (refl, refl)
]

pub decide_low-not_attached :
    (article : MatchingArticleInput) (cs ls : List ScoredCandidate)
    → is_attached (decide_low article cs ls).issue ≡ false
unfolding finalize
decide_low-not_attached article cs (best ∷ rest) = refl
decide_low-not_attached article cs [] =
    go (filter is_blocked_distinct cs) (filter is_unclear_conflict cs)
  where
    go : (bs us : List ScoredCandidate) → is_attached (decide_conflicts article bs us).issue ≡ false
    go bs [] = refl
    go [] (u ∷ us) = refl
    go (b ∷ bs) (u ∷ us) = refl

decide-Best :
    (article : MatchingArticleInput) (fp : EventFingerprint) (cs : List ScoredCandidate)
    → Sorted ranks_first cs
    → is_attached (decide article fp cs).issue ≡ true
    → (c : ScoredCandidate) × Best cs (decide article fp cs) c
unfolding decide finalize
decide-Best article fp cs sorted = go (filter is_attachable cs) refl
  where
    tied : List ScoredCandidate → ScoredCandidate → Bool
    tied ps top = ltb 1 (length ps) && ltb 1 (length (filter (λ c. as_confident top c) ps))

    followed :
        (top : ScoredCandidate) (rest : List ScoredCandidate)
        → filter is_attachable cs ≡ top ∷ rest
        → All (λ d. ranks_first top d ≡ true) (filter is_attachable cs)
    followed top rest e =
        let s : Sorted ranks_first (top ∷ rest) =
          subst (λ ps. Sorted ranks_first ps) e (filter-Sorted is_attachable cs sorted) in
        rw e (ground arith, s.0)

    go :
        (ps : List ScoredCandidate)
        → filter is_attachable cs ≡ ps
        → is_attached (decide_plausible article fp cs ps).issue ≡ true
        → (c : ScoredCandidate) × Best cs (decide_plausible article fp cs ps) c
    go [] e h = ground (arith, decide_low-not_attached article cs (filter is_low_only cs))
    go (top ∷ rest) e h = elim (Bool-cases (tied (top ∷ rest) top)) [
      | inl tie ↦ absurd (let h' = rw tie at h in ground arith)
      | inr no_tie ↦ rw no_tie (
        top,
        (
          filter-rivals top cs (followed top rest e) ∙ rw e (filter-no_tie top rest no_tie),
          (attach-Best fp top).0,
          (attach-Best fp top).1,
        ),
      )
    ]

one-rival :
    (P : ScoredCandidate → Type 0) (p : ScoredCandidate → Bool) (cs : List ScoredCandidate)
    (c : ScoredCandidate)
    → filter p cs ≡ c ∷ []
    → All P cs
    → P c × (p c ≡ true)
one-rival P p [] c e h = ground arith
one-rival P p (d ∷ rest) c e h = elim (Bool-cases (p d)) [
  | inl kept ↦ let same : d ≡ c = ground arith in (subst P same h.0, rw (← same) kept)
  | inr dropped ↦
      let later : filter p rest ≡ c ∷ [] = ground arith in one-rival P p rest c later h.1
]

-- An article that is attached to a folder, to enrich it or as a duplicate, goes to a candidate that
-- is open, whose comparison blocks nothing and has a high or medium confidence, the one reported; and
-- no other open candidate without a blocking conflict has that confidence or a higher one.
pub evaluate_article-Best :
    (rt : Runtime) (article : MatchingArticleInput) (folders : List MatchingCandidateFolder)
    (t : MatchingThresholds)
    → is_attached (evaluate_article rt article folders t).issue ≡ true
    → (c : ScoredCandidate) × Best
        (score rt article (extract_event_fingerprint rt article t) t folders)
        (evaluate_article rt article folders t)
        c
      × Scored rt article (extract_event_fingerprint rt article t) t c
      × (is_attachable c ≡ true)
unfolding evaluate_article finalize
evaluate_article-Best rt article folders t h =
    elim (Bool-cases (has_primary_information article fp t)) [
      | inl enough ↦ rw enough (found (decide-Best article fp sorted in_order (rw enough at h)))
      | inr thin ↦ absurd (let h' = rw thin at h in ground arith)
    ]
  where
    fp : EventFingerprint
    fp = extract_event_fingerprint rt article t

    scored : List ScoredCandidate
    scored = score rt article fp t folders

    sorted : List ScoredCandidate
    sorted = sort_by (comes_first rt) scored

    in_order : Sorted ranks_first sorted
    in_order =
        sort_by-Sorted (comes_first rt) ranks_first (λ a b e. ground arith) (λ a b e. ground arith)
          (λ a b c e f. ground arith) scored

    found :
        (c : ScoredCandidate) × Best sorted (decide article fp sorted) c
        → (c : ScoredCandidate) × Best scored (decide article fp sorted) c
          × Scored rt article fp t c
          × (is_attachable c ≡ true)
    found best =
        let c = best.0 in
        let alone = filter-sort_by (comes_first rt) (rivals c) scored c best.1.0 in
        let is_one =
          one-rival (Scored rt article fp t) (rivals c) scored c alone
            (score-Scored rt article fp t folders) in
        (c, (alone, best.1.1, best.1.2), is_one.0, ground (arith, is_one.1))
