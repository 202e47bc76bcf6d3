-- ===== src/Matching/Engine/Candidates.antt =====
-- The candidates that the engine scores.
use radar_ia.Prelude.{
  ◌≡◌, refl, Bool, true, false, not, ◌&&◌, List, [], ◌∷◌, ◌==◌, any, All, arith, Bool-cases, inl,
  inr,
}
use radar_ia.Matching.Types.{
  no_confidence, MatchingArticleInput, EventFingerprint, MatchingCandidateFolder,
  MatchingThresholds,
}
use radar_ia.Matching.Runtime.{Runtime}
use radar_ia.Matching.Compare.{FingerprintComparison, find_signals}
use radar_ia.Matching.Compare.Verdict.Laws.{weigh-distinct, judge-blocking}
use radar_ia.Matching.Compare.Result.{compare_fingerprints}
use radar_ia.Matching.Engine.{ScoredCandidate, rank_confidence, rank, is_closed, score}

-- what blocks is distinct, and has no confidence
abbrev pub Consistent : FingerprintComparison → Type 0
Consistent c =
    (c.clearly_distinct ≡ c.blocking_conflict)
    × (c.blocking_conflict ≡ true → c.confidence ≡ no_confidence)

pub compare_fingerprints-Consistent :
    (rt : Runtime) (article : MatchingArticleInput) (a f : EventFingerprint)
    (t : MatchingThresholds)
    → Consistent (compare_fingerprints rt article a f t)
unfolding compare_fingerprints
compare_fingerprints-Consistent rt article a f t =
    (weigh-distinct (find_signals rt article a f t), judge-blocking (find_signals rt article a f t))

-- some confidence that the article belongs to the folder
abbrev pub is_hopeful : ScoredCandidate → Bool
is_hopeful c = not (rank c == 0)

module _ (rt : Runtime) (article : MatchingArticleInput) (fp : EventFingerprint)
    (t : MatchingThresholds) where
  -- a folder that is open and compares with some confidence
  abbrev pub is_credible : MatchingCandidateFolder → Bool
  is_credible f =
      not (is_closed f.status)
      && not (rank_confidence (compare_fingerprints rt article fp f.fingerprint t).confidence == 0)

  -- a candidate is an open folder with its comparison
  abbrev pub Scored : ScoredCandidate → Type 0
  Scored c =
      (is_closed c.folder.status ≡ false)
      × (c.comparison ≡ compare_fingerprints rt article fp c.folder.fingerprint t)

  pub score-Scored :
      (folders : List MatchingCandidateFolder) → All Scored (score rt article fp t folders)
  unfolding score
  score-Scored [] = tt
  score-Scored (f ∷ rest) = elim (Bool-cases (is_closed f.status)) [
    | inl shut ↦ rw shut (score-Scored rest)
    | inr open_one ↦ rw open_one ((open_one, refl), score-Scored rest)
  ]

  pub score-Consistent :
      (folders : List MatchingCandidateFolder)
      → All (λ c. Consistent c.comparison) (score rt article fp t folders)
  unfolding score
  score-Consistent [] = tt
  score-Consistent (f ∷ rest) = elim (Bool-cases (is_closed f.status)) [
    | inl shut ↦ rw shut (score-Consistent rest)
    | inr open_one ↦
        rw open_one
          (compare_fingerprints-Consistent rt article fp f.fingerprint t, score-Consistent rest)
  ]

  pub any-score :
      (folders : List MatchingCandidateFolder)
      → any is_hopeful (score rt article fp t folders) ≡ any is_credible folders
  unfolding score
  any-score [] = refl
  any-score (f ∷ rest) = ground (arith, any-score rest)
