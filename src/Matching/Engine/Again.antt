-- ===== src/Matching/Engine/Again.antt =====
-- An article that comes again.
use radar_ia.Prelude.{◌≡◌, refl, String, true, false, some, [], ◌∷◌, eq_refl, head?}
use radar_ia.Matching.Types.{
  high, duplicate_editorial, MatchingArticleInput, EventFingerprint, MatchingCandidateFolder,
  MatchingThresholds,
}
use radar_ia.Matching.Runtime.{Runtime}
use radar_ia.Matching.Text.{empty, canonicalize_matching_url}
use radar_ia.Matching.Signals.{
  extract_event_fingerprint, extract_article_facts, has_primary_information,
}
use radar_ia.Matching.Compare.{find_signals, has_url}
use radar_ia.Matching.Compare.Verdict.Laws.{judge-high_url}
use radar_ia.Matching.Compare.Result.{compare_fingerprints}
use radar_ia.Matching.Compare.Self.{weigh_self, novel_facts_self}
use radar_ia.Matching.Report.{finalize}
use radar_ia.Matching.Engine.{is_closed, score, decide, attach, evaluate_article}

module _ (rt : Runtime) (article : MatchingArticleInput) (t : MatchingThresholds) (url : String)
    (filled : empty url ≡ false) (parsed : canonicalize_matching_url rt article.url ≡ some url)
    (stable : canonicalize_matching_url rt url ≡ some url) where
  abbrev fp : EventFingerprint
  fp = extract_event_fingerprint rt article t

  same_url_self : has_url rt (head? fp.canonical_urls) fp.canonical_urls ≡ true
  unfolding extract_event_fingerprint
  same_url_self = rw parsed (rw filled (rw stable (rw (eq_refl url) refl)))

  high_self : (compare_fingerprints rt article fp fp t).confidence ≡ high
  unfolding compare_fingerprints find_signals
  high_self =
      judge-high_url (find_signals rt article fp fp t) (weigh_self rt article fp t) same_url_self

  clear_self : (compare_fingerprints rt article fp fp t).blocking_conflict ≡ false
  unfolding compare_fingerprints
  clear_self = weigh_self rt article fp t

  known_self : (compare_fingerprints rt article fp fp t).novel_facts ≡ []
  unfolding compare_fingerprints extract_event_fingerprint extract_article_facts
  known_self = novel_facts_self rt article

  -- Where the article has primary information and a URL whose canonical form is its own, an open
  -- folder with the article's own fingerprint takes the same article as a duplicate, with a high
  -- confidence, if it is the only candidate.
  pub evaluate_article-again :
      (folder : MatchingCandidateFolder)
      → is_closed folder.status ≡ false
      → folder.fingerprint ≡ fp
      → has_primary_information article fp t ≡ true
      → ((evaluate_article rt article (folder ∷ []) t).issue ≡ duplicate_editorial)
        × ((evaluate_article rt article (folder ∷ []) t).folder_id ≡ some folder.id)
        × ((evaluate_article rt article (folder ∷ []) t).confidence ≡ high)
  unfolding evaluate_article score decide attach finalize
  evaluate_article-again folder open_one same enough =
      rw enough
        (rw open_one (rw same (rw clear_self (rw high_self (rw known_self (refl, refl, refl))))))
