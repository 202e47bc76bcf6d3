-- ===== src/Matching/Compare/Verdict.antt =====
-- matching-signals.ts: the signals, conflicts and confidence that the findings of a comparison give.
pub mod Laws
use radar_ia.Prelude.{
  String, Bool, true, false, not, ◌&&◌, ◌||◌, List, [], ◌∷◌, ◌++◌, includes, if◌then◌else◌,
}
use radar_ia.Matching.Types.{MatchingConfidence, high, medium, low, no_confidence}
use radar_ia.Matching.Compare.{Findings}

-- the variables that the comparison assigns
pub record Verdict : Type 0 where
  pub favorable : List String
  pub unfavorable : List String
  pub blocking_conflict : Bool
  pub clearly_distinct : Bool

abbrev pub no_verdict : Verdict
no_verdict = record {
  favorable = [];
  unfavorable = [];
  blocking_conflict = false;
  clearly_distinct = false;
}

-- `favorable.push(signal)` under a condition
abbrev pub favor : String → Bool → Verdict → Verdict
favor signal b v = record {
  favorable = v.favorable ++ (if b then signal ∷ [] else []);
  unfavorable = v.unfavorable;
  blocking_conflict = v.blocking_conflict;
  clearly_distinct = v.clearly_distinct;
}

-- `unfavorable.push(signal); blockingConflict = true; clearlyDistinct = true` under a condition
abbrev pub oppose : String → Bool → Verdict → Verdict
oppose signal b v = record {
  favorable = v.favorable;
  unfavorable = v.unfavorable ++ (if b then signal ∷ [] else []);
  blocking_conflict = if b then true else v.blocking_conflict;
  clearly_distinct = if b then true else v.clearly_distinct;
}

-- the pushes in the order of the code; a label that is the same is not tested for a difference
unfoldable pub weigh : Findings → Verdict
weigh s = oppose "different_entities" s.different_entities (
    favor "higher_source_tier" s.higher_tier (
      favor "temporal_proximity" s.near (
        favor "category_overlap" s.category_overlap (
          oppose "different_version" (not s.same_version && s.different_version) (
            favor "same_version" s.same_version (
              oppose "incompatible_announcement_nature" s.incompatible_nature (
                favor "same_announcement_nature" s.same_nature (
                  oppose "different_product_org" (not s.same_product && s.different_product) (
                    favor "same_product_org" s.same_product (
                      favor "same_entities" s.same_entities
                        (favor "same_canonical_url" s.same_url no_verdict)))))))))))

abbrev pub strong_core : Findings → Bool
strong_core s =
    s.same_url
    || (s.same_entities && s.same_nature && s.same_version)
    || (s.same_product && s.same_nature && s.same_version)
    || (s.same_entities && s.same_version && s.same_product)

-- `near` is what `favorable.includes("temporal_proximity")` asks
abbrev pub medium_core : Findings → Bool → Bool
medium_core s blocking =
    (s.same_entities && s.same_nature)
    || (s.same_entities && s.same_version)
    || (s.same_product && s.same_nature && s.near)
    || (s.same_url && not blocking)

abbrev pub theme_only : Findings → Bool
theme_only s =
    not s.same_entities
    && not s.same_product
    && not s.same_nature
    && not s.same_version
    && not s.same_url

abbrev pub is_some_confidence : MatchingConfidence → Bool
is_some_confidence no_confidence = false
is_some_confidence _ = true

-- the confidence before the last correction, with the signal that its lowest branch adds
abbrev pub first_confidence : Findings → Verdict → MatchingConfidence × List String
first_confidence s v =
    if v.blocking_conflict
    then (if v.clearly_distinct then no_confidence else low, [])
    else if strong_core s || (s.same_url && s.same_entities)
    then (high, [])
    else if medium_core s v.blocking_conflict
    then (medium, [])
    else if s.same_entities || s.same_product || s.category_overlap || s.near
    then (low, if theme_only s then "theme_or_category_only" ∷ [] else [])
    else (no_confidence, [])

-- a theme without the identity of an event stays low
abbrev pub corrected :
    Findings → MatchingConfidence × List String → MatchingConfidence × List String
corrected s first =
    if is_some_confidence first.0 && theme_only s
    then (low, first.1 ++ ("insufficient_event_identity" ∷ []))
    else first

-- the confidence and the unfavorable signals
unfoldable pub judge : Findings → MatchingConfidence × List String
judge s =
    let last = corrected s (first_confidence s (weigh s)) in
    (last.0, (weigh s).unfavorable ++ last.1)
