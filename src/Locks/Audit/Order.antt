-- ===== src/Locks/Audit/Order.antt =====
-- How the log of administrative operations is listed.
use radar_ia.Prelude.{
  ◌≡◌, ◌<◌, refl, ◌⊎◌, inl, inr, ℕ, String, true, false, not, ◌++◌, Bool, Option, List, ◌==◌, ltb,
  length, take, drop, filter, All, arith, Bool-cases, or_else,
}
use Prim.Native.Nat.{min}
use mathlib.Core.List.{Perm}
use mathlib.Core.List.Perm
use radar_ia.Prelude.Sort.{sort_by, Sorted, sort_by-Sorted, All-sort_by}
use radar_ia.Prelude.Arranged.{
  Ordered, sort_by-Perm, filter-Perm, take-append-drop, length-take, All-map, All-filter,
  Sorted-Ordered,
}
use radar_ia.Locks.Inference.{ok}
use radar_ia.Locks.Audit.{AdminOperation, AdminOperationKind, AdminOperationOutcome}
use radar_ia.Locks.Audit.Filters.{Matches, fits-Matches, unfit-Matches}
use radar_ia.Locks.Audit.Lists.{newest, newer_operation, fits_operation, list_operations}

-- requested later; at the same time, inserted later; at the same time, not after by the identifier
abbrev pub ComesFirst : (ℕ → ℕ → Bool) → AdminOperation → AdminOperation → Type 0
ComesFirst id_le a b =
    (b.requested_at < a.requested_at)
    ⊎ ((b.requested_at ≡ a.requested_at)
        × ((b.created_at < a.created_at)
            ⊎ ((b.created_at ≡ a.created_at) × (id_le a.id b.id ≡ true))))

-- The log is the rows listed, the rows cut off and the others: the others do not match; the listed
-- and the cut off match, and in this order are in the order of the list; and as many are listed as the
-- limit allows.
pub record IsListing (id_le : ℕ → ℕ → Bool) (limit : ℕ) (actor : Option String)
    (kind : Option AdminOperationKind) (outcome : Option AdminOperationOutcome)
    (log listed : List AdminOperation) : Type 0 where
  pub cut : List AdminOperation
  pub others : List AdminOperation
  pub complete : Perm ((listed ++ cut) ++ others) log
  pub matching : All (Matches actor kind outcome) (listed ++ cut)
  pub unmatching : All (λ o. ¬ (Matches actor kind outcome o)) others
  pub ordered : Ordered (ComesFirst id_le) (listed ++ cut)
  pub limited : length listed ≡ min limit (length (listed ++ cut))

newer-ComesFirst :
    (id_le : ℕ → ℕ → Bool) (a b : AdminOperation)
    → newer_operation id_le a b ≡ true
    → ComesFirst id_le a b
newer-ComesFirst id_le a b h = elim (Bool-cases (ltb b.requested_at a.requested_at)) [
  | inl later ↦ inl (ground arith)
  | inr no_later ↦ elim (Bool-cases (ltb b.created_at a.created_at)) [
    | inl inserted ↦ inr (ground arith, inl (ground arith))
    | inr no_later_inserted ↦ inr (ground arith, inr (ground arith, ground arith))
  ]
]

module _ (id_le : ℕ → ℕ → Bool) (total : (i j : ℕ) → id_le i j ≡ false → id_le j i ≡ true)
    (trans : (i j k : ℕ) → id_le i j ≡ true → id_le j k ≡ true → id_le i k ≡ true) where
  newest_total :
      (t c i t' c' i' : ℕ)
      → newest id_le t c i t' c' i' ≡ false
      → newest id_le t' c' i' t c i ≡ true
  newest_total t c i t' c' i' h = ground (arith, total i i')

  newest_trans :
      (t c i t' c' i' t'' c'' i'' : ℕ)
      → newest id_le t c i t' c' i' ≡ true
      → newest id_le t' c' i' t'' c'' i'' ≡ true
      → newest id_le t c i t'' c'' i'' ≡ true
  newest_trans t c i t' c' i' t'' c'' i'' h k = ground (arith, trans i i' i'')

  newer-Sorted :
      (xs : List AdminOperation)
      → Sorted (newer_operation id_le) (sort_by (newer_operation id_le) xs)
  newer-Sorted =
      sort_by-Sorted (newer_operation id_le) (newer_operation id_le) (λ a b h. h)
        (λ a b. newest_total a.requested_at a.created_at a.id b.requested_at b.created_at b.id)
        (λ a b c.
          newest_trans a.requested_at a.created_at a.id b.requested_at b.created_at b.id
            c.requested_at c.created_at c.id)

  -- Let the database's order of identifiers be total and transitive. With a positive limit, 50 if it
  -- is absent, the operations that are listed are rows of the log that match the filters on actor,
  -- kind and outcome, newest first: by the time of the request, then of the insertion, then by the
  -- identifier. All rows that match are listed, or as many as the limit, and then those left out come
  -- after the listed ones.
  pub list_operations-IsListing :
      (limit : Option ℕ) (actor : Option String) (kind : Option AdminOperationKind)
      (outcome : Option AdminOperationOutcome) (ops : List AdminOperation)
      → 0 < or_else limit 50
      → (listed : List AdminOperation) × (list_operations id_le limit actor kind outcome ops
          ≡ ok listed)
        × IsListing id_le (or_else limit 50) actor kind outcome ops listed
  unfolding list_operations
  list_operations-IsListing limit actor kind outcome ops positive =
      let n = or_else limit 50 in
      let fits = fits_operation actor kind outcome in
      let wanted = filter (λ o. fits o) ops in
      let others = filter (λ o. not (fits o)) ops in
      let sorted = sort_by (newer_operation id_le) wanted in
      let whole = take-append-drop n sorted in
      (
        take n sorted,
        let some_limit : n == 0 ≡ false = ground arith in rw some_limit refl,
        record {
          cut = drop n sorted;
          others = others;
          complete = rw whole (
              Perm.trans (Perm.append_right others (sort_by-Perm (newer_operation id_le) wanted))
                (filter-Perm fits ops));
          matching = rw whole (
              All-map (λ o. fits o ≡ true) (Matches actor kind outcome)
                (fits-Matches actor kind outcome) sorted
                (All-sort_by (λ o. fits o ≡ true) (newer_operation id_le) wanted
                  (All-filter fits ops)));
          unmatching =
              All-map (λ o. not (fits o) ≡ true) (λ o. ¬ (Matches actor kind outcome o))
                (unfit-Matches actor kind outcome) others (All-filter (λ o. not (fits o)) ops);
          ordered = rw whole (
              Sorted-Ordered (newer_operation id_le) (ComesFirst id_le) (newer-ComesFirst id_le)
                sorted (newer-Sorted wanted));
          limited = rw whole (length-take n sorted);
        },
      )
