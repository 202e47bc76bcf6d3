-- ===== src/Publication/Once/Lease.antt =====
-- The execution lease and the invariant.
use radar_ia.Prelude.{
  ap, sym, ◌∙◌, ◌+◌, leb, ℕ, ◌≡◌, refl, String, true, Option, none, some, arith, is_some,
  Bool-cases, inl, inr,
}
use radar_ia.Publication.Types.{PublicationAttempt, publish_key, inconsistent_state}
use radar_ia.Publication.Hoare.{Spec, Keeps, After, spec-bind, spec-weaken}
use radar_ia.Publication.World.{World, same_key, find_publication, find_attempt, update_attempt}
use radar_ia.Publication.Tables.{find_attempt-id, find_attempt-update}
use radar_ia.Publication.Repository.{ensure, assert_non_empty}
use radar_ia.Publication.Repository.Lease.{is_claimable, leased, claim_found, claim_execution}
use radar_ia.Publication.Once.Invariant.{Inv, is_open_publish}
use radar_ia.Publication.Once.Moves.{SameRow, Fits-update}
use radar_ia.Publication.Once.Repository.{assert_non_empty-Spec}
use radar_ia.Publication.Once.Results.{ensure-Spec}

-- The attempt `i` stands under the folder's publish key.
abbrev pub KeyedRow : String → ℕ → World → Type 0
KeyedRow f i w =
    (a : PublicationAttempt) × (find_attempt i w.attempts ≡ some a)
    × (same_key a.idempotency_key (publish_key f) ≡ true)

-- ... and is reserved.
abbrev pub OpenRow : String → ℕ → World → Type 0
OpenRow f i w =
    (a : PublicationAttempt) × (find_attempt i w.attempts ≡ some a) × (is_open_publish f a ≡ true)

-- a write to the lease alone
lease-Inv :
    (f : String) (i : ℕ) (h : PublicationAttempt → PublicationAttempt) (w : World)
    (a : PublicationAttempt)
    → find_attempt i w.attempts ≡ some a
    → SameRow f a (h a)
    → Inv f w
    → Inv f (record w { attempts = update_attempt i h w.attempts })
lease-Inv f i h w a e s v =
    Fits-update f (find_publication f w.publications) w.attempts w.next_id _ i h a e s v

-- What a claim gives where the attempt stands under the folder's publish key: the invariant and,
-- if it succeeds, the row still there and reserved.
abbrev pub Claimed : String → ℕ → Option PublicationAttempt → World → Type 0
Claimed f i r w = Inv f w × (is_some r ≡ true → OpenRow f i w)

claimable-reserved :
    (f holder : String) (now : ℕ) (a b : PublicationAttempt)
    → is_claimable holder now a ≡ true
    → some b ≡ some a
    → same_key b.idempotency_key (publish_key f) ≡ true
    → is_open_publish f a ≡ true
unfolding is_claimable
claimable-reserved f holder now a b free e key =
    let s : b ≡ a = cc in
    ground (arith, ap (λ (x : PublicationAttempt). same_key x.idempotency_key (publish_key f)) s)

module _ (f holder : String) (i lease_ms now : ℕ) where
  -- A claim never throws apart from its checks.
  claim_found-Claimed :
      (w : World) (r : Option PublicationAttempt)
      → find_attempt i w.attempts ≡ r
      → Inv f w × KeyedRow f i w
      → After
          (Claimed f i)
          (Inv f)
          (claim_found i holder lease_ms now r w).0
          (claim_found i holder lease_ms now r w).1
  unfolding claim_found
  claim_found-Claimed w none e h = (h.0, λ t. cc)
  claim_found-Claimed w (some a) e h = elim (Bool-cases (is_claimable holder now a)) [
    | inl free ↦ rw free (
      lease-Inv f i _ w a e (record { id = refl; opened = refl; done = refl; keyed = refl }) h.0,
      λ t. (
        leased holder (now + lease_ms) a,
        find_attempt-update i (leased holder (now + lease_ms)) w.attempts a e
            (find_attempt-id i w.attempts a e),
        claimable-reserved f holder now a h.1.0 free (sym h.1.1 ∙ e) h.1.2,
      ),
    )
    | inr taken ↦ rw taken (h.0, λ t. cc)
  ]

  claim_found-keeps :
      (w : World) (r : Option PublicationAttempt)
      → find_attempt i w.attempts ≡ r
      → Inv f w
      → After
          (λ _. Inv f)
          (Inv f)
          (claim_found i holder lease_ms now r w).0
          (claim_found i holder lease_ms now r w).1
  unfolding claim_found
  claim_found-keeps w none e v = v
  claim_found-keeps w (some a) e v = elim (Bool-cases (is_claimable holder now a)) [
    | inl free ↦
        rw free
          (lease-Inv f i _ w a e (record { id = refl; opened = refl; done = refl; keyed = refl }) v)
    | inr taken ↦ rw taken v
  ]

  pub claim_execution-Claimed :
      Spec
        (λ w. Inv f w × KeyedRow f i w)
        (claim_execution i holder lease_ms now)
        (Claimed f i)
        (Inv f)
  unfolding claim_execution
  claim_execution-Claimed =
      spec-bind (assert_non_empty holder) _
        (spec-weaken _ (assert_non_empty-Spec (λ w. Inv f w × KeyedRow f i w) holder) (λ w h. h)
          (λ _ w h. h) (λ w h. h.0))
        λ _.
          spec-bind (ensure (leb 1 lease_ms) inconsistent_state) _
            (spec-weaken _ (ensure-Spec (λ w. Inv f w × KeyedRow f i w) _ _) (λ w h. h)
              (λ _ w h. h.0) (λ w h. h.0))
            λ _. record { at = λ w h. claim_found-Claimed w (find_attempt i w.attempts) refl h }

  pub claim_execution-Inv : Keeps (Inv f) (claim_execution i holder lease_ms now)
  unfolding claim_execution
  claim_execution-Inv =
      spec-bind (assert_non_empty holder) _ (assert_non_empty-Spec (Inv f) holder) λ _.
        spec-bind (ensure (leb 1 lease_ms) inconsistent_state) _
          (spec-weaken _ (ensure-Spec (Inv f) _ _) (λ w h. h) (λ _ w h. h.0) (λ w h. h))
          λ _. record { at = λ w h. claim_found-keeps w (find_attempt i w.attempts) refl h }
