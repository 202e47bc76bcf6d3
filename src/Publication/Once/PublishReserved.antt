-- ===== src/Publication/Once/PublishReserved.antt =====
-- reservePublish as a whole.
use radar_ia.Prelude.{◌≡◌, ◌+◌, String, Bool, true, Option, none, some, arith, if◌then◌else◌}
use radar_ia.Publication.Types.{
  pending, publish, FolderPublication, PublicationAttempt, IdempotencyKey, publish_key,
  ReserveOutcome, same_status, has_main,
}
use radar_ia.Publication.Exec.{M, pure, ◌>>◌}
use radar_ia.Publication.Hoare.{
  Spec, spec-bind, spec-pure, spec-throw, spec-transaction, spec-weaken, spec-if,
}
use radar_ia.Publication.World.{World, latest, same_key}
use radar_ia.Publication.Repository.{
  assert_non_empty, assert_idempotency_key, assert_positive_attempt_number, require_open_folder,
  load_publication_by_folder, save_publication, assert_transition,
}
use radar_ia.Publication.Repository.Reserve.{
  or_create, create_attempt, number_of, under, active_under, find_latest, ReservePublishInput,
  published_hit, to_pending, reserve_new, is_pending_publish, hit_or, reserve_waiting,
  reserve_unpublished, succeeded_under, reserve_published, reserve_loaded, reserve_publish,
}
use radar_ia.Publication.Once.Invariant.{Inv}
use radar_ia.Publication.Once.Repository.{
  Loaded, assert_non_empty-Spec, assert_idempotency_key-Spec, load-Spec,
}
use radar_ia.Publication.Once.Lease.{KeyedRow}
use radar_ia.Publication.Once.Reserve.{require_open_folder-Keeps, number-Keeps, find_latest-with}
use radar_ia.Publication.Once.ReservePublish.{
  Reserved, Fresh, keyed_row, waiting_row, active-Fresh, create_publish-Spec,
}
use radar_ia.Publication.Once.Reserve.{require_open_folder-Keeps, number-Keeps, find_latest-with}
use radar_ia.Publication.Once.Pending.{or_create-Spec, Pends, move-Spec}

-- the reservation that the orchestrator asks for
abbrev pub publish_input : String → String → Option String → ReservePublishInput
publish_input g guild analysis = record {
  folder_id = g;
  guild_id = guild;
  analysis_attempt_id = analysis;
  idempotency_key = some (publish_key g);
}

module _ (f g guild : String) (analysis : Option String) (p : FolderPublication) where
  abbrev input : ReservePublishInput
  input = publish_input g guild analysis

  abbrev key : IdempotencyKey
  key = publish_key g

  reserve_new-Spec :
      Spec
        (λ w. Loaded f g (some p) w × Fresh f g w)
        (reserve_new input key p)
        (Reserved f g)
        (Inv f)
  unfolding reserve_new
  reserve_new-Spec =
      spec-bind
        (if same_status p.status pending
          then pure p
          else do assert_transition p.status pending; save_publication (to_pending input p))
        _ (move-Spec f g input p)
        λ q.
          spec-bind (find_latest (under key)) _
            (spec-weaken _ (find_latest-with (Pends f g input p) (under key)) (λ w h. h)
              (λ _ w h. h.0) (λ w h. h.0))
            λ last.
              spec-bind (assert_positive_attempt_number (number_of last + 1)) _
                (spec-weaken _ (number-Keeps (Pends f g input p) (number_of last + 1)) (λ w h. h)
                  (λ _ w h. h) (λ w h. h.0))
                λ _.
                  spec-bind (create_attempt g publish (number_of last + 1) key analysis none) _
                    (create_publish-Spec f g analysis q (number_of last + 1))
                    λ a. spec-pure (ReserveOutcome.reserved q a) (λ w h. h)

  -- a hit, or the rest
  hit_or-Reserved :
      (P : World → Type 0) (t : PublicationAttempt → Bool) (rest : M World ReserveOutcome)
      (r : Option PublicationAttempt)
      → ((w : World) (a : PublicationAttempt)
          → P w
          → latest t w.attempts ≡ some a
          → Inv f w × (g ≡ f → KeyedRow f a.id w))
      → Spec (λ w. P w × (latest t w.attempts ≡ none)) rest (Reserved f g) (Inv f)
      → Spec (λ w. P w × (latest t w.attempts ≡ r)) (hit_or p rest r) (Reserved f g) (Inv f)
  hit_or-Reserved P t rest none found h = h
  hit_or-Reserved P t rest (some a) found h = spec-pure _ (λ w e. found w a e.0 e.1)

  reserve_waiting-Spec :
      Spec
        (λ w. Loaded f g (some p) w × Fresh f g w)
        (reserve_waiting input key p)
        (Reserved f g)
        (Inv f)
  unfolding reserve_waiting
  reserve_waiting-Spec =
      spec-bind (find_latest (is_pending_publish g)) _
        (spec-weaken _
          (find_latest-with (λ w. Loaded f g (some p) w × Fresh f g w) (is_pending_publish g))
          (λ w h. h) (λ _ w h. h) (λ w h. h.0.0))
        λ r.
          hit_or-Reserved (λ w. Loaded f g (some p) w × Fresh f g w) (is_pending_publish g)
            (reserve_new input key p) r (λ w a h e. (h.0.0, waiting_row f g w a e h.0.0))
            (spec-weaken _ reserve_new-Spec (λ w h. h.0) (λ _ w h. h) (λ w h. h))

  active_key :
      (b : PublicationAttempt) → active_under key b ≡ true → same_key b.idempotency_key key ≡ true
  active_key b h = ground arith

  succeeded_key :
      (b : PublicationAttempt)
      → succeeded_under g key b ≡ true
      → same_key b.idempotency_key key ≡ true
  succeeded_key b h = ground arith

  reserve_unpublished-Spec :
      Spec (Loaded f g (some p)) (reserve_unpublished input key p) (Reserved f g) (Inv f)
  unfolding reserve_unpublished
  reserve_unpublished-Spec =
      spec-bind (find_latest (active_under key)) _
        (spec-weaken _ (find_latest-with (Loaded f g (some p)) (active_under key)) (λ w h. h)
          (λ _ w h. h) (λ w h. h.0))
        λ r.
          hit_or-Reserved (Loaded f g (some p)) (active_under key) _ r
            (λ w a h e. (h.0, keyed_row f g (active_under key) w a active_key e h.0))
            (spec-weaken _
              (spec-if (same_status p.status pending) _ _ (λ _. reserve_waiting-Spec)
                (λ _. reserve_new-Spec))
              (λ w h. (h.0, active-Fresh f g w h.1)) (λ _ w h. h) (λ w h. h))

  published_hit-Spec :
      (r : Option PublicationAttempt)
      → Spec
          (λ w. Loaded f g (some p) w × (latest (succeeded_under g key) w.attempts ≡ r))
          (published_hit p r)
          (Reserved f g)
          (Inv f)
  published_hit-Spec none = spec-throw _ (λ w h. h.0.0)
  published_hit-Spec (some a) =
      spec-pure _
        (λ w h. (h.0.0, keyed_row f g (succeeded_under g key) w a succeeded_key h.1 h.0.0))

  reserve_published-Spec :
      Spec (Loaded f g (some p)) (reserve_published input key p) (Reserved f g) (Inv f)
  unfolding reserve_published
  reserve_published-Spec =
      spec-bind (find_latest (succeeded_under g key)) _
        (spec-weaken _ (find_latest-with (Loaded f g (some p)) (succeeded_under g key)) (λ w h. h)
          (λ _ w h. h) (λ w h. h.0))
        λ r. published_hit-Spec r

  reserve_loaded-Spec :
      Spec (Loaded f g (some p)) (reserve_loaded input key p) (Reserved f g) (Inv f)
  unfolding reserve_loaded
  reserve_loaded-Spec =
      spec-if (has_main p) _ _ (λ _. reserve_published-Spec) (λ _. reserve_unpublished-Spec)

pub reserve_publish-Reserved :
    (f g guild : String) (analysis : Option String)
    → Spec (Inv f) (reserve_publish (publish_input g guild analysis)) (Reserved f g) (Inv f)
unfolding reserve_publish
reserve_publish-Reserved f g guild analysis =
    spec-bind (assert_non_empty g) _ (assert_non_empty-Spec (Inv f) g) λ _.
      spec-bind (assert_non_empty guild) _ (assert_non_empty-Spec (Inv f) guild) λ _.
        spec-bind (assert_idempotency_key (publish_key g)) _
          (assert_idempotency_key-Spec (Inv f) (publish_key g))
          λ _. spec-transaction {T = Inv f} _ (
            spec-bind (require_open_folder g) _ (require_open_folder-Keeps (Inv f) g) λ _.
              spec-bind (load_publication_by_folder g) _ (load-Spec f g) λ found.
                spec-bind (or_create g guild found) _ (or_create-Spec f g guild found)
                  λ p. reserve_loaded-Spec f g guild analysis p)
