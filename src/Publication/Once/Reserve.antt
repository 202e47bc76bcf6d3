-- ===== src/Publication/Once/Reserve.antt =====
-- reserveOperation and the invariant, for the kinds that are no publish.
use radar_ia.Prelude.{
  ◌≡◌, refl, ℕ, ◌+◌, String, Bool, false, not, ◌&&◌, ◌||◌, Option, none, some, arith, str_eq,
  or_else, is_some, max,
}
use radar_ia.Publication.Types.{
  NewsFolderStatus, OperationKind, FolderPublication, PublicationAttempt, IdempotencyKey,
  publish_key, ReserveOutcome, enrichment_precondition_failed, has_main,
}
use radar_ia.Publication.Exec.{M, pure, ◌>>=◌}
use radar_ia.Publication.Hoare.{
  Spec, Keeps, spec-bind, spec-pure, spec-throw, spec-transaction, spec-weaken,
}
use radar_ia.Publication.World.{
  World, NewsFolder, find_folder, find_publication, latest, same_key, is_publish,
}
use radar_ia.Publication.Repository.{
  ensure, assert_non_empty, assert_idempotency_key, assert_positive_attempt_number,
  require_open_folder, refuse_absent, refuse_closed, load_publication_by_folder, or_throw,
}
use radar_ia.Publication.Repository.Reserve.{
  new_attempt, create_attempt, number_of, under, active_under, find_latest, hit_or,
  ReserveOperationInput, is_enrich, is_create_thread, is_blank_or_null, reserve_operation_on,
  reserve_operation,
}
use radar_ia.Publication.Once.Invariant.{Inv}
use radar_ia.Publication.Once.Moves.{Fits-append}
use radar_ia.Publication.Once.Repository.{
  assert_non_empty-Spec, assert_idempotency_key-Spec, load-Spec, or_throw-Spec,
}
use radar_ia.Publication.Once.Results.{ensure-Spec}

module _ (P : World → Type 0) where
  refuse_closed-Keeps :
      (s : NewsFolderStatus) (folder : NewsFolder) → Keeps P (refuse_closed s folder)
  refuse_closed-Keeps NewsFolderStatus.closed folder = spec-throw _ (λ w h. h)
  refuse_closed-Keeps NewsFolderStatus.opened folder = spec-pure folder (λ w h. h)
  refuse_closed-Keeps NewsFolderStatus.idle folder = spec-pure folder (λ w h. h)

  refuse_absent-Keeps : (r : Option NewsFolder) → Keeps P (refuse_absent r)
  refuse_absent-Keeps none = spec-throw _ (λ w h. h)
  refuse_absent-Keeps (some folder) = refuse_closed-Keeps folder.status folder

  pub require_open_folder-Keeps : (g : String) → Keeps P (require_open_folder g)
  unfolding require_open_folder
  require_open_folder-Keeps g = record {
    at = λ w h. (refuse_absent-Keeps (find_folder g w.folders)).at w h;
  }

  pub number-Keeps : (n : ℕ) → Keeps P (assert_positive_attempt_number n)
  unfolding assert_positive_attempt_number
  number-Keeps n = spec-weaken _ (ensure-Spec P _ _) (λ w h. h) (λ _ w h. h.0) (λ w h. h)

  pub find_latest-with :
      (t : PublicationAttempt → Bool)
      → Spec P (find_latest t) (λ r w. P w × (latest t w.attempts ≡ r)) P
  find_latest-with t = record { at = λ w h. (h, refl) }

-- a reservation that is no publish of the folder
module _ (f g : String) (kind : OperationKind) (key : IdempotencyKey)
    (analysis fingerprint : Option String) (other_key : same_key key (publish_key f) ≡ false)
    (other : (str_eq g f && is_publish kind) ≡ false) where
  create_other-Keeps :
      (number : ℕ) → Keeps (Inv f) (create_attempt g kind number key analysis fingerprint)
  unfolding create_attempt
  create_other-Keeps number = record {
    at = λ w v.
        Fits-append f (find_publication f w.publications) w.attempts w.next_id _
          (new_attempt w.next_id g kind number key analysis fingerprint) refl (rw other_key refl)
          (rw other_key refl) (rw other_key (rw other refl)) v;
  }

module _ (f : String) (input : ReserveOperationInput)
    (other_key : same_key input.idempotency_key (publish_key f) ≡ false)
    (other : is_publish input.kind ≡ false) where
  other_pair : (str_eq input.folder_id f && is_publish input.kind) ≡ false
  other_pair = ground arith

  reserve_fresh-Keeps :
      (number : ℕ) (p : FolderPublication)
      → Keeps (Inv f) (do
        last ← find_latest (under input.idempotency_key)
        a ←
            create_attempt input.folder_id input.kind
              (max number (number_of last + 1))
              input.idempotency_key
              input.analysis_attempt_id
              input.event_fingerprint
        pure (ReserveOutcome.reserved p a))
  reserve_fresh-Keeps number p =
      spec-bind (find_latest (under input.idempotency_key)) _
        (spec-weaken _ (find_latest-with (Inv f) _) (λ w h. h) (λ _ w h. h.0) (λ w h. h))
        λ last.
          spec-bind
            (create_attempt input.folder_id input.kind (max number (number_of last + 1))
              input.idempotency_key input.analysis_attempt_id input.event_fingerprint)
            _
            (create_other-Keeps f input.folder_id input.kind input.idempotency_key
              input.analysis_attempt_id input.event_fingerprint other_key other_pair _)
            λ a. spec-pure (ReserveOutcome.reserved p a) (λ w h. h)

  hit_or-Keeps :
      (p : FolderPublication) (rest : M World ReserveOutcome) (r : Option PublicationAttempt)
      → Keeps (Inv f) rest
      → Keeps (Inv f) (hit_or p rest r)
  hit_or-Keeps p rest none h = h
  hit_or-Keeps p rest (some a) h = spec-pure _ (λ w v. v)

  reserve_operation_on-Keeps :
      (number : ℕ) (p : FolderPublication) → Keeps (Inv f) (reserve_operation_on input number p)
  unfolding reserve_operation_on
  reserve_operation_on-Keeps number p =
      spec-bind
        (ensure (not (is_enrich input.kind || is_create_thread input.kind) || has_main p)
          enrichment_precondition_failed)
        _ (spec-weaken _ (ensure-Spec (Inv f) _ _) (λ w h. h) (λ _ w h. h.0) (λ w h. h))
        λ _.
          spec-bind
            (ensure (not (is_create_thread input.kind) || is_some p.main_message_id)
              enrichment_precondition_failed)
            _ (spec-weaken _ (ensure-Spec (Inv f) _ _) (λ w h. h) (λ _ w h. h.0) (λ w h. h))
            λ _.
              spec-bind (find_latest (active_under input.idempotency_key)) _
                (spec-weaken _ (find_latest-with (Inv f) _) (λ w h. h) (λ _ w h. h.0) (λ w h. h))
                λ active. hit_or-Keeps p _ active (reserve_fresh-Keeps number p)

  pub reserve_operation-Inv : Keeps (Inv f) (reserve_operation input)
  unfolding reserve_operation
  reserve_operation-Inv =
      let number = or_else input.attempt_number 1 in
      let fingerprinted =
        not (is_enrich input.kind) || not (is_blank_or_null input.event_fingerprint) in
      spec-bind (assert_non_empty input.folder_id) _ (assert_non_empty-Spec (Inv f) input.folder_id)
        λ _.
          spec-bind (assert_idempotency_key input.idempotency_key) _
            (assert_idempotency_key-Spec (Inv f) input.idempotency_key)
            λ _.
              spec-bind (assert_positive_attempt_number number) _ (number-Keeps (Inv f) number) λ _.
                spec-bind (ensure fingerprinted enrichment_precondition_failed) _
                  (spec-weaken _ (ensure-Spec (Inv f) fingerprinted enrichment_precondition_failed)
                    (λ w h. h) (λ _ w h. h.0) (λ w h. h))
                  λ _. spec-transaction {T = Inv f} _ (
                    spec-bind (require_open_folder input.folder_id) _
                      (require_open_folder-Keeps (Inv f) input.folder_id)
                      λ _.
                        spec-bind (load_publication_by_folder input.folder_id) _
                          (load-Spec f input.folder_id)
                          λ found.
                            spec-bind (or_throw enrichment_precondition_failed found) _
                              (spec-weaken _
                                (or_throw-Spec f input.folder_id enrichment_precondition_failed
                                  found)
                                (λ w h. h) (λ _ w h. h.0) (λ w h. h))
                              λ p. reserve_operation_on-Keeps number p)
