-- ===== src/Publication/Once/Failure.antt =====
-- recordFailure and the invariant. What may mark the folder as failed is its open publish attempt.
use radar_ia.Prelude.{
  ◌≡◌, refl, ℕ, sym, ◌∙◌, String, Bool, true, false, none, some, arith, str_eq, eq_iff, Bool-cases,
  inl, inr, or_else, subst, is_some,
}
use radar_ia.Publication.Types.{
  PublicationStatus, PublicationErrorCode, FolderPublication, PublicationAttempt,
  inconsistent_state,
}
use radar_ia.Publication.Exec.{Result, ok, err}
use radar_ia.Publication.Hoare.{
  Spec, After, spec-bind, spec-pure, spec-transaction, spec-weaken, spec-if, spec-attempt,
}
use radar_ia.Publication.World.{World, find_publication, put_publication, find_attempt}
use radar_ia.Publication.Tables.{
  count_if, find_attempt-id, find_publication-put, find_publication-folder_id,
}
use radar_ia.Publication.Repository.{
  ensure, assert_non_empty, load_publication_by_folder, or_throw, resolve_attempt, save_publication,
  assert_transition,
}
use radar_ia.Publication.Repository.Record.{
  is_open_attempt, write_attempt, to_failed, fails_folder, mark_failure, record_failure, Recorded,
  RecordFailureInput,
}
use radar_ia.Publication.Outcome.{Options, failure}
use radar_ia.Publication.Orchestrator.{failure_of, guarded, record_port_failure}
use radar_ia.Publication.Once.Guarded.{guarded-Spec}
use radar_ia.Publication.Once.Invariant.{
  Fits, Inv, sent, is_open_publish, is_done_publish, is_ill_keyed,
}
use radar_ia.Publication.Once.Repository.{assert_non_empty-Spec, assert_transition-Spec, save-Spec}
use radar_ia.Publication.Once.Results.{ensure-Spec, spec-fact}
use radar_ia.Publication.Once.Close.{
  load-with, or_throw-with, resolve_attempt-with, Fits-close, closed_count, Fits-free,
}
use radar_ia.Publication.Once.Lease.{OpenRow}

-- `markFolderFailed ?? true`
abbrev marks_folder : RecordFailureInput → Bool
marks_folder input = or_else input.mark_folder_failed true

-- before: what would mark the folder `f` as failed is its open publish attempt
abbrev pub MayFail : String → String → RecordFailureInput → ℕ → World → Type 0
MayFail f g input i w = Inv f w × (marks_folder input ≡ true → g ≡ f → OpenRow f i w)

abbrev Ready : String → String → RecordFailureInput → FolderPublication → World → Type 0
Ready f g input p w =
    Inv f w
    × (find_publication g w.publications ≡ some p)
    × (marks_folder input ≡ true → g ≡ f → count_if (is_open_publish f) w.attempts ≡ 0)

undone_open :
    (f : String) (a : PublicationAttempt)
    → is_open_attempt a.status ≡ true
    → is_done_publish f a ≡ false
undone_open f a h = ground arith

failed_shut :
    (f : String) (input : RecordFailureInput) (a : PublicationAttempt)
    → (is_open_publish f (to_failed input a) ≡ false)
      × (is_done_publish f (to_failed input a) ≡ false)
unfolding to_failed
failed_shut f input a = (ground arith, ground arith)

failed_row :
    (f : String) (input : RecordFailureInput) (a : PublicationAttempt)
    → ((to_failed input a).id ≡ a.id) × (is_ill_keyed f (to_failed input a) ≡ is_ill_keyed f a)
unfolding to_failed
failed_row f input a = (refl, refl)

module _ (f g : String) (input : RecordFailureInput) (i : ℕ) (p : FolderPublication)
    (a : PublicationAttempt) where
  write_failed-Spec :
      is_open_attempt a.status ≡ true
      → Spec
          (λ w.
            (MayFail f g input i w × (find_publication g w.publications ≡ some p))
            × (find_attempt i w.attempts ≡ some a)
            × (a.folder_id ≡ g))
          (write_attempt a (to_failed input a))
          (λ _. Ready f g input p)
          (Inv f)
  unfolding write_attempt
  write_failed-Spec opened = record {
    at = λ w h.
        let e : find_attempt a.id w.attempts ≡ some a =
          subst (λ j. find_attempt j w.attempts ≡ some a) (sym (find_attempt-id i w.attempts a h.1))
            h.1 in
        let b = to_failed input a in
        let shut = failed_shut f input a in
        let row = failed_row f input a in
        let u = undone_open f a opened in
        (
          Fits-close f (find_publication f w.publications) w.attempts w.next_id _ a.id a b e row.0
              shut.0 u shut.1 row.1 h.0.0.0,
          h.0.1,
          λ m s.
              let r = h.0.0.1 m s in
              let same : r.0 ≡ a = cc (r.1, h.1) in
              closed_count f (find_publication f w.publications) w.attempts w.next_id 0 a.id a b e
                row.0 shut.0 u shut.1 row.1 h.0.0.0.single
                (subst (λ x. is_open_publish f x ≡ true) same r.2),
        );
  }

  abbrev failed_publication : FolderPublication
  failed_publication = record p {
    status = PublicationStatus.failed;
    last_error_code = some input.error_code;
  }

  mark_free :
      (w : World)
      → is_some p.main_message_id ≡ false
      → marks_folder input ≡ true
      → Ready f g input p w
      → Fits f
          (find_publication f (put_publication failed_publication w.publications))
          w.attempts
          w.next_id
          (sent f w.calls)
  mark_free w m marks h =
      let folder = find_publication-folder_id g w.publications p h.1 in
      rw (find_publication-put f failed_publication w.publications)
        (elim (Bool-cases (str_eq p.folder_id f)) [
          | inl here ↦
              let gf : g ≡ f = sym folder ∙ (eq_iff p.folder_id f).0 here in
              let loaded : find_publication f w.publications ≡ some p = rw gf at h.1 in
              rw here (
                Fits-free f (some p) (some failed_publication) w.attempts w.next_id _ (h.2 marks gf)
                  refl (λ x. absurd (cc (x, m))) (rw loaded at h.0))
          | inr elsewhere ↦ rw elsewhere h.0
        ])

  save_failed-Spec :
      fails_folder input a p ≡ true
      → Spec (Ready f g input p) (save_publication failed_publication) (λ _. Inv f) (Inv f)
  unfolding save_publication fails_folder
  save_failed-Spec fails = record {
    at = λ w h.
        let m : is_some p.main_message_id ≡ false = ground arith in
        let marks : marks_folder input ≡ true = ground arith in mark_free w m marks h;
  }

  mark_failure-Spec : Spec (Ready f g input p) (mark_failure input a p) (λ _. Inv f) (Inv f)
  unfolding mark_failure
  mark_failure-Spec =
      spec-if (fails_folder input a p) _ _
        (λ fails.
          spec-bind (assert_transition p.status PublicationStatus.failed) _
            (spec-weaken _
              (assert_transition-Spec (Ready f g input p) p.status PublicationStatus.failed)
              (λ w h. h) (λ _ w h. h.0) (λ w h. h.0))
            λ _. save_failed-Spec fails)
        (λ _.
          spec-weaken _
            (save-Spec f g p (record p { last_error_code = some input.error_code }) refl
              (λ s. record { message = refl; settled = s; waiting = refl }))
            (λ w h. (h.0, h.1)) (λ _ w h. h.0) (λ w h. h))

-- The failure that the orchestrator records.
module _ (f g : String) (i : ℕ) (code : PublicationErrorCode) (retryable mark : Bool) where
  abbrev input : RecordFailureInput
  input = failure_of g i code retryable mark

  record_failure-Spec :
      Spec (MayFail f g input i) (record_failure input) (λ _. Inv f) (MayFail f g input i)
  unfolding record_failure
  record_failure-Spec = spec-bind (assert_non_empty g) _ (assert_non_empty-Spec _ g) λ _.
      spec-transaction {T = Inv f} _ (
        spec-bind (load_publication_by_folder g) _
          (spec-weaken _ (load-with (MayFail f g input i) g) (λ w h. h) (λ _ w h. h) (λ w h. h.0))
          λ o.
            spec-bind (or_throw inconsistent_state o) _
              (spec-weaken _ (or_throw-with (MayFail f g input i) g inconsistent_state o) (λ w h. h)
                (λ _ w h. h) (λ w h. h.0))
              λ p.
                spec-bind (resolve_attempt g (some i) none) _
                  (spec-weaken _
                    (resolve_attempt-with
                      (λ w. MayFail f g input i w × (find_publication g w.publications ≡ some p)) g
                      i)
                    (λ w h. h) (λ _ w h. h) (λ w h. h.0.0))
                  λ a.
                    spec-bind (ensure (is_open_attempt a.status) inconsistent_state) _
                      (spec-weaken _
                        (ensure-Spec
                          (λ w.
                            (MayFail f g input i w × (find_publication g w.publications ≡ some p))
                            × (find_attempt i w.attempts ≡ some a)
                            × (a.folder_id ≡ g))
                          _ _)
                        (λ w h. h) (λ _ w h. h) (λ w h. h.0.0.0))
                      λ _. spec-fact λ opened.
                        spec-bind (write_attempt a (to_failed input a)) _
                          (write_failed-Spec f g input i p a opened)
                          λ b.
                            spec-bind (mark_failure input a p) _ (mark_failure-Spec f g input i p a)
                              λ q. spec-pure _ (λ w h. h))

  recorded-MayFail :
      (r : Result Recorded) (w : World) → After (λ _. Inv f) (MayFail f g input i) r w → Inv f w
  recorded-MayFail (ok a) w h = h
  recorded-MayFail (err e) w h = h.0

  pub record_port_failure-Spec :
      (o : Options) → Spec (MayFail f g input i) (record_port_failure o input) (λ _. Inv f) (Inv f)
  unfolding record_port_failure
  record_port_failure-Spec o =
      spec-weaken _
        (spec-attempt (guarded o failure (record_failure input))
          (guarded-Spec o failure (record_failure input) record_failure-Spec (λ w h. h))
          {T = Inv f})
        (λ w h. h) (λ r w h. recorded-MayFail r w h) (λ w h. h)
