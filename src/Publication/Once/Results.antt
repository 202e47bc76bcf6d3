-- ===== src/Publication/Once/Results.antt =====
-- recordThreadCreated and recordEnrichmentPublished, and the invariant.
use radar_ia.Prelude.{
  ℕ, ◌≡◌, refl, String, Bool, true, Option, none, some, arith, is_some, if◌then◌else◌,
}
use radar_ia.Publication.Types.{
  PublicationStatus, main_published, FolderPublication, PublicationAttempt, IdempotencyKey,
  same_status, is_allowed, has_main, PersistenceErrorCode, inconsistent_state,
  enrichment_precondition_failed,
}
use radar_ia.Publication.Exec.{M, ◌>>=◌}
use radar_ia.Publication.Hoare.{
  Spec, Keeps, spec-pure, spec-if, spec-transaction, spec-weaken, spec-bind, spec-require,
}
use radar_ia.Publication.World.{World}
use radar_ia.Publication.Repository.{
  ensure, assert_non_empty, load_publication_by_folder, save_publication, or_throw,
  assert_transition,
}
use radar_ia.Publication.Repository.Record.{
  finish_attempt, save_and_finish, assert_change, to_succeeded, record_thread_created,
  record_enrichment_published,
}
use radar_ia.Publication.Once.Invariant.{Inv, has_message}
use radar_ia.Publication.Once.Repository.{
  Loaded, assert_non_empty-Spec, load-Spec, or_throw-Spec, IsSettled, SameStanding, save-Spec,
}
use radar_ia.Publication.Once.Record.{Succeeds, finish_attempt-Spec}

pub marks :
    (m t : PublicationAttempt → Option String) (a : PublicationAttempt)
    → Succeeds a (to_succeeded (m a) (t a) a)
marks m t a = record { id = refl; folder = refl; kind = refl; key = refl; status = refl }

-- What a passed `assert_change` leaves known.
abbrev pub MayChange : PublicationStatus → PublicationStatus → Type 0
MayChange from to = (if same_status from to then true else is_allowed from to) ≡ true

pub assert_change-Spec :
    (P : World → Type 0) (from to : PublicationStatus)
    → Spec P (assert_change from to) (λ _ w. P w × MayChange from to) P
unfolding assert_transition
assert_change-Spec P from to =
    spec-if (same_status from to) _ _ (λ e. spec-pure _ (λ w h. (h, rw e)))
      (λ e. spec-require _ _ (λ k w h. (h, rw e k)) (λ w h. h))

abbrev threaded : String → FolderPublication → FolderPublication
threaded thread p = record p {
  status = main_published;
  thread_id = some thread;
  last_error_code = none;
}

threaded_standing :
    (thread : String) (p : FolderPublication)
    → is_some p.main_message_id ≡ true
    → IsSettled p
    → SameStanding p (threaded thread p)
threaded_standing thread p m s = record {
  message = refl;
  settled = λ _. refl;
  waiting = ground (arith, s m);
}

-- A row saved with its message, then the attempt marked.
module _ (f g : String) (i : Option ℕ) (key : Option IdempotencyKey)
    (done : PublicationAttempt → PublicationAttempt)
    (marked : (a : PublicationAttempt) → Succeeds a (done a)) (p q : FolderPublication)
    (folder : q.folder_id ≡ p.folder_id) (same : IsSettled p → SameStanding p q)
    (message : has_message (some q) ≡ true) where
  pub save_and_finish-Spec :
      Spec (Loaded f g (some p)) (save_and_finish g i key done q) (λ _. Inv f) (Inv f)
  unfolding save_and_finish
  save_and_finish-Spec = spec-bind (save_publication q) _ (save-Spec f g p q folder same) (λ saved.
      spec-bind (finish_attempt g i key done) _
        (finish_attempt-Spec f g q message done marked i key) (λ a. spec-pure _ (λ w h. h)))

-- `load`, then the error where the row is missing
pub Loaded-bind :
    {A : Type 0} (f g : String) (code : PersistenceErrorCode) (k : FolderPublication → M World A)
    {Q : A → World → Type 0}
    → ((p : FolderPublication) → Spec (Loaded f g (some p)) (k p) Q (Inv f))
    → Spec (Inv f) (do found ← load_publication_by_folder g; p ← or_throw code found; k p) Q (Inv f)
Loaded-bind f g code k h =
    spec-bind (load_publication_by_folder g) _ (load-Spec f g)
      (λ found. spec-bind (or_throw code found) k (or_throw-Spec f g code found) h)

-- `if (!b) throw`, with the test known afterwards
pub ensure-Spec :
    (P : World → Type 0) (b : Bool) (code : PersistenceErrorCode)
    → Spec P (ensure b code) (λ _ w. P w × (b ≡ true)) P
ensure-Spec P b code = spec-require _ _ (λ e w h. (h, e)) (λ w h. h)

-- A fact that does not depend on the world can be taken out of the precondition.
pub spec-fact :
    {A F : Type 0} {P E : World → Type 0} {Q : A → World → Type 0} {m : M World A}
    → (F → Spec P m Q E)
    → Spec (λ w. P w × F) m Q E
spec-fact h = record { at = λ w p. (h p.1).at w p.0 }

pub record_thread_created-Inv :
    (f g thread : String) (i : Option ℕ) (key : Option IdempotencyKey)
    → Keeps (Inv f) (record_thread_created g thread i key)
unfolding record_thread_created
record_thread_created-Inv f g thread i key =
    spec-bind (assert_non_empty g) _ (assert_non_empty-Spec (Inv f) g) λ _.
      spec-bind (assert_non_empty thread) _ (assert_non_empty-Spec (Inv f) thread) λ _.
        spec-transaction _ (
          Loaded-bind f g inconsistent_state _ λ p.
            spec-bind (ensure (is_some p.main_message_id) inconsistent_state) _
              (spec-weaken _ (ensure-Spec (Loaded f g (some p)) _ _) (λ w h. h) (λ _ w h. h)
                (λ w h. h.0))
              λ _. spec-fact λ m.
                spec-bind (assert_change p.status main_published) _
                  (spec-weaken _ (assert_change-Spec (Loaded f g (some p)) p.status main_published)
                    (λ w h. h) (λ _ w h. h.0) (λ w h. h.0))
                  λ _.
                    save_and_finish-Spec f g i key _
                      (marks (λ a. a.discord_message_id) (λ _. some thread)) p _ refl
                      (threaded_standing thread p m) m)

abbrev refreshed : FolderPublication → FolderPublication
refreshed p = record p { last_error_code = none }

has_main-message : (p : FolderPublication) → has_main p ≡ true → is_some p.main_message_id ≡ true
has_main-message p m = ground arith

pub record_enrichment_published-Inv :
    (f g message : String) (i : Option ℕ) (key : Option IdempotencyKey)
    → Keeps (Inv f) (record_enrichment_published g message i key)
unfolding record_enrichment_published
record_enrichment_published-Inv f g message i key =
    spec-bind (assert_non_empty g) _ (assert_non_empty-Spec (Inv f) g) λ _.
      spec-bind (assert_non_empty message) _ (assert_non_empty-Spec (Inv f) message) λ _.
        spec-transaction _ (
          Loaded-bind f g enrichment_precondition_failed _ λ p.
            spec-bind (ensure (has_main p) enrichment_precondition_failed) _
              (spec-weaken _ (ensure-Spec (Loaded f g (some p)) _ _) (λ w h. h) (λ _ w h. h)
                (λ w h. h.0))
              λ _. spec-fact λ m.
                save_and_finish-Spec f g i key _
                  (marks (λ _. some message) (λ a. a.discord_thread_id)) p (refreshed p) refl
                  (λ s. record { message = refl; settled = s; waiting = refl })
                  (has_main-message p m))
