-- ===== src/Publication/Once/MainRecord.antt =====
-- recordMainPublicationSuccess on the attempt whose message Discord has just accepted.
use radar_ia.Prelude.{◌≡◌, refl, ℕ, String, false, Option, none, some, List, ◌<◌, is_blank, arith}
use radar_ia.Publication.Types.{partial, inconsistent_state, FolderPublication, PublicationAttempt}
use radar_ia.Publication.Exec.{pure}
use radar_ia.Publication.Hoare.{Spec, spec-pure, spec-bind, spec-weaken, spec-transaction_never}
use radar_ia.Publication.World.{World, find_publication}
use radar_ia.Publication.Tables.{count_if}
use radar_ia.Publication.Repository.{assert_non_empty, load_publication_by_folder, or_throw}
use radar_ia.Publication.Repository.Record.{
  RecordMainInput, Recorded, main_recorded, assert_change, record_main_publication_success,
}
use radar_ia.Publication.Once.Invariant.{Fits, Inv, sent, is_pending, is_open_publish}
use radar_ia.Publication.Once.Posted.{Posted}
use radar_ia.Publication.Once.Main.{
  Never, ClosedRow, assert_non_empty-passes, load-Posted, or_throw-posted, assert_change-posted,
  save_and_finish-posted,
}

-- the record that runPublish asks for
abbrev pub main_input : String → String → String → String → Option String → ℕ → RecordMainInput
main_input f channel guild message analysis i = record {
  folder_id = f;
  channel_id = channel;
  guild_id = guild;
  main_message_id = message;
  thread_id = none;
  analysis_attempt_id = analysis;
  attempt_id = some i;
  idempotency_key = none;
}

-- What the record leaves behind: the folder's row, which it returns, has the message, its channel and
-- its guild and waits for its thread; the attempt is closed with the message; no other is open.
pub record Completed (f channel guild message : String) (i : ℕ) (r : Recorded) (w : World)
    : Type 0 where
  pub fits : Inv f w
  pub row : find_publication f w.publications ≡ some r.publication
  pub status : r.publication.status ≡ partial
  pub message_id : r.publication.main_message_id ≡ some message
  pub channel_id : r.publication.channel_id ≡ some channel
  pub guild_id : r.publication.guild_id ≡ guild
  pub closed : ClosedRow i message r.attempt w
  pub none_open : count_if (is_open_publish f) w.attempts ≡ 0
  pub one : sent f w.calls ≡ 1

-- no publish attempt is open where the row does not wait
not_waiting :
    (f : String) (o : Option FolderPublication) (l : List PublicationAttempt) (n k : ℕ)
    (q : FolderPublication)
    → o ≡ some q
    → is_pending (some q) ≡ false
    → Fits f o l n k
    → count_if (is_open_publish f) l ≡ 0
not_waiting f o l n k q e settled v =
    let none_waits : ¬ (0 < count_if (is_open_publish f) l) =
      λ more. let waits = v.waiting more in cc in
    omega (arith, none_waits)

-- On the attempt that sent a folder's only message, the record of this message cannot fail, if the
-- texts that it asserts are not blank, and the tables know the message afterwards.
pub record_main_publication_success-Completed :
    (f channel guild message : String) (analysis : Option String) (i : ℕ)
    → is_blank f ≡ false
    → is_blank channel ≡ false
    → is_blank guild ≡ false
    → is_blank message ≡ false
    → Spec
        (Posted f i)
        (record_main_publication_success (main_input f channel guild message analysis i))
        (Completed f channel guild message i)
        Never
unfolding record_main_publication_success main_recorded
record_main_publication_success-Completed f channel guild message analysis i bf bc bg bm =
    let input = main_input f channel guild message analysis i in
    spec-bind (assert_non_empty f) _ (assert_non_empty-passes _ f bf) λ _.
      spec-bind (assert_non_empty guild) _ (assert_non_empty-passes _ guild bg) λ _.
        spec-bind (assert_non_empty channel) _ (assert_non_empty-passes _ channel bc) λ _.
          spec-bind (assert_non_empty message) _ (assert_non_empty-passes _ message bm) λ _.
            spec-bind (pure tt) _ (spec-pure tt (λ w h. h)) λ _. spec-transaction_never _ (
              spec-bind (load_publication_by_folder f) _ (load-Posted f i) λ o.
                spec-bind (or_throw inconsistent_state o) _ (or_throw-posted f i o) λ p.
                  spec-bind (assert_change p.status partial) _ (assert_change-posted f i p) λ _.
                    spec-weaken _
                      (save_and_finish-posted f i p (main_recorded input p) refl refl refl none
                        message)
                      (λ w h. h)
                      (λ r w h. record {
                        fits = h.1.fits;
                        row = rw h.0 h.1.publication;
                        status = rw h.0 refl;
                        message_id = rw h.0 refl;
                        channel_id = rw h.0 refl;
                        guild_id = rw h.0 refl;
                        closed = h.1.row;
                        none_open = not_waiting f _ _ _ _ _ h.1.publication refl h.1.fits;
                        one = h.1.one;
                      })
                      (λ w h. h))

pub record_main_publication_success-Posted :
    (f channel guild message : String) (analysis : Option String) (i : ℕ)
    → is_blank f ≡ false
    → is_blank channel ≡ false
    → is_blank guild ≡ false
    → is_blank message ≡ false
    → Spec
        (Posted f i)
        (record_main_publication_success (main_input f channel guild message analysis i))
        (λ _. Inv f)
        Never
record_main_publication_success-Posted f channel guild message analysis i bf bc bg bm =
    spec-weaken _
      (record_main_publication_success-Completed f channel guild message analysis i bf bc bg bm)
      (λ w h. h) (λ r w h. h.fits) (λ w h. h)
