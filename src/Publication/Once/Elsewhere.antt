-- ===== src/Publication/Once/Elsewhere.antt =====
-- recordMainPublicationSuccess for another folder, and the send for the folder itself, with the
-- folder as a variable.
use radar_ia.Prelude.{
  ◌≡◌, ◌≢◌, refl, ℕ, sym, ◌∙◌, subst, String, false, Option, none, some, List, Bool-cases, inl, inr,
  str_eq, eq_iff, eq_refl, is_blank,
}
use radar_ia.Publication.Types.{FolderPublication, partial, inconsistent_state}
use radar_ia.Publication.Exec.{Result, ok, err, M, pure, attempt}
use radar_ia.Publication.Hoare.{
  Spec, Keeps, After, spec-bind, spec-pure, spec-transaction, spec-weaken, spec-attempt,
}
use radar_ia.Publication.World.{World, CallRecord, send_main_message}
use radar_ia.Publication.Tables.{find_publication-put, find_publication-folder_id}
use radar_ia.Publication.Repository.{assert_non_empty, save_publication}
use radar_ia.Publication.Repository.Record.{
  RecordMainInput, Recorded, main_recorded, to_succeeded, finish_attempt, save_and_finish,
  assert_change, record_main_publication_success,
}
use radar_ia.Publication.Outcome.{Options, main_success}
use radar_ia.Publication.Orchestrator.{call_discord, guarded}
use radar_ia.Publication.Once.Invariant.{Inv}
use radar_ia.Publication.Once.Repository.{Loaded, assert_non_empty-Spec}
use radar_ia.Publication.Once.Record.{finish_attempt-Spec}
use radar_ia.Publication.Once.Results.{marks, assert_change-Spec, Loaded-bind}
use radar_ia.Publication.Once.Lease.{OpenRow}
use radar_ia.Publication.Once.Posted.{Posted}
use radar_ia.Publication.Once.Main.{Never}
use radar_ia.Publication.Once.MainRecord.{main_input, record_main_publication_success-Posted}
use radar_ia.Publication.Once.Calls.{call_discord-Posted}

module _ (f g : String) (other : g ≢ f) where
  save_elsewhere-Spec :
      (p q : FolderPublication)
      → q.folder_id ≡ p.folder_id
      → Spec (Loaded f g (some p)) (save_publication q) (λ _. Loaded f g (some q)) (Inv f)
  unfolding save_publication
  save_elsewhere-Spec p q folder = record {
    at = λ w h.
        let own = folder ∙ find_publication-folder_id g w.publications p h.1 in
        (
          rw (find_publication-put f q w.publications) (elim (Bool-cases (str_eq q.folder_id f)) [
            | inl here ↦ absurd (other (sym own ∙ (eq_iff q.folder_id f).0 here))
            | inr elsewhere ↦ rw elsewhere h.0
          ]),
          rw (find_publication-put g q w.publications) (rw own (rw (eq_refl g) refl)),
        );
  }

  save_and_finish_elsewhere-Spec :
      (input : RecordMainInput) (i : ℕ) (p : FolderPublication)
      → Spec
          (Loaded f g (some p))
          (save_and_finish g
            (some i)
            none
            (to_succeeded (some input.main_message_id) none)
            (main_recorded input p))
          (λ _. Inv f)
          (Inv f)
  unfolding save_and_finish main_recorded
  save_and_finish_elsewhere-Spec input i p =
      spec-bind (save_publication (main_recorded input p)) _
        (save_elsewhere-Spec p (main_recorded input p) refl)
        λ saved.
          spec-bind
            (finish_attempt g (some i) none (to_succeeded (some input.main_message_id) none)) _
            (finish_attempt-Spec f g (main_recorded input p) refl _
              (marks (λ _. some input.main_message_id) (λ _. none)) (some i) none)
            λ a. spec-pure _ (λ w h. h)

  pub record_main_elsewhere-Inv :
      (channel guild message : String) (analysis : Option String) (i : ℕ)
      → Keeps
          (Inv f)
          (record_main_publication_success (main_input g channel guild message analysis i))
  unfolding record_main_publication_success
  record_main_elsewhere-Inv channel guild message analysis i =
      let input = main_input g channel guild message analysis i in
      spec-bind (assert_non_empty g) _ (assert_non_empty-Spec (Inv f) g) λ _.
        spec-bind (assert_non_empty guild) _ (assert_non_empty-Spec (Inv f) guild) λ _.
          spec-bind (assert_non_empty channel) _ (assert_non_empty-Spec (Inv f) channel) λ _.
            spec-bind (assert_non_empty message) _ (assert_non_empty-Spec (Inv f) message) λ _.
              spec-bind (pure tt) _ (spec-pure tt (λ w h. h)) λ _. spec-transaction {T = Inv f} _ (
                Loaded-bind f g inconsistent_state _ λ p.
                  spec-bind (assert_change p.status partial) _
                    (spec-weaken _ (assert_change-Spec (Loaded f g (some p)) p.status partial)
                      (λ w h. h) (λ _ w h. h.0) (λ w h. h.0))
                    λ _. save_and_finish_elsewhere-Spec input i p)

-- the folder itself
module _ (f g : String) (own : g ≡ f) (o : Options) where
  pub send_own-Spec :
      (channel payload : String) (i : ℕ)
      → Spec
          (λ w. Inv f w × OpenRow f i w)
          (call_discord o (send_main_message g channel payload))
          (λ m w'.
            Posted f i w'
            × ((calls : List CallRecord) × (o.discord calls (send_main_message g channel payload)
                  ≡ ok m)))
          (λ w'. Inv f w' × OpenRow f i w')
  send_own-Spec channel payload i =
      subst
        (λ x.
          Spec (λ w. Inv f w × OpenRow f i w) (call_discord o (send_main_message x channel payload))
            (λ m w'.
              Posted f i w'
              × ((calls : List CallRecord) × (o.discord calls (send_main_message x channel payload)
                    ≡ ok m)))
            (λ w'. Inv f w' × OpenRow f i w'))
        (sym own) (call_discord-Posted o f channel payload i)

  module _ (up : (w : World) → o.outage main_success w ≡ false) where
    up-Spec :
        {A : Type 0} {P E : World → Type 0} {Q : A → World → Type 0} (m : M World A)
        → Spec P m Q E
        → Spec P (guarded o main_success m) Q E
    unfolding guarded
    up-Spec m h = record { at = λ w p. rw (up w) (h.at w p) }

    Never-Inv : (r : Result Recorded) (w : World) → After (λ _. Inv f) Never r w → Inv f w
    Never-Inv (ok a) w h = h
    Never-Inv (err e) w h = absurd h

    pub record_own-Inv :
        (channel message : String) (analysis : Option String) (i : ℕ)
        → is_blank g ≡ false
        → is_blank channel ≡ false
        → is_blank o.guild_id ≡ false
        → is_blank message ≡ false
        → Spec
            (Posted f i)
            (attempt (
              guarded o main_success (
                record_main_publication_success
                  (main_input g channel o.guild_id message analysis i))))
            (λ _. Inv f)
            (Inv f)
    record_own-Inv channel message analysis i bg bc bo bm =
        let main = main_input g channel o.guild_id message analysis i in
        let bf : is_blank f ≡ false = subst (λ x. is_blank x ≡ false) own bg in
        let h : Spec (Posted f i) (record_main_publication_success main) (λ _. Inv f) Never =
          subst
            (λ x.
              Spec (Posted f i)
                (record_main_publication_success
                  (main_input x channel o.guild_id message analysis i))
                (λ _. Inv f) Never)
            (sym own)
            (record_main_publication_success-Posted f channel o.guild_id message analysis i bf bc bo
              bm) in
        spec-weaken _
          (spec-attempt (guarded o main_success (record_main_publication_success main))
            (up-Spec (record_main_publication_success main) h) {T = Inv f})
          (λ w p. p) (λ r w p. Never-Inv r w p) (λ w p. p)
