-- ===== src/Publication/Once/EnrichFlow.antt =====
-- runEnrich and the invariant.
use radar_ia.Prelude.{refl, String, Bool, false, not, Option, none, some, or_else}
use radar_ia.Publication.Types.{
  AttemptStatus, PublicationErrorCode, FolderPublication, PublicationAttempt, ReserveOutcome,
  enrich, enrich_key, has_main,
}
use radar_ia.Publication.Exec.{Exn, Result, ok, err, attempt}
use radar_ia.Publication.Hoare.{Keeps, spec-bind, spec-throw, spec-if}
use radar_ia.Publication.World.{NewsFolder, unarchive_thread_if_needed, send_thread_message}
use radar_ia.Publication.Repository.{load_publication_by_folder}
use radar_ia.Publication.Repository.Reserve.{
  ReserveOperationInput, reserve_operation, is_blank_or_null,
}
use radar_ia.Publication.Repository.Record.{Recorded, record_enrichment_published}
use radar_ia.Publication.Outcome.{
  reservation, Options, OrchestrationInput, OrchestrationResult, skipped, succeeded, enriched,
  partial, failed, veille_pertinente, enrichment_published,
}
use radar_ia.Publication.Orchestrator.{
  port_code, port_retryable, is_retryable_port_code, failure_of, thread_title, call_discord,
  guarded, claim_discord_execution, release_discord_execution, record_port_failure,
}
use radar_ia.Publication.Orchestrator.Thread.{ThreadInput, complete_thread}
use radar_ia.Publication.Orchestrator.Publish.{resumable}
use radar_ia.Publication.Orchestrator.Enrich.{
  unarchive_code, abandon, after_enrichment_record, after_send, after_unarchive, after_claim,
  run_send, hit_enrich, after_reserve, enrich_in_thread, after_thread, make_thread, ensure_thread,
  is_inconsistent, enrich_published, run_enrich,
}
use radar_ia.Publication.Once.Invariant.{Inv}
use radar_ia.Publication.Once.Results.{record_enrichment_published-Inv}
use radar_ia.Publication.Once.Release.{attempt-Keeps, release-Inv}
use radar_ia.Publication.Once.Calls.{call_discord-Inv}
use radar_ia.Publication.Once.Reserve.{reserve_operation-Inv}
use radar_ia.Publication.Once.Guarded.{guarded-Keeps}
use radar_ia.Publication.Once.Steps.{
  claim-Inv, load-Keeps, unmarked_failure-Keeps, pure-Keeps, or_return-Keeps,
}
use radar_ia.Publication.Once.ThreadFlow.{complete_thread-Inv}

module _ (f : String) (o : Options) (input : OrchestrationInput)
    (fingerprint payload : String) where
  abandon-Inv :
      (p : FolderPublication) (a : PublicationAttempt) (code : PublicationErrorCode)
      (retryable : Bool)
      → Keeps (Inv f) (abandon o input fingerprint payload p a code retryable)
  unfolding abandon
  abandon-Inv p a code retryable =
      spec-bind (release_discord_execution o a.id) _ (release-Inv f a.id o) λ _.
        spec-bind (record_port_failure o (failure_of input.folder_id a.id code retryable false)) _
          (unmarked_failure-Keeps f input.folder_id o a.id code retryable) λ r. pure-Keeps (Inv f) _

  after_enrichment_record-Inv :
      (p : FolderPublication) (a : PublicationAttempt) (m : String) (r : Result Recorded)
      → Keeps (Inv f) (after_enrichment_record o input fingerprint payload p a m r)
  unfolding after_enrichment_record
  after_enrichment_record-Inv p a m (ok r) = pure-Keeps (Inv f) _
  after_enrichment_record-Inv p a m (err e) = pure-Keeps (Inv f) _

  after_send-Inv :
      (p : FolderPublication) (a : PublicationAttempt) (r : Result String)
      → Keeps (Inv f) (after_send o input fingerprint payload p a r)
  unfolding after_send
  after_send-Inv p a (ok m) =
      let step = record_enrichment_published input.folder_id m (some a.id) none in
      spec-bind (attempt (guarded o enrichment_published step)) _
        (attempt-Keeps (Inv f) (guarded o enrichment_published step) (
          guarded-Keeps (Inv f) o enrichment_published step
            (record_enrichment_published-Inv f input.folder_id m (some a.id) none)))
        λ r. after_enrichment_record-Inv p a m r
  after_send-Inv p a (err e) = abandon-Inv p a (port_code e) (port_retryable e)

  after_unarchive-Inv :
      (p : FolderPublication) (a : PublicationAttempt) (thread : String) (r : Result String)
      → Keeps (Inv f) (after_unarchive o input fingerprint payload p a thread r)
  unfolding after_unarchive
  after_unarchive-Inv p a thread (ok _) =
      let call = send_thread_message thread payload in
      spec-bind (attempt (call_discord o call)) _
        (attempt-Keeps (Inv f) (call_discord o call) (call_discord-Inv o f call λ b. refl))
        λ r. after_send-Inv p a r
  after_unarchive-Inv p a thread (err e) =
      let code = unarchive_code (port_code e) in abandon-Inv p a code (is_retryable_port_code code)

  after_claim-Inv :
      (p : FolderPublication) (a : PublicationAttempt) (thread : String)
      (c : Option PublicationAttempt)
      → Keeps (Inv f) (after_claim o input fingerprint payload p a thread c)
  unfolding after_claim
  after_claim-Inv p a thread none = pure-Keeps (Inv f) _
  after_claim-Inv p a thread (some c) =
      let call = unarchive_thread_if_needed thread in
      spec-bind (attempt (call_discord o call)) _
        (attempt-Keeps (Inv f) (call_discord o call) (call_discord-Inv o f call λ b. refl))
        λ r. after_unarchive-Inv p a thread r

  run_send-Inv :
      (p : FolderPublication) (a : PublicationAttempt) (thread : String)
      → Keeps (Inv f) (run_send o input fingerprint payload p a thread)
  unfolding run_send
  run_send-Inv p a thread =
      spec-bind (claim_discord_execution o a.id) _ (claim-Inv f o a.id)
        λ c. after_claim-Inv p a thread c

  hit_enrich-Inv :
      (p q : FolderPublication) (a : PublicationAttempt) (thread : String) (s : AttemptStatus)
      (m : Option String)
      → Keeps (Inv f) (hit_enrich o input fingerprint payload p q a thread s m)
  unfolding hit_enrich
  hit_enrich-Inv p q a thread AttemptStatus.succeeded (some m) = pure-Keeps (Inv f) _
  hit_enrich-Inv p q a thread AttemptStatus.succeeded none = run_send-Inv p a thread
  hit_enrich-Inv p q a thread AttemptStatus.reserved m = run_send-Inv p a thread
  hit_enrich-Inv p q a thread AttemptStatus.failed m = run_send-Inv p a thread
  hit_enrich-Inv p q a thread AttemptStatus.skipped m = run_send-Inv p a thread

  after_reserve-Inv :
      (p : FolderPublication) (thread : String) (r : Result ReserveOutcome)
      → Keeps (Inv f) (after_reserve o input fingerprint payload p thread r)
  unfolding after_reserve
  after_reserve-Inv p thread (ok (ReserveOutcome.reserved q a)) = run_send-Inv p a thread
  after_reserve-Inv p thread (ok (ReserveOutcome.idempotent_hit q a reason)) =
      hit_enrich-Inv p q a thread a.status a.discord_message_id
  after_reserve-Inv p thread (err (Exn.persistence code)) = pure-Keeps (Inv f) _
  after_reserve-Inv p thread (err (Exn.port_error code retryable)) = spec-throw _ (λ w h. h)
  after_reserve-Inv p thread (err Exn.content) = spec-throw _ (λ w h. h)
  after_reserve-Inv p thread (err Exn.orchestration) = spec-throw _ (λ w h. h)
  after_reserve-Inv p thread (err Exn.other) = spec-throw _ (λ w h. h)

  abbrev enrich_reservation : ReserveOperationInput
  enrich_reservation = record {
    folder_id = input.folder_id;
    kind = enrich;
    idempotency_key = enrich_key input.folder_id fingerprint (or_else input.analysis_attempt_id "");
    analysis_attempt_id = input.analysis_attempt_id;
    event_fingerprint = some fingerprint;
    attempt_number = none;
  }

  enrich_in_thread-Inv :
      (p : FolderPublication) (thread : String)
      → Keeps (Inv f) (enrich_in_thread o input fingerprint payload p thread)
  unfolding enrich_in_thread
  enrich_in_thread-Inv p thread =
      spec-bind (attempt (guarded o reservation (reserve_operation enrich_reservation))) _
        (attempt-Keeps (Inv f) (guarded o reservation (reserve_operation enrich_reservation)) (
          guarded-Keeps (Inv f) o reservation (reserve_operation enrich_reservation)
            (reserve_operation-Inv f enrich_reservation refl refl)))
        λ r. after_reserve-Inv p thread r

  after_thread-Inv :
      (r : OrchestrationResult) → Keeps (Inv f) (after_thread o input fingerprint payload r)
  unfolding after_thread
  after_thread-Inv (succeeded g m thread p a role) = enrich_in_thread-Inv p thread
  after_thread-Inv (skipped reason g p a code) = pure-Keeps (Inv f) _
  after_thread-Inv (enriched g m p a) = pure-Keeps (Inv f) _
  after_thread-Inv (partial g m p a code retryable) = pure-Keeps (Inv f) _
  after_thread-Inv (failed g code retryable p a) = pure-Keeps (Inv f) _

  abbrev thread_input : String → String → String → ThreadInput
  thread_input title main channel = record {
    folder_id = input.folder_id;
    channel_id = channel;
    main_message_id = main;
    thread_name = thread_title title;
    channel_role = veille_pertinente;
  }

  make_thread-Inv :
      (p : FolderPublication) (title : String) (r : Option (String × String))
      → Keeps (Inv f) (make_thread o input fingerprint payload p title r)
  unfolding make_thread
  make_thread-Inv p title none = pure-Keeps (Inv f) _
  make_thread-Inv p title (some (main, channel)) =
      spec-bind (complete_thread o (thread_input title main channel)) _
        (complete_thread-Inv f o (thread_input title main channel)) λ r. after_thread-Inv r

  ensure_thread-Inv :
      (p : FolderPublication) (title : String) (t : Option String)
      → Keeps (Inv f) (ensure_thread o input fingerprint payload p title t)
  unfolding ensure_thread
  ensure_thread-Inv p title (some t) = enrich_in_thread-Inv p t
  ensure_thread-Inv p title none =
      make_thread-Inv p title (resumable p.status p.main_message_id p.channel_id)

enrich_published-Inv :
    (f : String) (o : Options) (input : OrchestrationInput) (folder : NewsFolder)
    (fingerprint : String) (p : FolderPublication)
    → Keeps (Inv f) (enrich_published o input folder fingerprint p)
unfolding enrich_published
enrich_published-Inv f o input folder fingerprint p =
    spec-if (not (has_main p)) _ _ (λ _. pure-Keeps (Inv f) _)
      (λ _.
        spec-if (is_inconsistent p.status) _ _ (λ _. pure-Keeps (Inv f) _)
          (λ _.
            or_return-Keeps (Inv f)
              (o.build_enrichment (record {
                folder_id = input.folder_id;
                new_facts = input.new_facts;
                new_sources = input.new_sources;
                aggregate_fingerprint = fingerprint;
              }))
              _ _ (pure-Keeps (Inv f) _)
              λ payload.
                ensure_thread-Inv f o input fingerprint payload p folder.title p.thread_id))

pub run_enrich-Inv :
    (f : String) (o : Options) (input : OrchestrationInput) (folder : NewsFolder)
    → Keeps (Inv f) (run_enrich o input folder)
unfolding run_enrich
run_enrich-Inv f o input folder =
    spec-if (is_blank_or_null input.analysis_attempt_id) _ _ (λ _. pure-Keeps (Inv f) _)
      (λ _.
        spec-if (is_blank_or_null input.aggregate_fingerprint) _ _ (λ _. pure-Keeps (Inv f) _)
          (λ _.
            spec-bind (load_publication_by_folder input.folder_id) _ (load-Keeps f input.folder_id)
              λ found. or_return-Keeps (Inv f) found _ _ (pure-Keeps (Inv f) _) λ p.
                enrich_published-Inv f o input folder (or_else input.aggregate_fingerprint "") p))
