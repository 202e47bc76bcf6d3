-- ===== src/Publication/Orchestrator/Enrich.antt =====
-- runEnrich: a message in the folder's thread, which is made first where it is missing.
use radar_ia.Prelude.{
  String, Bool, true, false, Option, none, some, or_else, or_option, not, if◌then◌else◌,
}
use radar_ia.Publication.Types.{
  PublicationStatus, AttemptStatus, PublicationErrorCode, enrich, enrich_key, FolderPublication,
  PublicationAttempt, ReserveOutcome, has_main,
}
use radar_ia.Publication.Exec.{Exn, Result, ok, err, pure, throw, attempt, ◌>>=◌, ◌>>◌}
use radar_ia.Publication.World.{NewsFolder, unarchive_thread_if_needed, send_thread_message}
use radar_ia.Publication.Repository.{load_publication_by_folder}
use radar_ia.Publication.Repository.Reserve.{is_blank_or_null, reserve_operation}
use radar_ia.Publication.Repository.Record.{Recorded, record_enrichment_published}
use radar_ia.Publication.Outcome.{
  reservation, Options, OrchestrationInput, OrchestrationResult, succeeded, enriched, failed,
  veille_pertinente, enrichment_published,
}
use radar_ia.Publication.Orchestrator.{
  Flow, refused, or_return, map_persistence_error, is_retryable_port_code, port_code,
  port_retryable, failure_of, publication_of, attempt_of, thread_title, call_discord, guarded,
  claim_discord_execution, release_discord_execution, record_port_failure,
}
use radar_ia.Publication.Orchestrator.Thread.{complete_thread}
use radar_ia.Publication.Orchestrator.Publish.{hit, resumable}

-- an unarchive error that the port does not name counts as an inconsistent state
unfoldable pub unarchive_code : PublicationErrorCode → PublicationErrorCode
unarchive_code PublicationErrorCode.unknown = PublicationErrorCode.inconsistent_state
unarchive_code code = code

module _ (o : Options) (input : OrchestrationInput) (fingerprint payload : String) where
  abbrev fail_with :
      FolderPublication
      → PublicationAttempt
      → PublicationErrorCode
      → Bool
      → Result Recorded
      → OrchestrationResult
  fail_with p a code retryable recorded =
      failed input.folder_id code retryable (or_option (publication_of recorded) (some p))
        (or_option (attempt_of recorded) (some a))

  unfoldable pub abandon :
      FolderPublication → PublicationAttempt → PublicationErrorCode → Bool → Flow
  abandon p a code retryable = do
    release_discord_execution o a.id
    recorded ← record_port_failure o (failure_of input.folder_id a.id code retryable false)
    pure (fail_with p a code retryable recorded)

  unfoldable pub after_enrichment_record :
      FolderPublication → PublicationAttempt → String → Result Recorded → Flow
  after_enrichment_record p a message (ok r) =
      pure (enriched input.folder_id message r.publication r.attempt)
  after_enrichment_record p a message (err e) =
      pure (failed input.folder_id PublicationErrorCode.persist_failed false (some p) (some a))

  unfoldable pub after_send : FolderPublication → PublicationAttempt → Result String → Flow
  after_send p a (ok message) = do
    recorded ← attempt (
        guarded o enrichment_published
          (record_enrichment_published input.folder_id message (some a.id) none))
    after_enrichment_record p a message recorded
  after_send p a (err e) = abandon p a (port_code e) (port_retryable e)

  unfoldable pub after_unarchive :
      FolderPublication → PublicationAttempt → String → Result String → Flow
  after_unarchive p a thread (ok _) = do
    sent ← attempt (call_discord o (send_thread_message thread payload))
    after_send p a sent
  after_unarchive p a thread (err e) =
      let code = unarchive_code (port_code e) in abandon p a code (is_retryable_port_code code)

  unfoldable pub after_claim :
      FolderPublication → PublicationAttempt → String → Option PublicationAttempt → Flow
  after_claim p a thread none = hit input.folder_id (some p) (some a) PublicationErrorCode.hold
  after_claim p a thread (some claimed) = do
    unarchived ← attempt (call_discord o (unarchive_thread_if_needed thread))
    after_unarchive p a thread unarchived

  unfoldable pub run_send : FolderPublication → PublicationAttempt → String → Flow
  run_send p a thread = do claimed ← claim_discord_execution o a.id; after_claim p a thread claimed

  -- an attempt that succeeded with its message known is not sent again
  unfoldable pub hit_enrich :
      FolderPublication
      → FolderPublication
      → PublicationAttempt
      → String
      → AttemptStatus
      → Option String
      → Flow
  hit_enrich p q a thread AttemptStatus.succeeded (some message) =
      hit input.folder_id (some q) (some a) PublicationErrorCode.idempotent_hit
  hit_enrich p q a thread AttemptStatus.succeeded none = run_send p a thread
  hit_enrich p q a thread _ message = run_send p a thread

  unfoldable pub after_reserve : FolderPublication → String → Result ReserveOutcome → Flow
  after_reserve p thread (ok (ReserveOutcome.reserved q a)) = run_send p a thread
  after_reserve p thread (ok (ReserveOutcome.idempotent_hit q a reason)) =
      hit_enrich p q a thread a.status a.discord_message_id
  after_reserve p thread (err (Exn.persistence code)) =
      pure (failed input.folder_id (map_persistence_error code) false (some p) none)
  after_reserve p thread (err e) = throw e

  -- the publication and the thread are at hand
  unfoldable pub enrich_in_thread : FolderPublication → String → Flow
  enrich_in_thread p thread = do
    reserved ← attempt (
        guarded o reservation (
          reserve_operation (record {
            folder_id = input.folder_id;
            kind = enrich;
            idempotency_key =
                enrich_key input.folder_id fingerprint (or_else input.analysis_attempt_id "");
            analysis_attempt_id = input.analysis_attempt_id;
            event_fingerprint = some fingerprint;
            attempt_number = none;
          })))
    after_reserve p thread reserved

  -- ensureThreadForEnrich, with the rest of the flow behind it
  unfoldable pub after_thread : OrchestrationResult → Flow
  after_thread (succeeded f m thread p a role) = enrich_in_thread p thread
  after_thread result = pure result

  unfoldable pub make_thread : FolderPublication → String → Option (String × String) → Flow
  make_thread p title none =
      pure (failed input.folder_id PublicationErrorCode.precondition_failed false (some p) none)
  make_thread p title (some (main, channel)) = do
    result ← complete_thread o (record {
      folder_id = input.folder_id;
      channel_id = channel;
      main_message_id = main;
      thread_name = thread_title title;
      channel_role = veille_pertinente;
    })
    after_thread result

  unfoldable pub ensure_thread : FolderPublication → String → Option String → Flow
  ensure_thread p title (some thread) = enrich_in_thread p thread
  ensure_thread p title none =
      make_thread p title (resumable p.status p.main_message_id p.channel_id)

abbrev pub is_inconsistent : PublicationStatus → Bool
is_inconsistent PublicationStatus.inconsistent = true
is_inconsistent _ = false

unfoldable pub enrich_published :
    Options → OrchestrationInput → NewsFolder → String → FolderPublication → Flow
enrich_published o input folder fingerprint p =
    if not (has_main p)
    then pure (failed input.folder_id PublicationErrorCode.precondition_failed false (some p) none)
    else if is_inconsistent p.status
    then pure (failed input.folder_id PublicationErrorCode.inconsistent_state false (some p) none)
    else or_return
        (o.build_enrichment (record {
          folder_id = input.folder_id;
          new_facts = input.new_facts;
          new_sources = input.new_sources;
          aggregate_fingerprint = fingerprint;
        }))
        (pure (failed input.folder_id PublicationErrorCode.precondition_failed false (some p) none))
        λ payload. ensure_thread o input fingerprint payload p folder.title p.thread_id

unfoldable pub run_enrich : Options → OrchestrationInput → NewsFolder → Flow
run_enrich o input folder =
    let precondition = refused input.folder_id PublicationErrorCode.precondition_failed in
    if is_blank_or_null input.analysis_attempt_id
    then precondition
    else if is_blank_or_null input.aggregate_fingerprint
    then precondition
    else do
      found ← load_publication_by_folder input.folder_id
      or_return found precondition
          λ p. enrich_published o input folder (or_else input.aggregate_fingerprint "") p
