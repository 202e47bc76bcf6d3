-- ===== src/Publication/Orchestrator/Thread.antt =====
-- completeThread: reserve, claim, start the thread, record it.
use radar_ia.Prelude.{ℕ, String, Bool, true, false, Option, none, some, or_option}
use radar_ia.Publication.Types.{
  PublicationStatus, AttemptStatus, PublicationErrorCode, create_thread, create_thread_key,
  FolderPublication, PublicationAttempt, ReserveOutcome,
}
use radar_ia.Publication.Exec.{Exn, Result, ok, err, pure, throw, attempt, ◌>>=◌, ◌>>◌}
use radar_ia.Publication.World.{start_thread}
use radar_ia.Publication.Repository.{load_publication_by_folder}
use radar_ia.Publication.Repository.Reserve.{reserve_operation}
use radar_ia.Publication.Repository.Record.{Recorded, record_thread_created}
use radar_ia.Publication.Outcome.{
  reservation, Options, OrchestrationResult, succeeded, partial, ChannelRole, thread_created,
}
use radar_ia.Publication.Orchestrator.{
  Flow, map_persistence_error, port_code, port_retryable, failure_of, publication_of, attempt_of,
  call_discord, guarded, claim_discord_execution, release_discord_execution, record_port_failure,
}

pub record ThreadInput : Type 0 where
  pub folder_id : String
  pub channel_id : String
  pub main_message_id : String
  pub thread_name : String
  pub channel_role : ChannelRole

module _ (o : Options) (input : ThreadInput) where
  abbrev done : String → FolderPublication → Option PublicationAttempt → OrchestrationResult
  done thread p a = succeeded input.folder_id input.main_message_id thread p a input.channel_role

  abbrev pending_thread :
      Option FolderPublication
      → Option PublicationAttempt
      → PublicationErrorCode
      → Bool
      → OrchestrationResult
  pending_thread p a code retryable =
      partial input.folder_id input.main_message_id p a code retryable

  unfoldable pub after_record : ℕ → String → Result Recorded → Flow
  after_record i thread (ok r) = do
    release_discord_execution o i
    pure (done thread r.publication r.attempt)
  after_record i thread (err e) = do
    release_discord_execution o i
    p ← load_publication_by_folder input.folder_id
    pure (pending_thread p none PublicationErrorCode.persist_failed false)

  unfoldable pub after_start : ℕ → Result String → Flow
  after_start i (ok thread) = do
    recorded ←
        attempt
          (guarded o thread_created (record_thread_created input.folder_id thread (some i) none))
    after_record i thread recorded
  after_start i (err e) = do
    release_discord_execution o i
    recorded ←
        record_port_failure o (failure_of input.folder_id i (port_code e) (port_retryable e) false)
    p ← load_publication_by_folder input.folder_id
    pure (
        pending_thread (or_option (publication_of recorded) p) (attempt_of recorded) (port_code e)
          (port_retryable e))

  unfoldable pub after_claim :
      FolderPublication → PublicationAttempt → Option PublicationAttempt → Flow
  after_claim p a none = pure (pending_thread (some p) (some a) PublicationErrorCode.hold true)
  after_claim p a (some claimed) = do
    started ←
        attempt
          (call_discord o (start_thread input.channel_id input.main_message_id input.thread_name))
    after_start a.id started

  unfoldable pub run_thread : FolderPublication → PublicationAttempt → Flow
  run_thread p a = do claimed ← claim_discord_execution o a.id; after_claim p a claimed

  -- an earlier attempt succeeded and Discord's thread is known from it
  unfoldable pub from_attempt :
      AttemptStatus → Option String → FolderPublication → PublicationAttempt → Flow
  from_attempt AttemptStatus.succeeded (some thread) p a = pure (done thread p (some a))
  from_attempt AttemptStatus.succeeded none p a = run_thread p a
  from_attempt _ thread p a = run_thread p a

  unfoldable pub from_publication :
      PublicationStatus → Option String → FolderPublication → PublicationAttempt → Flow
  from_publication PublicationStatus.main_published (some thread) p a =
      pure (done thread p (some a))
  from_publication PublicationStatus.main_published none p a =
      from_attempt a.status a.discord_thread_id p a
  from_publication _ thread p a = from_attempt a.status a.discord_thread_id p a

  unfoldable pub after_reserve : Result ReserveOutcome → Flow
  after_reserve (ok (ReserveOutcome.reserved p a)) = run_thread p a
  after_reserve (ok (ReserveOutcome.idempotent_hit p a reason)) =
      from_publication p.status p.thread_id p a
  after_reserve (err (Exn.persistence code)) = do
    p ← load_publication_by_folder input.folder_id
    pure (pending_thread p none (map_persistence_error code) false)
  after_reserve (err e) = throw e

  unfoldable pub complete_thread : Flow
  complete_thread = do
    reserved ← attempt (
        guarded o reservation (
          reserve_operation (record {
            folder_id = input.folder_id;
            kind = create_thread;
            idempotency_key = create_thread_key input.folder_id input.main_message_id;
            analysis_attempt_id = none;
            event_fingerprint = none;
            attempt_number = none;
          })))
    after_reserve reserved
