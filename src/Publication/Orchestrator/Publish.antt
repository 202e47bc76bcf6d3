-- ===== src/Publication/Orchestrator/Publish.antt =====
-- runPublish: the main announcement, then its thread.
use radar_ia.Prelude.{
  String, true, false, ◌&&◌, Option, none, some, or_else, or_option, is_some, is_none, is_blank,
  str_eq, if◌then◌else◌,
}
use radar_ia.Publication.Types.{
  PublicationStatus, PublicationErrorCode, PersistenceErrorCode, publish_key, FolderPublication,
  PublicationAttempt, ReserveOutcome, HitReason, already_published, has_main,
}
use radar_ia.Publication.Exec.{Exn, Result, ok, err, pure, throw, attempt, ◌>>=◌, ◌>>◌}
use radar_ia.Publication.World.{NewsFolder, send_main_message, is_reserved}
use radar_ia.Publication.Repository.{load_publication_by_folder}
use radar_ia.Publication.Repository.Reserve.{is_blank_or_null, reserve_publish}
use radar_ia.Publication.Repository.Record.{Recorded, record_main_publication_success}
use radar_ia.Publication.Outcome.{
  reservation, Options, OrchestrationInput, OrchestrationResult, skipped, partial, failed,
  SkipReason, ChannelRole, ValidatedContent, MainContent, main_success,
}
use radar_ia.Publication.Orchestrator.{
  Flow, refused, or_return, map_persistence_error, port_code, port_retryable, failure_of,
  publication_of, attempt_of, role_of_hint, call_discord, guarded, claim_discord_execution,
  release_discord_execution, record_port_failure,
}
use radar_ia.Publication.Orchestrator.Thread.{complete_thread}

-- `skipped({ reason: "idempotent_hit", ... })`
abbrev pub hit :
    String → Option FolderPublication → Option PublicationAttempt → PublicationErrorCode → Flow
hit folder_id p a code = pure (skipped SkipReason.idempotent_hit folder_id p a (some code))

-- the channel of a publication that is partial with its main message known
abbrev pub resumable : PublicationStatus → Option String → Option String → Option (String × String)
resumable PublicationStatus.partial (some main) (some channel) = some (main, channel)
resumable _ _ _ = none

abbrev pub hint_error : Option String → PublicationErrorCode
hint_error none = PublicationErrorCode.channel_unmapped
hint_error (some h) =
    if str_eq h "none"
    then PublicationErrorCode.channel_unmapped
    else PublicationErrorCode.precondition_failed

abbrev pub non_blank : Option String → Option String
non_blank none = none
non_blank (some s) = if is_blank s then none else some s

-- the role, the channel and the content, once the guards have passed
pub record Target : Type 0 where
  pub role : ChannelRole
  pub channel_id : String
  pub content : ValidatedContent

module _ (o : Options) (input : OrchestrationInput) (folder : NewsFolder) (target : Target) where
  unfoldable pub build : Option MainContent
  build = o.build_main (record {
    folder_id = input.folder_id;
    title = folder.title;
    channel_role = target.role;
    content = target.content;
    sources = input.sources;
    useful_date = or_else input.useful_date folder.last_activity_at;
  })

  unfoldable pub thread_of : MainContent → String → String → Flow
  thread_of built channel main = complete_thread o (record {
    folder_id = input.folder_id;
    channel_id = channel;
    main_message_id = main;
    thread_name = built.thread_name;
    channel_role = target.role;
  })

  -- the result when the message is on Discord and its record failed
  abbrev unrecorded : FolderPublication → PublicationAttempt → String → OrchestrationResult
  unrecorded p a message =
      partial input.folder_id message
        (some (record p {
          channel_id = some target.channel_id;
          main_message_id = some message;
          status = PublicationStatus.partial;
        }))
        (some a) PublicationErrorCode.persist_failed false

  unfoldable pub after_main_record :
      MainContent → FolderPublication → PublicationAttempt → String → Result Recorded → Flow
  after_main_record built p a message (ok r) = thread_of built target.channel_id message
  after_main_record built p a message (err e) = pure (unrecorded p a message)

  -- The lease is released before the message is recorded.
  unfoldable pub after_send :
      MainContent → FolderPublication → PublicationAttempt → Result String → Flow
  after_send built p a (ok message) = do
    release_discord_execution o a.id
    recorded ← attempt (
        guarded o main_success (
          record_main_publication_success (record {
            folder_id = input.folder_id;
            channel_id = target.channel_id;
            guild_id = o.guild_id;
            main_message_id = message;
            thread_id = none;
            analysis_attempt_id = input.analysis_attempt_id;
            attempt_id = some a.id;
            idempotency_key = none;
          })))
    after_main_record built p a message recorded
  after_send built p a (err e) = do
    release_discord_execution o a.id
    recorded ←
        record_port_failure o
          (failure_of input.folder_id a.id (port_code e) (port_retryable e) true)
    pure (
        failed input.folder_id (port_code e) (port_retryable e)
          (or_option (publication_of recorded) (some p)) (or_option (attempt_of recorded) (some a)))

  unfoldable pub after_claim :
      MainContent → FolderPublication → PublicationAttempt → Option PublicationAttempt → Flow
  after_claim built p a none = hit input.folder_id (some p) (some a) PublicationErrorCode.hold
  after_claim built p a (some claimed) = do
    sent ←
        attempt (call_discord o (send_main_message input.folder_id target.channel_id built.payload))
    after_send built p a sent

  unfoldable pub run_send : MainContent → FolderPublication → PublicationAttempt → Flow
  run_send built p a = do claimed ← claim_discord_execution o a.id; after_claim built p a claimed

  -- neither complete nor partial: go on under an attempt that is still reserved
  unfoldable pub hit_unpublished :
      MainContent → FolderPublication → PublicationAttempt → HitReason → Flow
  hit_unpublished built p a already_published =
      if is_reserved a.status && is_none p.main_message_id
      then run_send built p a
      else hit input.folder_id (some p) (some a) PublicationErrorCode.idempotent_hit
  hit_unpublished built p a reason = run_send built p a

  unfoldable pub hit_partial :
      MainContent
      → FolderPublication
      → PublicationAttempt
      → HitReason
      → Option (String × String)
      → Flow
  hit_partial built p a reason (some (main, channel)) = thread_of built channel main
  hit_partial built p a reason none = hit_unpublished built p a reason

  unfoldable pub after_reserve : MainContent → Result ReserveOutcome → Flow
  after_reserve built (ok (ReserveOutcome.reserved p a)) = run_send built p a
  after_reserve built (ok (ReserveOutcome.idempotent_hit p a reason)) =
      if has_main p && is_some p.main_message_id && is_some p.thread_id
      then hit input.folder_id (some p) (some a) PublicationErrorCode.idempotent_hit
      else hit_partial built p a reason (resumable p.status p.main_message_id p.channel_id)
  after_reserve built (err (Exn.persistence PersistenceErrorCode.folder_closed)) = pure (
      skipped SkipReason.folder_closed input.folder_id none none
        (some PublicationErrorCode.folder_closed))
  after_reserve built (err (Exn.persistence code)) =
      refused input.folder_id (map_persistence_error code)
  after_reserve built (err e) = throw e

  unfoldable pub publish_new : Flow
  publish_new =
      or_return build (refused input.folder_id PublicationErrorCode.precondition_failed) λ built. do
        reserved ← attempt (
            guarded o reservation (
              reserve_publish (record {
                folder_id = input.folder_id;
                guild_id = o.guild_id;
                analysis_attempt_id = input.analysis_attempt_id;
                idempotency_key = some (publish_key input.folder_id);
              })))
        after_reserve built reserved

  -- "Reprise": the thread of a partial publication
  unfoldable pub publish_resumed : FolderPublication → String × String → Flow
  publish_resumed existing (main, channel) =
      or_return build
        (pure (
          failed input.folder_id PublicationErrorCode.precondition_failed false (some existing)
            none))
        λ built. thread_of built channel main

  unfoldable pub publish_unpublished : FolderPublication → Option (String × String) → Flow
  publish_unpublished existing none = publish_new
  publish_unpublished existing (some r) = publish_resumed existing r

  unfoldable pub publish_existing : Option FolderPublication → Flow
  publish_existing none = publish_new
  publish_existing (some p) =
      if has_main p
      then hit input.folder_id (some p) none PublicationErrorCode.idempotent_hit
      else publish_unpublished p (resumable p.status p.main_message_id p.channel_id)

  unfoldable pub publish_target : Flow
  publish_target = do
    existing ← load_publication_by_folder input.folder_id
    publish_existing existing

unfoldable pub run_publish : Options → OrchestrationInput → NewsFolder → Flow
run_publish o input folder =
    let unmapped = refused input.folder_id PublicationErrorCode.channel_unmapped in
    let precondition = refused input.folder_id PublicationErrorCode.precondition_failed in
    if is_blank_or_null input.analysis_attempt_id
    then precondition
    else or_return (role_of_hint input.channel_hint)
        (refused input.folder_id (hint_error input.channel_hint))
        λ role.
          or_return (non_blank (o.resolve_channel_id (or_else input.channel_hint ""))) unmapped
            λ channel_id. or_return input.validated_content precondition λ content.
              publish_target o input folder
                (record { role = role; channel_id = channel_id; content = content })
