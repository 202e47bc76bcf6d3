-- ===== src/Publication/Repository/Record.antt =====
-- recordMainPublicationSuccess, recordThreadCreated, recordEnrichmentPublished and recordFailure.
use radar_ia.Prelude.{
  ℕ, String, Bool, true, false, ◌&&◌, Option, none, some, or_else, or_option, is_some, is_none,
  if◌then◌else◌,
}
use radar_ia.Publication.Types.{
  PublicationStatus, pending, partial, main_published, AttemptStatus, PublicationErrorCode,
  FolderPublication, PublicationAttempt, IdempotencyKey, same_status, has_main,
  enrichment_precondition_failed, inconsistent_state,
}
use radar_ia.Publication.Exec.{M, pure, transaction, ◌>>=◌, ◌>>◌}
use radar_ia.Publication.World.{World, is_reserved, is_publish, update_attempt}
use radar_ia.Publication.Repository.{
  ensure, assert_non_empty, assert_transition, load_publication_by_folder, save_publication,
  or_throw, resolve_attempt,
}

-- `update({ where: { id }, data })` on the attempt `a`, with the row that it returns
unfoldable pub write_attempt : PublicationAttempt → PublicationAttempt → M World PublicationAttempt
write_attempt a b w = pure b (record w { attempts = update_attempt a.id (λ _. b) w.attempts })

-- What marks a reserved attempt as succeeded; a message or thread that is not given is kept.
abbrev pub to_succeeded : Option String → Option String → PublicationAttempt → PublicationAttempt
to_succeeded message thread a = record a {
  status = AttemptStatus.succeeded;
  discord_message_id = message;
  discord_thread_id = thread;
  error_code = none;
  retryable = false;
  next_attempt_at = none;
}

unfoldable pub finish_resolved :
    (PublicationAttempt → PublicationAttempt)
    → PublicationAttempt
    → M World (Option PublicationAttempt)
finish_resolved done a =
    if is_reserved a.status then (do b ← write_attempt a (done a); pure (some b)) else pure (some a)

-- the attempt that the input names, marked if it is still reserved
unfoldable pub finish_attempt :
    String
    → Option ℕ
    → Option IdempotencyKey
    → (PublicationAttempt → PublicationAttempt)
    → M World (Option PublicationAttempt)
finish_attempt folder_id none none done = pure none
finish_attempt folder_id (some i) key done = do
  a ← resolve_attempt folder_id (some i) key
  finish_resolved done a
finish_attempt folder_id none (some key) done = do
  a ← resolve_attempt folder_id none (some key)
  finish_resolved done a

pub record Recorded : Type 0 where
  pub publication : FolderPublication
  pub attempt : Option PublicationAttempt

-- the publication's new row, then the attempt
unfoldable pub save_and_finish :
    String
    → Option ℕ
    → Option IdempotencyKey
    → (PublicationAttempt → PublicationAttempt)
    → FolderPublication
    → M World Recorded
save_and_finish folder_id i key done q = do
  saved ← save_publication q
  a ← finish_attempt folder_id i key done
  pure (record { publication = saved; attempt = a })

pub record RecordMainInput : Type 0 where
  pub folder_id : String
  pub channel_id : String
  pub guild_id : String
  pub main_message_id : String
  pub thread_id : Option String
  pub analysis_attempt_id : Option String
  pub attempt_id : Option ℕ
  pub idempotency_key : Option IdempotencyKey

abbrev pub status_after_main : Option String → PublicationStatus
status_after_main none = partial
status_after_main (some t) = main_published

-- The code's branches on the old status all come to the same assertion.
unfoldable pub main_recorded : RecordMainInput → FolderPublication → FolderPublication
main_recorded input p = record p {
  status = status_after_main input.thread_id;
  guild_id = input.guild_id;
  channel_id = some input.channel_id;
  main_message_id = some input.main_message_id;
  thread_id = input.thread_id;
  source_analysis_attempt_id = or_option input.analysis_attempt_id p.source_analysis_attempt_id;
  last_error_code = none;
}

abbrev pub assert_thread : Option String → M World Unit
assert_thread none = pure tt
assert_thread (some t) = assert_non_empty t

-- `if (from !== to) assertTransition(from, to)`
abbrev pub assert_change : PublicationStatus → PublicationStatus → M World Unit
assert_change from to = if same_status from to then pure tt else assert_transition from to

unfoldable pub record_main_publication_success : RecordMainInput → M World Recorded
record_main_publication_success input = do
  assert_non_empty input.folder_id
  assert_non_empty input.guild_id
  assert_non_empty input.channel_id
  assert_non_empty input.main_message_id
  assert_thread input.thread_id
  transaction (do
    found ← load_publication_by_folder input.folder_id
    p ← or_throw inconsistent_state found
    assert_change p.status (status_after_main input.thread_id)
    save_and_finish input.folder_id input.attempt_id input.idempotency_key
        (to_succeeded (some input.main_message_id) input.thread_id) (main_recorded input p))

unfoldable pub record_thread_created :
    String → String → Option ℕ → Option IdempotencyKey → M World Recorded
record_thread_created folder_id thread_id attempt_id key = do
  assert_non_empty folder_id
  assert_non_empty thread_id
  transaction (do
    found ← load_publication_by_folder folder_id
    p ← or_throw inconsistent_state found
    ensure (is_some p.main_message_id) inconsistent_state
    assert_change p.status main_published
    save_and_finish folder_id attempt_id key
        (λ a. to_succeeded a.discord_message_id (some thread_id) a)
        (record p { status = main_published; thread_id = some thread_id; last_error_code = none }))

unfoldable pub record_enrichment_published :
    String → String → Option ℕ → Option IdempotencyKey → M World Recorded
record_enrichment_published folder_id message_id attempt_id key = do
  assert_non_empty folder_id
  assert_non_empty message_id
  transaction (do
    found ← load_publication_by_folder folder_id
    p ← or_throw enrichment_precondition_failed found
    ensure (has_main p) enrichment_precondition_failed
    save_and_finish folder_id attempt_id key
        (λ a. to_succeeded (some message_id) a.discord_thread_id a)
        (record p { last_error_code = none }))

pub record RecordFailureInput : Type 0 where
  pub folder_id : String
  pub attempt_id : Option ℕ
  pub idempotency_key : Option IdempotencyKey
  pub error_code : PublicationErrorCode
  pub retryable : Bool
  pub next_attempt_at : Option ℕ
  -- `markFolderFailed ?? true`
  pub mark_folder_failed : Option Bool

abbrev pub is_open_attempt : AttemptStatus → Bool
is_open_attempt AttemptStatus.reserved = true
is_open_attempt AttemptStatus.failed = true
is_open_attempt _ = false

unfoldable pub to_failed : RecordFailureInput → PublicationAttempt → PublicationAttempt
to_failed input a = record a {
  status = AttemptStatus.failed;
  error_code = some input.error_code;
  retryable = input.retryable;
  next_attempt_at = input.next_attempt_at;
}

-- a failed publish with nothing on Discord takes the folder's publication to `failed`
unfoldable pub fails_folder : RecordFailureInput → PublicationAttempt → FolderPublication → Bool
fails_folder input a p =
    or_else input.mark_folder_failed true
    && is_publish a.kind
    && is_none p.main_message_id
    && same_status p.status pending

unfoldable pub mark_failure :
    RecordFailureInput → PublicationAttempt → FolderPublication → M World FolderPublication
mark_failure input a p =
    if fails_folder input a p
    then (do
      assert_transition p.status PublicationStatus.failed
      save_publication
          (record p { status = PublicationStatus.failed; last_error_code = some input.error_code }))
    else save_publication (record p { last_error_code = some input.error_code })

unfoldable pub record_failure : RecordFailureInput → M World Recorded
record_failure input = do
  assert_non_empty input.folder_id
  transaction (do
    found ← load_publication_by_folder input.folder_id
    p ← or_throw inconsistent_state found
    current ← resolve_attempt input.folder_id input.attempt_id input.idempotency_key
    ensure (is_open_attempt current.status) inconsistent_state
    a ← write_attempt current (to_failed input current)
    q ← mark_failure input current p
    pure (record { publication = q; attempt = some a }))
