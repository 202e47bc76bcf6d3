-- ===== src/Publication/Repository/Reserve.antt =====
-- getOrCreateFolderPublication, reservePublish and reserveOperation.
use radar_ia.Prelude.{
  ℕ, suc, ◌+◌, String, Bool, true, false, not, ◌&&◌, ◌||◌, Option, none, some, ◌∷◌, is_blank,
  str_eq, or_else, is_some, if◌then◌else◌, max,
}
use radar_ia.Publication.Types.{
  PublicationStatus, pending, AttemptStatus, OperationKind, publish, create_thread, enrich,
  FolderPublication, PublicationAttempt, IdempotencyKey, publish_key, HitReason, already_published,
  already_reserved, already_succeeded, ReserveOutcome, same_status, has_main,
  main_already_reserved_or_exists, enrichment_precondition_failed,
}
use radar_ia.Publication.Exec.{persistence, M, pure, throw, transaction, ◌>>=◌, ◌>>◌}
use radar_ia.Publication.World.{
  World, same_key, is_active, is_reserved, is_succeeded, is_publish, latest,
}
use radar_ia.Publication.Repository.{
  ensure, assert_non_empty, assert_idempotency_key, assert_positive_attempt_number,
  assert_transition, require_open_folder, load_publication_by_folder, save_publication, or_throw,
}

abbrev pub new_publication : String → String → FolderPublication
new_publication folder_id guild_id = record {
  folder_id = folder_id;
  status = PublicationStatus.none;
  guild_id = guild_id;
  channel_id = none;
  main_message_id = none;
  thread_id = none;
  source_analysis_attempt_id = none;
  last_error_code = none;
}

abbrev pub or_create : String → String → Option FolderPublication → M World FolderPublication
or_create folder_id guild_id none = save_publication (new_publication folder_id guild_id)
or_create folder_id guild_id (some p) = pure p

-- The unique index makes a lost race end in the row of the winner, which the sequential run of
-- `or_create` cannot meet.
unfoldable pub get_or_create_folder_publication : String → String → M World FolderPublication
get_or_create_folder_publication folder_id guild_id = do
  assert_non_empty folder_id
  assert_non_empty guild_id
  require_open_folder folder_id
  existing ← load_publication_by_folder folder_id
  or_create folder_id guild_id existing

-- an attempt as `create` makes it: reserved, with no result and no lease
abbrev pub new_attempt :
    ℕ
    → String
    → OperationKind
    → ℕ
    → IdempotencyKey
    → Option String
    → Option String
    → PublicationAttempt
new_attempt i folder_id kind number key analysis fingerprint = record {
  id = i;
  folder_id = folder_id;
  kind = kind;
  attempt_number = number;
  idempotency_key = key;
  analysis_attempt_id = analysis;
  event_fingerprint = fingerprint;
  status = AttemptStatus.reserved;
  discord_message_id = none;
  discord_thread_id = none;
  error_code = none;
  retryable = false;
  next_attempt_at = none;
  execution_holder_id = none;
  execution_lease_expires_at = none;
}

unfoldable pub create_attempt :
    String
    → OperationKind
    → ℕ
    → IdempotencyKey
    → Option String
    → Option String
    → M World PublicationAttempt
create_attempt folder_id kind number key analysis fingerprint w =
    let a = new_attempt w.next_id folder_id kind number key analysis fingerprint in
    pure a (record w { attempts = a ∷ w.attempts; next_id = suc w.next_id })

-- `lastAttempt?.attemptNumber ?? 0`
abbrev pub number_of : Option PublicationAttempt → ℕ
number_of none = 0
number_of (some a) = a.attempt_number

abbrev pub under : IdempotencyKey → PublicationAttempt → Bool
under key a = same_key a.idempotency_key key

abbrev pub active_under : IdempotencyKey → PublicationAttempt → Bool
active_under key a = same_key a.idempotency_key key && is_active a.status

abbrev pub hit_reason : AttemptStatus → HitReason
hit_reason AttemptStatus.succeeded = already_succeeded
hit_reason _ = already_reserved

abbrev pub find_latest : (PublicationAttempt → Bool) → M World (Option PublicationAttempt)
find_latest p w = pure (latest p w.attempts) w

pub record ReservePublishInput : Type 0 where
  pub folder_id : String
  pub guild_id : String
  pub analysis_attempt_id : Option String
  pub idempotency_key : Option IdempotencyKey

-- the folder already has its main message
abbrev pub published_hit : FolderPublication → Option PublicationAttempt → M World ReserveOutcome
published_hit p none = throw (persistence main_already_reserved_or_exists)
published_hit p (some a) = pure (ReserveOutcome.idempotent_hit p a already_published)

abbrev pub to_pending : ReservePublishInput → FolderPublication → FolderPublication
to_pending input p = record p {
  status = pending;
  guild_id = input.guild_id;
  source_analysis_attempt_id = input.analysis_attempt_id;
  last_error_code = none;
}

-- move the publication to `pending`, unless it is, and add the attempt
unfoldable pub reserve_new :
    ReservePublishInput → IdempotencyKey → FolderPublication → M World ReserveOutcome
reserve_new input key p = do
  q ←
      if same_status p.status pending
      then pure p
      else do assert_transition p.status pending; save_publication (to_pending input p)
  last ← find_latest (under key)
  let number = number_of last + 1
  assert_positive_attempt_number number
  a ← create_attempt input.folder_id publish number key input.analysis_attempt_id none
  pure (ReserveOutcome.reserved q a)

abbrev pub is_pending_publish : String → PublicationAttempt → Bool
is_pending_publish folder_id a =
    str_eq a.folder_id folder_id && is_publish a.kind && is_reserved a.status

abbrev pub hit_or :
    FolderPublication → M World ReserveOutcome → Option PublicationAttempt → M World ReserveOutcome
hit_or p rest none = rest
hit_or p rest (some a) = pure (ReserveOutcome.idempotent_hit p a (hit_reason a.status))

-- a pending publication whose reserved publish stands under another key
unfoldable pub reserve_waiting :
    ReservePublishInput → IdempotencyKey → FolderPublication → M World ReserveOutcome
reserve_waiting input key p = do
  waiting ← find_latest (is_pending_publish input.folder_id)
  hit_or p (reserve_new input key p) waiting

unfoldable pub reserve_unpublished :
    ReservePublishInput → IdempotencyKey → FolderPublication → M World ReserveOutcome
reserve_unpublished input key p = do
  active ← find_latest (active_under key)
  hit_or p
      (if same_status p.status pending
        then reserve_waiting input key p
        else reserve_new input key p)
      active

abbrev pub succeeded_under : String → IdempotencyKey → PublicationAttempt → Bool
succeeded_under folder_id key a =
    str_eq a.folder_id folder_id && under key a && is_succeeded a.status

unfoldable pub reserve_published :
    ReservePublishInput → IdempotencyKey → FolderPublication → M World ReserveOutcome
reserve_published input key p = do
  existing ← find_latest (succeeded_under input.folder_id key)
  published_hit p existing

-- the body of the transaction, once the publication is loaded
unfoldable pub reserve_loaded :
    ReservePublishInput → IdempotencyKey → FolderPublication → M World ReserveOutcome
reserve_loaded input key p =
    if has_main p then reserve_published input key p else reserve_unpublished input key p

unfoldable pub reserve_publish : ReservePublishInput → M World ReserveOutcome
reserve_publish input = do
  assert_non_empty input.folder_id
  assert_non_empty input.guild_id
  let key = or_else input.idempotency_key (publish_key input.folder_id)
  assert_idempotency_key key
  transaction (do
    require_open_folder input.folder_id
    found ← load_publication_by_folder input.folder_id
    p ← or_create input.folder_id input.guild_id found
    reserve_loaded input key p)

pub record ReserveOperationInput : Type 0 where
  pub folder_id : String
  pub kind : OperationKind
  pub idempotency_key : IdempotencyKey
  pub analysis_attempt_id : Option String
  pub event_fingerprint : Option String
  pub attempt_number : Option ℕ

abbrev pub is_enrich : OperationKind → Bool
is_enrich enrich = true
is_enrich _ = false

abbrev pub is_create_thread : OperationKind → Bool
is_create_thread create_thread = true
is_create_thread _ = false

-- `undefined`, `null` or white space
abbrev pub is_blank_or_null : Option String → Bool
is_blank_or_null none = true
is_blank_or_null (some s) = is_blank s

unfoldable pub reserve_operation_on :
    ReserveOperationInput → ℕ → FolderPublication → M World ReserveOutcome
reserve_operation_on input number p = do
  ensure (not (is_enrich input.kind || is_create_thread input.kind) || has_main p)
      enrichment_precondition_failed
  ensure (not (is_create_thread input.kind) || is_some p.main_message_id)
      enrichment_precondition_failed
  active ← find_latest (active_under input.idempotency_key)
  hit_or p
      (do
        last ← find_latest (under input.idempotency_key)
        a ←
            create_attempt input.folder_id input.kind (max number (number_of last + 1))
              input.idempotency_key input.analysis_attempt_id input.event_fingerprint
        pure (ReserveOutcome.reserved p a))
      active

unfoldable pub reserve_operation : ReserveOperationInput → M World ReserveOutcome
reserve_operation input = do
  assert_non_empty input.folder_id
  assert_idempotency_key input.idempotency_key
  let number = or_else input.attempt_number 1
  assert_positive_attempt_number number
  ensure (not (is_enrich input.kind) || not (is_blank_or_null input.event_fingerprint))
      enrichment_precondition_failed
  transaction (do
    require_open_folder input.folder_id
    found ← load_publication_by_folder input.folder_id
    p ← or_throw enrichment_precondition_failed found
    reserve_operation_on input number p)
