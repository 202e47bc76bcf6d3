-- ===== src/Publication/Types.antt =====
-- publication-types.ts and the enums of prisma/schema.prisma that it exports. Timestamps that no
-- decision reads (createdAt, updatedAt, lastActivityAt, attemptedAt, durationMs) are left out.
use radar_ia.Prelude.{ℕ, String, Bool, true, false, ◌&&◌, Option, is_some}

pub data NewsFolderStatus : Type 0 where
  opened idle closed : NewsFolderStatus

pub data PublicationStatus : Type 0 where
  none pending partial main_published failed inconsistent : PublicationStatus

pub data OperationKind : Type 0 where
  publish create_thread enrich unarchive reconcile : OperationKind

pub data AttemptStatus : Type 0 where
  reserved succeeded failed skipped : AttemptStatus

pub data PublicationErrorCode : Type 0 where
  folder_closed precondition_failed channel_unmapped channel_unavailable : PublicationErrorCode
  missing_permission discord_rate_limited discord_timeout : PublicationErrorCode
  discord_unavailable persist_failed inconsistent_state idempotent_hit : PublicationErrorCode
  hold reject_editorial unknown : PublicationErrorCode

pub data PersistenceErrorCode : Type 0 where
  folder_absent folder_closed main_already_reserved_or_exists : PersistenceErrorCode
  enrichment_precondition_failed inconsistent_state : PersistenceErrorCode
  invalid_idempotency_key forbidden_status_transition : PersistenceErrorCode

abbrev pub same_status : PublicationStatus → PublicationStatus → Bool
same_status PublicationStatus.none PublicationStatus.none = true
same_status PublicationStatus.pending PublicationStatus.pending = true
same_status PublicationStatus.partial PublicationStatus.partial = true
same_status PublicationStatus.main_published PublicationStatus.main_published = true
same_status PublicationStatus.failed PublicationStatus.failed = true
same_status PublicationStatus.inconsistent PublicationStatus.inconsistent = true
same_status _ _ = false

-- PUBLICATION_STATUS_TRANSITIONS[from].includes(to)
abbrev pub is_allowed : PublicationStatus → PublicationStatus → Bool
is_allowed PublicationStatus.none PublicationStatus.pending = true
is_allowed PublicationStatus.pending PublicationStatus.main_published = true
is_allowed PublicationStatus.pending PublicationStatus.partial = true
is_allowed PublicationStatus.pending PublicationStatus.failed = true
is_allowed PublicationStatus.partial PublicationStatus.main_published = true
is_allowed PublicationStatus.partial PublicationStatus.inconsistent = true
is_allowed PublicationStatus.main_published PublicationStatus.inconsistent = true
is_allowed PublicationStatus.failed PublicationStatus.pending = true
is_allowed _ _ = false

abbrev pub is_main_status : PublicationStatus → Bool
is_main_status PublicationStatus.partial = true
is_main_status PublicationStatus.main_published = true
is_main_status PublicationStatus.inconsistent = true
is_main_status _ = false

abbrev pub compute_has_main_publication : PublicationStatus → Option String → Bool
compute_has_main_publication status main = is_some main && is_main_status status

-- The idempotency keys by their parts: the code joins the kind and the parts with colons, and an
-- id (a cuid, a snowflake or a SHA-256 in hex) holds no colon, so the text determines the parts.
pub data IdempotencyKey : Type 0 where
  publish_key : String → IdempotencyKey
  create_thread_key : String → String → IdempotencyKey
  enrich_key : String → String → String → IdempotencyKey
  unarchive_key : String → String → IdempotencyKey

pub record FolderPublication : Type 0 where
  pub folder_id : String
  pub status : PublicationStatus
  pub guild_id : String
  pub channel_id : Option String
  pub main_message_id : Option String
  pub thread_id : Option String
  pub source_analysis_attempt_id : Option String
  pub last_error_code : Option PublicationErrorCode

abbrev pub has_main : FolderPublication → Bool
has_main p = compute_has_main_publication p.status p.main_message_id

pub record PublicationAttempt : Type 0 where
  pub id : ℕ
  pub folder_id : String
  pub kind : OperationKind
  pub attempt_number : ℕ
  pub idempotency_key : IdempotencyKey
  pub analysis_attempt_id : Option String
  pub event_fingerprint : Option String
  pub status : AttemptStatus
  pub discord_message_id : Option String
  pub discord_thread_id : Option String
  pub error_code : Option PublicationErrorCode
  pub retryable : Bool
  pub next_attempt_at : Option ℕ
  pub execution_holder_id : Option String
  pub execution_lease_expires_at : Option ℕ

pub data HitReason : Type 0 where
  already_published already_reserved already_succeeded : HitReason

pub data ReserveOutcome : Type 0 where
  reserved : FolderPublication → PublicationAttempt → ReserveOutcome
  idempotent_hit : FolderPublication → PublicationAttempt → HitReason → ReserveOutcome
