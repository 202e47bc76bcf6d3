-- ===== src/Publication/Outcome.antt =====
-- publication-orchestration-types.ts: the orchestrator's input, its result, and what it is given.
use radar_ia.Prelude.{ℕ, String, Bool, Option, List}
use radar_ia.Analysis.Types.{PublicationDecision}
use radar_ia.Publication.Types.{PublicationErrorCode, FolderPublication, PublicationAttempt}
use radar_ia.Publication.Exec.{Result}
use radar_ia.Publication.World.{World, DiscordCall, CallRecord}

-- PUBLICATION_CHANNEL_ROLES of packages/shared/src/publication-discord-types.ts
pub data ChannelRole : Type 0 where
  annonces_majeures veille_pertinente flux_ia : ChannelRole

pub record ValidatedContent : Type 0 where
  pub summary : String
  pub primary_category : String
  pub publish_worthiness : String
  pub composite : ℕ

pub record Source : Type 0 where
  pub name : String
  pub url : Option String

pub record Fact : Type 0 where
  pub key : String
  pub value : String

pub record OrchestrationInput : Type 0 where
  pub folder_id : String
  pub decision : PublicationDecision
  pub analysis_attempt_id : Option String
  pub channel_hint : Option String
  pub aggregate_fingerprint : Option String
  pub validated_content : Option ValidatedContent
  pub sources : List Source
  pub new_facts : List Fact
  pub new_sources : List Source
  pub useful_date : Option ℕ

pub data SkipReason : Type 0 where
  hold reject_editorial idempotent_hit folder_closed : SkipReason

-- Every result carries the folder; a publication that the code asserts with `!` may be absent.
pub data OrchestrationResult : Type 0 where
  skipped :
      SkipReason
      → String
      → Option FolderPublication
      → Option PublicationAttempt
      → Option PublicationErrorCode
      → OrchestrationResult
  succeeded :
      String
      → String
      → String
      → FolderPublication
      → Option PublicationAttempt
      → ChannelRole
      → OrchestrationResult
  enriched : String → String → FolderPublication → Option PublicationAttempt → OrchestrationResult
  partial :
      String
      → String
      → Option FolderPublication
      → Option PublicationAttempt
      → PublicationErrorCode
      → Bool
      → OrchestrationResult
  failed :
      String
      → PublicationErrorCode
      → Bool
      → Option FolderPublication
      → Option PublicationAttempt
      → OrchestrationResult

-- what the content builders read, and what buildMain returns
pub record MainContentInput : Type 0 where
  pub folder_id : String
  pub title : String
  pub channel_role : ChannelRole
  pub content : ValidatedContent
  pub sources : List Source
  pub useful_date : ℕ

pub record EnrichmentContentInput : Type 0 where
  pub folder_id : String
  pub new_facts : List Fact
  pub new_sources : List Source
  pub aggregate_fingerprint : String

pub record MainContent : Type 0 where
  pub payload : String
  pub thread_name : String

-- the writes of a flow: the reservation, the lease's claim and release, and the four records
pub data RecordWrite : Type 0 where
  reservation lease_claim lease_release main_success thread_created enrichment_published failure :
      RecordWrite

-- PublicationOrchestratorOptions: the injected ports and builders, and the behaviour of what lies
-- outside: Discord's answer to each call, whether Discord carries a call out that it answers with an
-- error, the time a call takes, and when a write meets an outage.
pub record Options : Type 0 where
  pub discord : List CallRecord → DiscordCall → Result String
  pub unanswered : List CallRecord → DiscordCall → Bool
  pub elapsed : List CallRecord → DiscordCall → ℕ
  pub outage : RecordWrite → World → Bool
  pub resolve_channel_id : String → Option String
  pub guild_id : String
  pub execution_holder_id : String
  pub execution_lease_ms : ℕ
  -- `none` is a PublicationContentError
  pub build_main : MainContentInput → Option MainContent
  pub build_enrichment : EnrichmentContentInput → Option String
