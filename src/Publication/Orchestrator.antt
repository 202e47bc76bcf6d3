-- ===== src/Publication/Orchestrator.antt =====
-- publication-orchestrator.ts: the helpers that the three flows share. The flows are below.
pub mod Thread
pub mod Publish
pub mod Enrich
pub mod Process
use Prim.Native.String.{◌++◌}
use radar_ia.Prelude.{
  ℕ, zero, suc, ◌+◌, String, Bool, true, false, not, ◌&&◌, Option, none, some, ◌∷◌, str_eq,
  is_blank, if◌then◌else◌,
}
use radar_ia.Publication.Types.{
  PublicationErrorCode, PersistenceErrorCode, FolderPublication, PublicationAttempt,
}
use radar_ia.Publication.Exec.{Exn, Result, ok, err, M, pure, throw, attempt, gets, ◌>>=◌, ◌>>◌}
use radar_ia.Publication.World.{World, DiscordCall}
use radar_ia.Publication.Outcome.{
  OrchestrationResult, failed, Options, RecordWrite, lease_claim, lease_release, failure,
  ChannelRole, annonces_majeures, veille_pertinente, flux_ia,
}
use radar_ia.Publication.Repository.Record.{RecordFailureInput, Recorded, record_failure}
use radar_ia.Publication.Repository.Lease.{claim_execution, clear_execution_lease}

abbrev pub Flow : Type 0
Flow = M World OrchestrationResult

-- `failed(...)` with no publication and no attempt
abbrev pub refused : String → PublicationErrorCode → Flow
refused folder_id code = pure (failed folder_id code false none none)

-- early return unless the value is there
abbrev pub or_return : {A : Type 0} → Option A → Flow → (A → Flow) → Flow
or_return none r k = r
or_return (some a) r k = k a

unfoldable pub map_persistence_error : PersistenceErrorCode → PublicationErrorCode
map_persistence_error PersistenceErrorCode.folder_closed = PublicationErrorCode.folder_closed
map_persistence_error PersistenceErrorCode.folder_absent = PublicationErrorCode.precondition_failed
map_persistence_error PersistenceErrorCode.enrichment_precondition_failed =
    PublicationErrorCode.precondition_failed
map_persistence_error PersistenceErrorCode.main_already_reserved_or_exists =
    PublicationErrorCode.precondition_failed
map_persistence_error PersistenceErrorCode.forbidden_status_transition =
    PublicationErrorCode.inconsistent_state
map_persistence_error PersistenceErrorCode.inconsistent_state =
    PublicationErrorCode.inconsistent_state
map_persistence_error PersistenceErrorCode.invalid_idempotency_key =
    PublicationErrorCode.precondition_failed

unfoldable pub is_retryable_port_code : PublicationErrorCode → Bool
is_retryable_port_code PublicationErrorCode.discord_rate_limited = true
is_retryable_port_code PublicationErrorCode.discord_timeout = true
is_retryable_port_code PublicationErrorCode.discord_unavailable = true
is_retryable_port_code PublicationErrorCode.channel_unavailable = true
is_retryable_port_code _ = false

abbrev pub port_code : Exn → PublicationErrorCode
port_code (Exn.port_error code retryable) = code
port_code _ = PublicationErrorCode.unknown

abbrev pub port_retryable : Exn → Bool
port_retryable (Exn.port_error code retryable) = retryable
port_retryable _ = false

unfoldable pub role_of_hint : Option String → Option ChannelRole
role_of_hint none = none
role_of_hint (some hint) =
    if str_eq hint "annonces_majeures"
    then some annonces_majeures
    else if str_eq hint "veille_pertinente"
    then some veille_pertinente
    else if str_eq hint "flux_ia"
    then some flux_ia
    else none

unfoldable pub take_chars : ℕ → String → String
take_chars zero s = String.[]
take_chars (suc n) String.[] = String.[]
take_chars (suc n) (String.◌∷◌ c s) = String.◌∷◌ c (take_chars n s)

unfoldable pub thread_title : String → String
thread_title title = take_chars 100 ("Veille — " ++ title)

abbrev pub is_done : {A : Type 0} → Result A → Bool
is_done (ok a) = true
is_done (err e) = false

abbrev pub failure_of : String → ℕ → PublicationErrorCode → Bool → Bool → RecordFailureInput
failure_of folder_id i code retryable mark = record {
  folder_id = folder_id;
  attempt_id = some i;
  idempotency_key = none;
  error_code = code;
  retryable = retryable;
  next_attempt_at = none;
  mark_folder_failed = some mark;
}

-- what `recordPortFailure` gives back: nothing if the record failed too
abbrev pub publication_of : Result Recorded → Option FolderPublication
publication_of (ok r) = some r.publication
publication_of (err e) = none

abbrev pub attempt_of : Result Recorded → Option PublicationAttempt
attempt_of (ok r) = r.attempt
attempt_of (err e) = none

module _ (o : Options) where
  unfoldable pub call_discord : DiscordCall → M World String
  call_discord c w =
      let reply = o.discord w.calls c in
      (
        reply,
        record w {
          calls =
              record {
                call = c;
                done = is_done reply;
                lost = not (is_done reply) && o.unanswered w.calls c;
              }
              ∷ w.calls;
          clock = w.clock + o.elapsed w.calls c;
        },
      )

  -- a write that an outage may stop before it begins
  unfoldable pub guarded : {A : Type 0} → RecordWrite → M World A → M World A
  guarded write m w = if o.outage write w then throw Exn.other w else m w

  unfoldable pub claim_discord_execution : ℕ → M World (Option PublicationAttempt)
  claim_discord_execution i =
      guarded lease_claim
        λ w. claim_execution i o.execution_holder_id o.execution_lease_ms w.clock w

  -- best effort
  unfoldable pub release_discord_execution : ℕ → M World (Result (Option PublicationAttempt))
  release_discord_execution i =
      attempt (guarded lease_release (clear_execution_lease i o.execution_holder_id))

  unfoldable pub record_port_failure : RecordFailureInput → M World (Result Recorded)
  record_port_failure input = attempt (guarded failure (record_failure input))
