-- ===== src/Publication/Once/ThreadFlow.antt =====
-- completeThread and the invariant.
use radar_ia.Prelude.{refl, ℕ, String, false, Option, none, some}
use radar_ia.Publication.Types.{
  PublicationStatus, AttemptStatus, FolderPublication, PublicationAttempt, ReserveOutcome,
  create_thread, create_thread_key,
}
use radar_ia.Publication.Exec.{Exn, Result, ok, err, attempt}
use radar_ia.Publication.Hoare.{Keeps, spec-bind, spec-throw}
use radar_ia.Publication.World.{start_thread}
use radar_ia.Publication.Repository.{load_publication_by_folder}
use radar_ia.Publication.Repository.Reserve.{ReserveOperationInput, reserve_operation}
use radar_ia.Publication.Repository.Record.{Recorded, record_thread_created}
use radar_ia.Publication.Outcome.{reservation, Options, thread_created}
use radar_ia.Publication.Orchestrator.{
  port_code, port_retryable, failure_of, call_discord, guarded, claim_discord_execution,
  release_discord_execution, record_port_failure,
}
use radar_ia.Publication.Orchestrator.Thread.{
  ThreadInput, after_record, after_start, after_claim, run_thread, from_attempt, from_publication,
  after_reserve, complete_thread,
}
use radar_ia.Publication.Once.Invariant.{Inv}
use radar_ia.Publication.Once.Results.{record_thread_created-Inv}
use radar_ia.Publication.Once.Release.{attempt-Keeps, release-Inv}
use radar_ia.Publication.Once.Calls.{call_discord-Inv}
use radar_ia.Publication.Once.Reserve.{reserve_operation-Inv}
use radar_ia.Publication.Once.Guarded.{guarded-Keeps}
use radar_ia.Publication.Once.Steps.{claim-Inv, load-Keeps, unmarked_failure-Keeps, pure-Keeps}

module _ (f : String) (o : Options) (input : ThreadInput) where
  after_record-Inv :
      (i : ℕ) (thread : String) (r : Result Recorded)
      → Keeps (Inv f) (after_record o input i thread r)
  unfolding after_record
  after_record-Inv i thread (ok r) =
      spec-bind (release_discord_execution o i) _ (release-Inv f i o) λ _. pure-Keeps (Inv f) _
  after_record-Inv i thread (err e) =
      spec-bind (release_discord_execution o i) _ (release-Inv f i o) λ _.
        spec-bind (load_publication_by_folder input.folder_id) _ (load-Keeps f input.folder_id)
          λ p. pure-Keeps (Inv f) _

  after_start-Inv : (i : ℕ) (r : Result String) → Keeps (Inv f) (after_start o input i r)
  unfolding after_start
  after_start-Inv i (ok thread) =
      let m = record_thread_created input.folder_id thread (some i) none in
      spec-bind (attempt (guarded o thread_created m)) _
        (attempt-Keeps (Inv f) (guarded o thread_created m) (
          guarded-Keeps (Inv f) o thread_created m
            (record_thread_created-Inv f input.folder_id thread (some i) none)))
        λ r. after_record-Inv i thread r
  after_start-Inv i (err e) = spec-bind (release_discord_execution o i) _ (release-Inv f i o) λ _.
      spec-bind
        (record_port_failure o
          (failure_of input.folder_id i (port_code e) (port_retryable e) false))
        _ (unmarked_failure-Keeps f input.folder_id o i (port_code e) (port_retryable e))
        λ r.
          spec-bind (load_publication_by_folder input.folder_id) _ (load-Keeps f input.folder_id)
            λ p. pure-Keeps (Inv f) _

  after_claim-Inv :
      (p : FolderPublication) (a : PublicationAttempt) (c : Option PublicationAttempt)
      → Keeps (Inv f) (after_claim o input p a c)
  unfolding after_claim
  after_claim-Inv p a none = pure-Keeps (Inv f) _
  after_claim-Inv p a (some c) =
      let call = start_thread input.channel_id input.main_message_id input.thread_name in
      spec-bind (attempt (call_discord o call)) _
        (attempt-Keeps (Inv f) (call_discord o call) (call_discord-Inv o f call λ b. refl))
        λ r. after_start-Inv a.id r

  run_thread-Inv :
      (p : FolderPublication) (a : PublicationAttempt) → Keeps (Inv f) (run_thread o input p a)
  unfolding run_thread
  run_thread-Inv p a =
      spec-bind (claim_discord_execution o a.id) _ (claim-Inv f o a.id) λ c. after_claim-Inv p a c

  from_attempt-Inv :
      (s : AttemptStatus) (t : Option String) (p : FolderPublication) (a : PublicationAttempt)
      → Keeps (Inv f) (from_attempt o input s t p a)
  unfolding from_attempt
  from_attempt-Inv AttemptStatus.succeeded (some t) p a = pure-Keeps (Inv f) _
  from_attempt-Inv AttemptStatus.succeeded none p a = run_thread-Inv p a
  from_attempt-Inv AttemptStatus.reserved t p a = run_thread-Inv p a
  from_attempt-Inv AttemptStatus.failed t p a = run_thread-Inv p a
  from_attempt-Inv AttemptStatus.skipped t p a = run_thread-Inv p a

  from_publication-Inv :
      (s : PublicationStatus) (t : Option String) (p : FolderPublication) (a : PublicationAttempt)
      → Keeps (Inv f) (from_publication o input s t p a)
  unfolding from_publication
  from_publication-Inv PublicationStatus.main_published (some t) p a = pure-Keeps (Inv f) _
  from_publication-Inv PublicationStatus.main_published none p a =
      from_attempt-Inv a.status a.discord_thread_id p a
  from_publication-Inv PublicationStatus.none t p a =
      from_attempt-Inv a.status a.discord_thread_id p a
  from_publication-Inv PublicationStatus.pending t p a =
      from_attempt-Inv a.status a.discord_thread_id p a
  from_publication-Inv PublicationStatus.partial t p a =
      from_attempt-Inv a.status a.discord_thread_id p a
  from_publication-Inv PublicationStatus.failed t p a =
      from_attempt-Inv a.status a.discord_thread_id p a
  from_publication-Inv PublicationStatus.inconsistent t p a =
      from_attempt-Inv a.status a.discord_thread_id p a

  after_reserve-Inv : (r : Result ReserveOutcome) → Keeps (Inv f) (after_reserve o input r)
  unfolding after_reserve
  after_reserve-Inv (ok (ReserveOutcome.reserved p a)) = run_thread-Inv p a
  after_reserve-Inv (ok (ReserveOutcome.idempotent_hit p a reason)) =
      from_publication-Inv p.status p.thread_id p a
  after_reserve-Inv (err (Exn.persistence code)) =
      spec-bind (load_publication_by_folder input.folder_id) _ (load-Keeps f input.folder_id)
        λ p. pure-Keeps (Inv f) _
  after_reserve-Inv (err (Exn.port_error code retryable)) = spec-throw _ (λ w h. h)
  after_reserve-Inv (err Exn.content) = spec-throw _ (λ w h. h)
  after_reserve-Inv (err Exn.orchestration) = spec-throw _ (λ w h. h)
  after_reserve-Inv (err Exn.other) = spec-throw _ (λ w h. h)

  abbrev thread_reservation : ReserveOperationInput
  thread_reservation = record {
    folder_id = input.folder_id;
    kind = create_thread;
    idempotency_key = create_thread_key input.folder_id input.main_message_id;
    analysis_attempt_id = none;
    event_fingerprint = none;
    attempt_number = none;
  }

  pub complete_thread-Inv : Keeps (Inv f) (complete_thread o input)
  unfolding complete_thread
  complete_thread-Inv =
      spec-bind (attempt (guarded o reservation (reserve_operation thread_reservation))) _
        (attempt-Keeps (Inv f) (guarded o reservation (reserve_operation thread_reservation)) (
          guarded-Keeps (Inv f) o reservation (reserve_operation thread_reservation)
            (reserve_operation-Inv f thread_reservation refl refl)))
        λ r. after_reserve-Inv r
