-- ===== src/Publication/Once/PublishFlow.antt =====
-- runPublish and the invariant.
use radar_ia.Prelude.{
  ◌≡◌, ◌≢◌, arith, refl, ℕ, String, Bool, true, false, ◌&&◌, Option, none, some, List, Bool-cases,
  inl, inr, str_eq, eq_iff, is_blank, is_some, is_none,
}
use radar_ia.Publication.Types.{
  PersistenceErrorCode, FolderPublication, PublicationAttempt, ReserveOutcome, HitReason,
  already_published, already_reserved, already_succeeded, has_main,
}
use radar_ia.Publication.Exec.{Exn, Result, ok, err, attempt}
use radar_ia.Publication.Hoare.{
  Spec, Keeps, After, spec-bind, spec-pure, spec-throw, spec-if, spec-weaken, spec-attempt,
}
use radar_ia.Publication.World.{World, NewsFolder, CallRecord, send_main_message, is_reserved}
use radar_ia.Publication.Repository.{load_publication_by_folder}
use radar_ia.Publication.Repository.Reserve.{reserve_publish}
use radar_ia.Publication.Repository.Record.{Recorded, record_main_publication_success}
use radar_ia.Publication.Outcome.{
  reservation, Options, OrchestrationInput, MainContent, main_success,
}
use radar_ia.Publication.Orchestrator.{
  Flow, port_code, port_retryable, failure_of, call_discord, guarded, claim_discord_execution,
  release_discord_execution, record_port_failure,
}
use radar_ia.Publication.Orchestrator.Publish.{
  Target, resumable, build, thread_of, after_main_record, after_send, after_claim, run_send,
  hit_unpublished, hit_partial, after_reserve, publish_new, publish_resumed, publish_unpublished,
  publish_existing, publish_target,
}
use radar_ia.Publication.Once.Invariant.{Inv, is_sent}
use radar_ia.Publication.Once.Lease.{OpenRow, KeyedRow, Claimed}
use radar_ia.Publication.Once.Posted.{Posted}
use radar_ia.Publication.Once.MainRecord.{main_input}
use radar_ia.Publication.Once.Results.{spec-fact}
use radar_ia.Publication.Once.Release.{attempt-Keeps, release-Inv, release-OpenRow, release-Posted}
use radar_ia.Publication.Once.Calls.{call_discord-Inv}
use radar_ia.Publication.Once.Failure.{record_port_failure-Spec}
use radar_ia.Publication.Once.ReservePublish.{Reserved}
use radar_ia.Publication.Once.PublishReserved.{publish_input, reserve_publish-Reserved}
use radar_ia.Publication.Once.Guarded.{guarded-Keeps, guarded-Spec}
use radar_ia.Publication.Once.Steps.{
  claim-Inv, claim-Claimed, load-Keeps, pure-Keeps, or_return-Keeps,
}
use radar_ia.Publication.Once.ThreadFlow.{complete_thread-Inv}
use radar_ia.Publication.Once.Elsewhere.{record_main_elsewhere-Inv, send_own-Spec, record_own-Inv}

-- a main message that Discord accepts has an id
abbrev pub Answers : Options → Type 0
Answers o =
    (calls : List CallRecord) (g channel payload m : String)
    → o.discord calls (send_main_message g channel payload) ≡ ok m
    → is_blank m ≡ false

module _ (f : String) (o : Options) (input : OrchestrationInput) (folder : NewsFolder)
    (target : Target) (up : (w : World) → o.outage main_success w ≡ false) (answers : Answers o)
    (guild : is_blank o.guild_id ≡ false) (named : is_blank input.folder_id ≡ false)
    (channel : is_blank target.channel_id ≡ false) where
  abbrev g : String
  g = input.folder_id

  thread_of-Inv :
      (built : MainContent) (channel main : String)
      → Keeps (Inv f) (thread_of o input folder target built channel main)
  unfolding thread_of
  thread_of-Inv built channel main = complete_thread-Inv f o _

  after_main_record-Inv :
      (built : MainContent) (p : FolderPublication) (a : PublicationAttempt) (m : String)
      (r : Result Recorded)
      → Keeps (Inv f) (after_main_record o input folder target built p a m r)
  unfolding after_main_record
  after_main_record-Inv built p a m (ok r) = thread_of-Inv built target.channel_id m
  after_main_record-Inv built p a m (err e) = pure-Keeps (Inv f) _

  -- what a try of the call leaves, for the folder itself and for another
  abbrev SentOwn : ℕ → Result String → World → Type 0
  SentOwn i = After (λ m w. Posted f i w × (is_blank m ≡ false)) (λ w. Inv f w × OpenRow f i w)

  after_send_own-Inv :
      g ≡ f
      → (built : MainContent) (p : FolderPublication) (a : PublicationAttempt) (r : Result String)
      → Spec (SentOwn a.id r) (after_send o input folder target built p a r) (λ _. Inv f) (Inv f)
  unfolding after_send
  after_send_own-Inv own built p a (ok m) = spec-fact λ filled.
      spec-bind (release_discord_execution o a.id) _ (release-Posted f a.id o) λ _.
        spec-bind
          (attempt (
            guarded o main_success (
              record_main_publication_success
                (main_input g target.channel_id o.guild_id m input.analysis_attempt_id a.id))))
          _
          (record_own-Inv f g own o up target.channel_id m input.analysis_attempt_id a.id named
            channel guild filled)
          λ r. after_main_record-Inv built p a m r
  after_send_own-Inv own built p a (err e) =
      spec-bind (release_discord_execution o a.id) _
        (spec-weaken _ (release-OpenRow f a.id o) (λ w h. h) (λ _ w h. h) (λ w h. h.0))
        λ _.
          spec-bind
            (record_port_failure o (failure_of g a.id (port_code e) (port_retryable e) true)) _
            (spec-weaken _
              (record_port_failure-Spec f g a.id (port_code e) (port_retryable e) true o)
              (λ w h. (h.0, λ _ _. h.1)) (λ _ w h. h) (λ w h. h))
            λ r. pure-Keeps (Inv f) _

  after_send_other-Inv :
      g ≢ f
      → (built : MainContent) (p : FolderPublication) (a : PublicationAttempt) (r : Result String)
      → Keeps (Inv f) (after_send o input folder target built p a r)
  unfolding after_send
  after_send_other-Inv other built p a (ok m) =
      let main = main_input g target.channel_id o.guild_id m input.analysis_attempt_id a.id in
      spec-bind (release_discord_execution o a.id) _ (release-Inv f a.id o) λ _.
        spec-bind (attempt (guarded o main_success (record_main_publication_success main))) _
          (attempt-Keeps (Inv f) (guarded o main_success (record_main_publication_success main)) (
            guarded-Keeps (Inv f) o main_success (record_main_publication_success main) (
              record_main_elsewhere-Inv f g other target.channel_id o.guild_id m
                input.analysis_attempt_id a.id)))
          λ r. after_main_record-Inv built p a m r
  after_send_other-Inv other built p a (err e) =
      spec-bind (release_discord_execution o a.id) _ (release-Inv f a.id o) λ _.
        spec-bind (record_port_failure o (failure_of g a.id (port_code e) (port_retryable e) true))
          _
          (spec-weaken _ (record_port_failure-Spec f g a.id (port_code e) (port_retryable e) true o)
            (λ w h. (h, λ _ own. absurd (other own))) (λ _ w h. h) (λ w h. h))
          λ r. pure-Keeps (Inv f) _

  -- the attempt stands under the folder's key, where the folder is `f`
  abbrev Ready : PublicationAttempt → World → Type 0
  Ready a w = Inv f w × (g ≡ f → KeyedRow f a.id w)

  after_claim_own-Inv :
      g ≡ f
      → (built : MainContent) (p : FolderPublication) (a : PublicationAttempt)
        (c : Option PublicationAttempt)
      → Spec (Claimed f a.id c) (after_claim o input folder target built p a c) (λ _. Inv f) (Inv f)
  unfolding after_claim
  after_claim_own-Inv own built p a none = spec-pure _ (λ w h. h.0)
  after_claim_own-Inv own built p a (some c) =
      let call = call_discord o (send_main_message g target.channel_id built.payload) in
      spec-bind (attempt call) _
        (spec-attempt call
          (spec-weaken call (send_own-Spec f g own o target.channel_id built.payload a.id)
            (λ w h. (h.0, h.1 refl))
            (λ m w h. (h.0, answers h.1.0 g target.channel_id built.payload m h.1.1)) (λ w h. h))
          {T = Inv f})
        λ r. after_send_own-Inv own built p a r

  not_sent :
      g ≢ f
      → (b : Bool) → is_sent f (send_main_message g target.channel_id target.channel_id) b ≡ false
  not_sent other b = ground (arith, eq_iff g f)

  after_claim_other-Inv :
      g ≢ f
      → (built : MainContent) (p : FolderPublication) (a : PublicationAttempt)
        (c : Option PublicationAttempt)
      → Keeps (Inv f) (after_claim o input folder target built p a c)
  unfolding after_claim
  after_claim_other-Inv other built p a none = pure-Keeps (Inv f) _
  after_claim_other-Inv other built p a (some c) =
      let main = send_main_message g target.channel_id built.payload in
      spec-bind (attempt (call_discord o main)) _
        (attempt-Keeps (Inv f) (call_discord o main)
          (call_discord-Inv o f main λ b. not_sent other b))
        λ r. after_send_other-Inv other built p a r

  run_send-Inv :
      (built : MainContent) (p : FolderPublication) (a : PublicationAttempt)
      → Spec (Ready a) (run_send o input folder target built p a) (λ _. Inv f) (Inv f)
  unfolding run_send
  run_send-Inv built p a = elim (Bool-cases (str_eq g f)) [
    | inl here ↦
        let own = (eq_iff g f).0 here in
        spec-bind (claim_discord_execution o a.id) _
          (spec-weaken _ (claim-Claimed f o a.id) (λ w h. (h.0, h.1 own)) (λ _ w h. h) (λ w h. h))
          λ c. after_claim_own-Inv own built p a c
    | inr elsewhere ↦
        let other : g ≢ f = λ own. ground (arith, eq_iff g f) in
        spec-bind (claim_discord_execution o a.id) _
          (spec-weaken _ (claim-Inv f o a.id) (λ w h. h.0) (λ _ w h. h) (λ w h. h))
          λ c. after_claim_other-Inv other built p a c
  ]

  -- a flow that keeps the invariant does so from a stronger start
  from_Ready :
      (a : PublicationAttempt) (m : Flow) → Keeps (Inv f) m → Spec (Ready a) m (λ _. Inv f) (Inv f)
  from_Ready a m h = spec-weaken m h (λ w r. r.0) (λ _ w r. r) (λ w r. r)

  hit_unpublished-Inv :
      (built : MainContent) (p : FolderPublication) (a : PublicationAttempt) (reason : HitReason)
      → Spec (Ready a) (hit_unpublished o input folder target built p a reason) (λ _. Inv f) (Inv f)
  unfolding hit_unpublished
  hit_unpublished-Inv built p a already_published =
      spec-if (is_reserved a.status && is_none p.main_message_id) _ _ (λ _. run_send-Inv built p a)
        (λ _. from_Ready a _ (pure-Keeps (Inv f) _))
  hit_unpublished-Inv built p a already_reserved = run_send-Inv built p a
  hit_unpublished-Inv built p a already_succeeded = run_send-Inv built p a

  hit_partial-Inv :
      (built : MainContent) (p : FolderPublication) (a : PublicationAttempt) (reason : HitReason)
      (r : Option (String × String))
      → Spec (Ready a) (hit_partial o input folder target built p a reason r) (λ _. Inv f) (Inv f)
  unfolding hit_partial
  hit_partial-Inv built p a reason (some (main, channel)) =
      from_Ready a _ (thread_of-Inv built channel main)
  hit_partial-Inv built p a reason none = hit_unpublished-Inv built p a reason

  after_reserve-Inv :
      (built : MainContent) (r : Result ReserveOutcome)
      → Spec
          (After (Reserved f g) (Inv f) r)
          (after_reserve o input folder target built r)
          (λ _. Inv f)
          (Inv f)
  unfolding after_reserve
  after_reserve-Inv built (ok (ReserveOutcome.reserved p a)) = run_send-Inv built p a
  after_reserve-Inv built (ok (ReserveOutcome.idempotent_hit p a reason)) =
      spec-if (has_main p && is_some p.main_message_id && is_some p.thread_id) _ _
        (λ _. from_Ready a _ (pure-Keeps (Inv f) _))
        (λ _. hit_partial-Inv built p a reason (resumable p.status p.main_message_id p.channel_id))
  after_reserve-Inv built (err (Exn.persistence code)) = refused_reserve built code
    where
      refused_reserve :
          (built : MainContent) (code : PersistenceErrorCode)
          → Keeps (Inv f) (after_reserve o input folder target built (err (Exn.persistence code)))
      refused_reserve built PersistenceErrorCode.folder_closed = pure-Keeps (Inv f) _
      refused_reserve built PersistenceErrorCode.folder_absent = pure-Keeps (Inv f) _
      refused_reserve built PersistenceErrorCode.enrichment_precondition_failed =
          pure-Keeps (Inv f) _
      refused_reserve built PersistenceErrorCode.main_already_reserved_or_exists =
          pure-Keeps (Inv f) _
      refused_reserve built PersistenceErrorCode.forbidden_status_transition = pure-Keeps (Inv f) _
      refused_reserve built PersistenceErrorCode.inconsistent_state = pure-Keeps (Inv f) _
      refused_reserve built PersistenceErrorCode.invalid_idempotency_key = pure-Keeps (Inv f) _
  after_reserve-Inv built (err (Exn.port_error code retryable)) = spec-throw _ (λ w h. h)
  after_reserve-Inv built (err Exn.content) = spec-throw _ (λ w h. h)
  after_reserve-Inv built (err Exn.orchestration) = spec-throw _ (λ w h. h)
  after_reserve-Inv built (err Exn.other) = spec-throw _ (λ w h. h)

  publish_new-Inv : Keeps (Inv f) (publish_new o input folder target)
  unfolding publish_new
  publish_new-Inv =
      or_return-Keeps (Inv f) (build o input folder target) _ _ (pure-Keeps (Inv f) _) λ built.
        let reserve = reserve_publish (publish_input g o.guild_id input.analysis_attempt_id) in
        spec-bind (attempt (guarded o reservation reserve)) _
          (spec-attempt (guarded o reservation reserve)
            (guarded-Spec o reservation reserve
              (reserve_publish-Reserved f g o.guild_id input.analysis_attempt_id) (λ w v. v))
            {T = Inv f})
          λ r. after_reserve-Inv built r

  publish_resumed-Inv :
      (p : FolderPublication) (r : String × String)
      → Keeps (Inv f) (publish_resumed o input folder target p r)
  unfolding publish_resumed
  publish_resumed-Inv p (main, channel) =
      or_return-Keeps (Inv f) (build o input folder target) _ _ (pure-Keeps (Inv f) _)
        λ built. thread_of-Inv built channel main

  publish_unpublished-Inv :
      (p : FolderPublication) (r : Option (String × String))
      → Keeps (Inv f) (publish_unpublished o input folder target p r)
  unfolding publish_unpublished
  publish_unpublished-Inv p none = publish_new-Inv
  publish_unpublished-Inv p (some r) = publish_resumed-Inv p r

  publish_existing-Inv :
      (r : Option FolderPublication) → Keeps (Inv f) (publish_existing o input folder target r)
  unfolding publish_existing
  publish_existing-Inv none = publish_new-Inv
  publish_existing-Inv (some p) =
      spec-if (has_main p) _ _ (λ _. pure-Keeps (Inv f) _)
        (λ _. publish_unpublished-Inv p (resumable p.status p.main_message_id p.channel_id))

  pub publish_target-Inv : Keeps (Inv f) (publish_target o input folder target)
  unfolding publish_target
  publish_target-Inv =
      spec-bind (load_publication_by_folder g) _ (load-Keeps f g) λ r. publish_existing-Inv r
