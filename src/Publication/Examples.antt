-- ===== src/Publication/Examples.antt =====
-- Instances of the results on the publication of folders: a small world and its Discord.
use radar_ia.Prelude.{
  ◌≡◌, refl, String, true, false, Option, none, some, [], ◌∷◌, arith, is_blank, All,
}
use radar_ia.Analysis.Types.{PublicationDecision, publish, hold}
use radar_ia.Publication.Types.{
  ReserveOutcome, already_published, NewsFolderStatus, PublicationStatus, AttemptStatus,
  FolderPublication, PublicationAttempt, OperationKind, publish_key, create_thread_key, enrich_key,
}
use radar_ia.Publication.Exec.{ok}
use radar_ia.Publication.World.{
  find_folder, latest, World, CallRecord, send_main_message, NewsFolder, find_publication,
  find_attempt,
}
use radar_ia.Publication.Outcome.{Options, OrchestrationInput}
use radar_ia.Publication.Repository.Record.{
  Recorded, record_main_publication_success, record_thread_created, record_enrichment_published,
}
use radar_ia.Publication.Repository.{
  assert_idempotency_key, key_length, require_open_folder, assert_non_empty,
  load_publication_by_folder,
}
use radar_ia.Publication.Repository.Reserve.{
  ReserveOperationInput, new_attempt, reserve_operation, reserve_publish, reserve_loaded,
  reserve_published,
}
use radar_ia.Publication.Repository.Lease.{leased, is_claimable, claim_execution}
use radar_ia.Publication.Orchestrator.Process.{process}
use radar_ia.Publication.Idle.{process-idle, process-published}
use radar_ia.Publication.Once.Invariant.{Inv}
use radar_ia.Publication.Once.Posted.{Posted}
use radar_ia.Publication.Once.MainRecord.{main_input, Completed}
use radar_ia.Publication.Once.Lease.{KeyedRow}
use radar_ia.Publication.Once.ReservePublish.{attempt_in}
use radar_ia.Publication.Once.PublishReserved.{publish_input}
use radar_ia.Publication.Once.Kept.{
  reserve_publish-keeps, reserve_operation-keeps, record_main_publication_success-completes,
  record_thread_created-keeps, record_enrichment_published-keeps,
}
use radar_ia.Publication.Exclusion.{claim_execution-excludes, claim_execution-takes_over}

abbrev pub demo_folder : NewsFolder
demo_folder = record {
  id = "f";
  status = NewsFolderStatus.opened;
  title = "Titre";
  last_activity_at = 7;
}

abbrev demo_publication : PublicationStatus → Option String → Option String → FolderPublication
demo_publication status main thread = record {
  folder_id = "f";
  status = status;
  guild_id = "guild";
  channel_id = some "salon";
  main_message_id = main;
  thread_id = thread;
  source_analysis_attempt_id = none;
  last_error_code = none;
}

abbrev partial_row : FolderPublication
partial_row = demo_publication PublicationStatus.partial (some "m1") none

abbrev pending_row : FolderPublication
pending_row = demo_publication PublicationStatus.pending none none

abbrev publish_attempt : PublicationAttempt
publish_attempt = new_attempt 4 "f" OperationKind.publish 1 (publish_key "f") (some "a1") none

abbrev done_attempt : PublicationAttempt
done_attempt = record publish_attempt {
  status = AttemptStatus.succeeded;
  discord_message_id = some "m1";
}

abbrev thread_attempt : PublicationAttempt
thread_attempt =
    new_attempt 5 "f" OperationKind.create_thread 1 (create_thread_key "f" "m1") none none

abbrev main_call : CallRecord
main_call = record { call = send_main_message "f" "salon" "texte"; done = true; lost = false }

-- the message recorded, the thread reserved and not made yet
abbrev pub partial_world : World
partial_world = record {
  folders = demo_folder ∷ [];
  publications = partial_row ∷ [];
  attempts = thread_attempt ∷ done_attempt ∷ [];
  next_id = 6;
  clock = 10;
  calls = main_call ∷ [];
}

-- the message sent and not recorded yet
abbrev posted_world : World
posted_world = record partial_world {
  publications = pending_row ∷ [];
  attempts = publish_attempt ∷ [];
  next_id = 5;
}

abbrev pub demo_options : Options
demo_options = record {
  discord = λ calls c. ok "m1";
  unanswered = λ calls c. false;
  elapsed = λ calls c. 3;
  outage = λ write w. false;
  resolve_channel_id = λ hint. some "salon";
  guild_id = "guild";
  execution_holder_id = "holder";
  execution_lease_ms = 1000;
  build_main = λ input. some (record { payload = input.title; thread_name = input.title });
  build_enrichment = λ input. some input.aggregate_fingerprint;
}

abbrev pub demo_input : PublicationDecision → OrchestrationInput
demo_input decision = record {
  folder_id = "f";
  decision = decision;
  analysis_attempt_id = some "a1";
  channel_hint = some "flux_ia";
  aggregate_fingerprint = some "empreinte";
  validated_content = some (record {
    summary = "Résumé";
    primary_category = "research";
    publish_worthiness = "high";
    composite = 80;
  });
  sources = [];
  new_facts = [];
  new_sources = [];
  useful_date = none;
}

process-idle_example : (process demo_options (demo_input hold) partial_world).1 ≡ partial_world
process-idle_example = process-idle demo_options (demo_input hold) partial_world refl

partial_loaded : find_publication "f" partial_world.publications ≡ some partial_row
unfolding find_publication
partial_loaded = refl

process-published_example :
    (process demo_options (demo_input publish) partial_world).1 ≡ partial_world
process-published_example =
    process-published demo_options (demo_input publish) partial_row partial_world refl
      partial_loaded refl

thread_row : find_attempt 5 partial_world.attempts ≡ some thread_attempt
unfolding find_attempt
thread_row = refl

thread_claimable : is_claimable "one" 10 thread_attempt ≡ true
unfolding is_claimable
thread_claimable = refl

filled : (is_blank "one" ≡ false) × (is_blank "two" ≡ false)
unfolding is_blank
filled = (refl, refl)

claim_execution-excludes_example :
    let claimed = (claim_execution 5 "one" 100 10 partial_world).1 in
    claim_execution 5 "two" 100 50 claimed ≡ (ok none, claimed)
claim_execution-excludes_example =
    claim_execution-excludes 5 100 10 100 50 "one" "two" partial_world thread_attempt filled.0
      (omega arith) thread_row thread_claimable filled.1 (omega arith) refl (omega arith)

claim_execution-takes_over_example :
    let claimed = (claim_execution 5 "one" 100 10 partial_world).1 in
    let taken = claim_execution 5 "two" 100 110 claimed in
    (taken.0 ≡ ok (some (leased "two" 210 thread_attempt)))
    × (find_attempt 5 taken.1.attempts ≡ some (leased "two" 210 thread_attempt))
claim_execution-takes_over_example =
    claim_execution-takes_over 5 100 10 100 110 "one" "two" partial_world thread_attempt filled.0
      (omega arith) thread_row thread_claimable filled.1 (omega arith) (omega arith)

Posted-example : Posted "f" 4 posted_world
unfolding find_publication find_attempt
Posted-example = record {
  tables = record {
    settled = λ h. cc;
    once = omega arith;
    unsent = λ h. refl;
    waiting = λ h. refl;
    single = omega arith;
    finished = λ h. absurd (omega (arith, h));
    keyed = refl;
    ids = (omega arith, tt);
  };
  row = (publish_attempt, refl, refl);
  one = refl;
}

not_blank : All (λ s. is_blank s ≡ false) ("f" ∷ "salon" ∷ "guild" ∷ "m1" ∷ [])
unfolding is_blank
not_blank = (refl, (refl, (refl, (refl, tt))))

record_main_publication_success-completes_example :
    let result =
      record_main_publication_success
        (main_input "f" "salon" "guild" "m1" (some "a1") 4)
        posted_world in
    (r : Recorded) × (result.0 ≡ ok r) × Completed "f" "salon" "guild" "m1" 4 r result.1
record_main_publication_success-completes_example =
    record_main_publication_success-completes "f" "salon" "guild" "m1" (some "a1") 4 posted_world
      not_blank.0 not_blank.1.0 not_blank.1.1.0 not_blank.1.1.1.0 Posted-example

pub partial_Inv : Inv "f" partial_world
unfolding find_publication
partial_Inv = record {
  settled = λ h. refl;
  once = omega arith;
  unsent = λ h. cc;
  waiting = λ h. absurd (omega (arith, h));
  single = omega arith;
  finished = λ h. refl;
  keyed = refl;
  ids = (omega arith, (omega arith, tt));
}

record_thread_created-keeps_example :
    Inv "f" (record_thread_created "f" "t1" (some 5) none partial_world).1
record_thread_created-keeps_example =
    record_thread_created-keeps "f" "f" "t1" (some 5) none partial_world partial_Inv

record_enrichment_published-keeps_example :
    Inv "f" (record_enrichment_published "f" "m2" none none partial_world).1
record_enrichment_published-keeps_example =
    record_enrichment_published-keeps "f" "f" "m2" none none partial_world partial_Inv

abbrev enrich_reservation : ReserveOperationInput
enrich_reservation = record {
  folder_id = "f";
  kind = OperationKind.enrich;
  idempotency_key = enrich_key "f" "empreinte" "a1";
  analysis_attempt_id = some "a1";
  event_fingerprint = some "empreinte";
  attempt_number = none;
}

reserve_operation-keeps_example : Inv "f" (reserve_operation enrich_reservation partial_world).1
reserve_operation-keeps_example =
    reserve_operation-keeps "f" enrich_reservation partial_world refl refl partial_Inv

-- a reservation of the folder that is published: the attempt that succeeded
abbrev published_outcome : ReserveOutcome
published_outcome = ReserveOutcome.idempotent_hit partial_row done_attempt already_published

published_again :
    (reserve_publish (publish_input "f" "guild" none) partial_world).0 ≡ ok published_outcome
unfolding reserve_publish assert_non_empty is_blank assert_idempotency_key key_length
    require_open_folder find_folder load_publication_by_folder find_publication reserve_loaded
    reserve_published latest
published_again = refl

reserve_publish-keeps_example :
    let after = (reserve_publish (publish_input "f" "guild" none) partial_world).1 in
    Inv "f" after × KeyedRow "f" (attempt_in published_outcome).id after
reserve_publish-keeps_example =
    reserve_publish-keeps "f" "guild" none partial_world published_outcome partial_Inv
      published_again
