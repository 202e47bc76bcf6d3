-- ===== src/Publication/Scenarios.antt =====
-- Runs of the orchestrator from empty tables, and instances of the results on runs.
use radar_ia.Prelude.{
  ◌≡◌, ◌≤◌, ◌+◌, refl, subst, ap, String, Bool, true, false, List, [], ◌∷◌, is_blank, All,
}
use radar_ia.Analysis.Types.{publish, enrich_thread_only}
use radar_ia.Publication.Types.{discord_timeout}
use radar_ia.Publication.Exec.{Result, ok, err, port_error}
use radar_ia.Publication.World.{World, CallRecord, send_main_message}
use radar_ia.Publication.Outcome.{Options, RecordWrite, main_success}
use radar_ia.Publication.Orchestrator.Process.{Command, process_command, resume_command, Call, run}
use radar_ia.Publication.Once.Invariant.{FitsDiscord, posted, unconfirmed}
use radar_ia.Publication.Once.AtMostOnce.{IsSound, run-keeps, run-sends_once}
use radar_ia.Publication.Examples.{
  demo_folder, demo_options, demo_input, partial_world, partial_Inv,
}

abbrev empty_world : World
empty_world = record {
  folders = demo_folder ∷ [];
  publications = [];
  attempts = [];
  next_id = 0;
  clock = 0;
  calls = [];
}

-- a process of its own holder
abbrev other_options : Options
other_options = record demo_options { execution_holder_id = "other" }

abbrev by : Options → Command → Call
by o c = record { options = o; command = c }

abbrev twice : Options → List Call
twice o =
    by o (process_command (demo_input publish))
    ∷ by demo_options (process_command (demo_input publish))
    ∷ []

abbrev all_calls : List Call
all_calls =
    by demo_options (process_command (demo_input publish))
    ∷ by other_options (resume_command "f")
    ∷ by demo_options (process_command (demo_input enrich_thread_only))
    ∷ by other_options (process_command (demo_input publish))
    ∷ []

abbrev value_of : Result String → String
value_of (ok m) = m
value_of (err e) = ""

m1_filled : is_blank "m1" ≡ false
unfolding is_blank
m1_filled = refl

guild_filled : is_blank "guild" ≡ false
unfolding is_blank
guild_filled = refl

demo_answers :
    (calls : List CallRecord) (g channel payload m : String)
    → demo_options.discord calls (send_main_message g channel payload) ≡ ok m
    → is_blank m ≡ false
demo_answers calls g channel payload m e = subst (λ x. is_blank x ≡ false) (ap value_of e) m1_filled

demo_IsSound : IsSound (by demo_options (resume_command "f"))
demo_IsSound = record { recorded = λ w. refl; answers = demo_answers; guild = guild_filled }

all_calls-IsSound : All IsSound all_calls
all_calls-IsSound =
    let s = demo_IsSound in
    let sound : (c : Command) → IsSound (by demo_options c) =
      λ c. record { recorded = s.recorded; answers = s.answers; guild = s.guild } in
    let other : (c : Command) → IsSound (by other_options c) =
      λ c. record { recorded = s.recorded; answers = s.answers; guild = s.guild } in
    (sound _, (other _, (sound _, (other _, tt))))

abbrev fails : RecordWrite → Bool
fails main_success = true
fails _ = false

-- an outage meets the record of the main message
abbrev failing_options : Options
failing_options = record demo_options { outage = λ write w. fails write }

-- Discord carries every call out, and its answers are lost
abbrev timeout_options : Options
timeout_options = record demo_options {
  discord = λ calls c. err (port_error discord_timeout true);
  unanswered = λ calls c. true;
}

-- tests: the main messages that stand on Discord after runs from empty tables
runs_post :
    (posted "f" (run (twice demo_options) empty_world).calls ≡ 1)
    × (posted "f" (run (twice failing_options) empty_world).calls ≡ 2)
    × (posted "f" (run (twice timeout_options) empty_world).calls ≡ 2)
    × (unconfirmed "f" (run (twice timeout_options) empty_world).calls ≡ 1)
    × (unconfirmed "f" (run all_calls partial_world).calls ≡ 0)
unfolding radar_ia.Publication.World.find_publication radar_ia.Publication.World.put_publication
    radar_ia.Publication.World.latest radar_ia.Publication.World.find_attempt
    radar_ia.Publication.World.update_attempt radar_ia.Publication.World.find_folder
    radar_ia.Publication.Repository.assert_non_empty radar_ia.Publication.Repository.key_length
    radar_ia.Publication.Repository.assert_idempotency_key
    radar_ia.Publication.Repository.assert_positive_attempt_number
    radar_ia.Publication.Repository.assert_transition
    radar_ia.Publication.Repository.require_open_folder
    radar_ia.Publication.Repository.load_publication_by_folder
    radar_ia.Publication.Repository.save_publication radar_ia.Publication.Repository.resolve_attempt
    radar_ia.Publication.Repository.Reserve.create_attempt
    radar_ia.Publication.Repository.Reserve.reserve_new
    radar_ia.Publication.Repository.Reserve.reserve_waiting
    radar_ia.Publication.Repository.Reserve.reserve_unpublished
    radar_ia.Publication.Repository.Reserve.reserve_published
    radar_ia.Publication.Repository.Reserve.reserve_loaded
    radar_ia.Publication.Repository.Reserve.reserve_publish
    radar_ia.Publication.Repository.Reserve.reserve_operation_on
    radar_ia.Publication.Repository.Reserve.reserve_operation
    radar_ia.Publication.Repository.Record.write_attempt
    radar_ia.Publication.Repository.Record.finish_resolved
    radar_ia.Publication.Repository.Record.finish_attempt
    radar_ia.Publication.Repository.Record.save_and_finish
    radar_ia.Publication.Repository.Record.main_recorded
    radar_ia.Publication.Repository.Record.record_main_publication_success
    radar_ia.Publication.Repository.Record.record_thread_created
    radar_ia.Publication.Repository.Record.record_enrichment_published
    radar_ia.Publication.Repository.Record.to_failed
    radar_ia.Publication.Repository.Record.fails_folder
    radar_ia.Publication.Repository.Record.mark_failure
    radar_ia.Publication.Repository.Record.record_failure
    radar_ia.Publication.Repository.Lease.is_claimable
    radar_ia.Publication.Repository.Lease.claim_found
    radar_ia.Publication.Repository.Lease.claim_execution
    radar_ia.Publication.Repository.Lease.clear_found
    radar_ia.Publication.Repository.Lease.clear_execution_lease
    radar_ia.Publication.Orchestrator.role_of_hint radar_ia.Publication.Orchestrator.call_discord
    radar_ia.Publication.Orchestrator.guarded
    radar_ia.Publication.Orchestrator.claim_discord_execution
    radar_ia.Publication.Orchestrator.release_discord_execution
    radar_ia.Publication.Orchestrator.record_port_failure
    radar_ia.Publication.Orchestrator.Thread.after_record
    radar_ia.Publication.Orchestrator.Thread.after_start
    radar_ia.Publication.Orchestrator.Thread.after_claim
    radar_ia.Publication.Orchestrator.Thread.run_thread
    radar_ia.Publication.Orchestrator.Thread.from_attempt
    radar_ia.Publication.Orchestrator.Thread.from_publication
    radar_ia.Publication.Orchestrator.Thread.after_reserve
    radar_ia.Publication.Orchestrator.Thread.complete_thread
    radar_ia.Publication.Orchestrator.Publish.build
    radar_ia.Publication.Orchestrator.Publish.thread_of
    radar_ia.Publication.Orchestrator.Publish.after_main_record
    radar_ia.Publication.Orchestrator.Publish.after_send
    radar_ia.Publication.Orchestrator.Publish.after_claim
    radar_ia.Publication.Orchestrator.Publish.run_send
    radar_ia.Publication.Orchestrator.Publish.hit_unpublished
    radar_ia.Publication.Orchestrator.Publish.hit_partial
    radar_ia.Publication.Orchestrator.Publish.after_reserve
    radar_ia.Publication.Orchestrator.Publish.publish_new
    radar_ia.Publication.Orchestrator.Publish.publish_resumed
    radar_ia.Publication.Orchestrator.Publish.publish_unpublished
    radar_ia.Publication.Orchestrator.Publish.publish_existing
    radar_ia.Publication.Orchestrator.Publish.publish_target
    radar_ia.Publication.Orchestrator.Publish.run_publish
    radar_ia.Publication.Orchestrator.Process.with_folder
    radar_ia.Publication.Orchestrator.Process.dispatch
    radar_ia.Publication.Orchestrator.Process.process
    radar_ia.Publication.Orchestrator.Process.execute radar_ia.Publication.Orchestrator.Process.run
    is_blank radar_ia.Publication.Orchestrator.Process.resume
    radar_ia.Publication.Orchestrator.Process.resume_folder
    radar_ia.Publication.Orchestrator.Process.resume_found
    radar_ia.Publication.Orchestrator.Process.resume_partial
    radar_ia.Publication.Orchestrator.Enrich.run_enrich
    radar_ia.Publication.Orchestrator.Enrich.enrich_published
    radar_ia.Publication.Orchestrator.Enrich.ensure_thread
    radar_ia.Publication.Orchestrator.Enrich.enrich_in_thread
    radar_ia.Publication.Orchestrator.Enrich.after_reserve
    radar_ia.Publication.Orchestrator.Enrich.run_send
    radar_ia.Publication.Orchestrator.Enrich.after_claim
    radar_ia.Publication.Orchestrator.Enrich.after_unarchive
    radar_ia.Publication.Orchestrator.Enrich.after_send
    radar_ia.Publication.Orchestrator.Enrich.after_enrichment_record
runs_post = (refl, refl, refl, refl, refl)

run-keeps_example : FitsDiscord "f" (run all_calls partial_world)
run-keeps_example = run-keeps "f" all_calls partial_world all_calls-IsSound partial_Inv runs_post.4

run-sends_once_example :
    posted "f" (run all_calls empty_world).calls
    ≤ 1 + unconfirmed "f" (run all_calls empty_world).calls
run-sends_once_example = run-sends_once "f" all_calls empty_world all_calls-IsSound refl refl refl
