-- ===== src/Publication/Orchestrator/Process.antt =====
-- The orchestrator's two methods, `process` and `resume`, and runs of them.
use radar_ia.Prelude.{
  String, false, ◌&&◌, Option, none, some, List, [], ◌∷◌, is_blank, is_some, if◌then◌else◌,
}
use radar_ia.Analysis.Types.{PublicationDecision}
use radar_ia.Publication.Types.{
  NewsFolderStatus, PublicationStatus, PublicationErrorCode, FolderPublication,
}
use radar_ia.Publication.Exec.{Exn, pure, throw, ◌>>=◌}
use radar_ia.Publication.World.{World, NewsFolder, find_folder}
use radar_ia.Publication.Repository.{load_publication_by_folder}
use radar_ia.Publication.Outcome.{
  Options, OrchestrationInput, skipped, failed, SkipReason, veille_pertinente,
}
use radar_ia.Publication.Orchestrator.{Flow, refused, thread_title}
use radar_ia.Publication.Orchestrator.Thread.{complete_thread}
use radar_ia.Publication.Orchestrator.Publish.{hit, resumable, run_publish}
use radar_ia.Publication.Orchestrator.Enrich.{run_enrich}

-- loadFolderOrFail, with the rest of the flow behind it
abbrev pub unless_closed : String → (NewsFolder → Flow) → NewsFolderStatus → NewsFolder → Flow
unless_closed folder_id k NewsFolderStatus.closed folder =
    pure (
      skipped SkipReason.folder_closed folder_id none none
        (some PublicationErrorCode.folder_closed))
unless_closed folder_id k _ folder = k folder

abbrev pub unless_absent : String → (NewsFolder → Flow) → Option NewsFolder → Flow
unless_absent folder_id k none = refused folder_id PublicationErrorCode.precondition_failed
unless_absent folder_id k (some folder) = unless_closed folder_id k folder.status folder

unfoldable pub with_folder : String → (NewsFolder → Flow) → Flow
with_folder folder_id k w = unless_absent folder_id k (find_folder folder_id w.folders) w

unfoldable pub dispatch : Options → OrchestrationInput → PublicationDecision → Flow
dispatch o input PublicationDecision.hold =
    pure (skipped SkipReason.hold input.folder_id none none (some PublicationErrorCode.hold))
dispatch o input PublicationDecision.reject_editorial = pure (
    skipped SkipReason.reject_editorial input.folder_id none none
      (some PublicationErrorCode.reject_editorial))
dispatch o input PublicationDecision.publish = with_folder input.folder_id (run_publish o input)
dispatch o input PublicationDecision.enrich_thread_only =
    with_folder input.folder_id (run_enrich o input)

unfoldable pub process : Options → OrchestrationInput → Flow
process o input =
    if is_blank input.folder_id then throw Exn.orchestration else dispatch o input input.decision

-- the statuses that have nothing to resume
unfoldable pub resume_rest : String → PublicationStatus → FolderPublication → Flow
resume_rest folder_id PublicationStatus.main_published p =
    if is_some p.main_message_id && is_some p.thread_id
    then hit folder_id (some p) none PublicationErrorCode.idempotent_hit
    else pure (failed folder_id PublicationErrorCode.precondition_failed false (some p) none)
resume_rest folder_id _ p =
    pure (failed folder_id PublicationErrorCode.precondition_failed false (some p) none)

unfoldable pub resume_partial :
    Options → String → NewsFolder → FolderPublication → Option (String × String) → Flow
resume_partial o folder_id folder p none = resume_rest folder_id p.status p
resume_partial o folder_id folder p (some (main, channel)) = complete_thread o (record {
  folder_id = folder_id;
  channel_id = channel;
  main_message_id = main;
  thread_name = thread_title folder.title;
  channel_role = veille_pertinente;
})

unfoldable pub resume_found : Options → String → NewsFolder → Option FolderPublication → Flow
resume_found o folder_id folder none = refused folder_id PublicationErrorCode.precondition_failed
resume_found o folder_id folder (some p) =
    resume_partial o folder_id folder p (resumable p.status p.main_message_id p.channel_id)

unfoldable pub resume_folder : Options → String → NewsFolder → Flow
resume_folder o folder_id folder = do
  found ← load_publication_by_folder folder_id
  resume_found o folder_id folder found

unfoldable pub resume : Options → String → Flow
resume o folder_id =
    if is_blank folder_id
    then throw Exn.orchestration
    else with_folder folder_id (resume_folder o folder_id)

-- one call of the orchestrator
pub data Command : Type 0 where
  process_command : OrchestrationInput → Command
  resume_command : String → Command

unfoldable pub execute : Options → Command → Flow
execute o (process_command input) = process o input
execute o (resume_command folder_id) = resume o folder_id

-- a call by some process, with its own holder, Discord's answers to it and the outages it meets
pub record Call : Type 0 where
  pub options : Options
  pub command : Command

-- calls one after the other; a throw ends only its own call
unfoldable pub run : List Call → World → World
run [] w = w
run (c ∷ rest) w = run rest (execute c.options c.command w).1
