-- ===== src/Publication/Once/Run.antt =====
-- Any run of calls of the orchestrator.
use radar_ia.Prelude.{
  ◌≡◌, String, false, Option, none, some, Bool-cases, inl, inr, is_some, ◌&&◌, is_blank, or_else,
}
use radar_ia.Analysis.Types.{PublicationDecision}
use radar_ia.Publication.Types.{
  NewsFolderStatus, PublicationStatus, PublicationErrorCode, FolderPublication,
}
use radar_ia.Publication.Exec.{pure}
use radar_ia.Publication.Hoare.{Keeps, spec-bind, spec-throw, spec-if}
use radar_ia.Publication.World.{World, NewsFolder, find_folder}
use radar_ia.Publication.Repository.{load_publication_by_folder}
use radar_ia.Publication.Repository.Reserve.{is_blank_or_null}
use radar_ia.Publication.Outcome.{Options, OrchestrationInput, failed, main_success}
use radar_ia.Publication.Orchestrator.{Flow, or_return, role_of_hint}
use radar_ia.Publication.Orchestrator.Publish.{hit, resumable, non_blank, run_publish}
use radar_ia.Publication.Orchestrator.Process.{
  unless_closed, unless_absent, with_folder, dispatch, process, resume_rest, resume_partial,
  resume_found, resume_folder, resume, Command, process_command, resume_command, execute,
}
use radar_ia.Publication.Once.Invariant.{Inv}
use radar_ia.Publication.Once.Steps.{load-Keeps, pure-Keeps, or_return-Keeps}
use radar_ia.Publication.Once.ThreadFlow.{complete_thread-Inv}
use radar_ia.Publication.Once.EnrichFlow.{run_enrich-Inv}
use radar_ia.Publication.Once.PublishFlow.{Answers, publish_target-Inv}

-- a channel that passes `non_blank` is not blank
non_blank-Keeps :
    (P : World → Type 0) (r : Option String) (refusal : Flow) (k : String → Flow)
    → Keeps P refusal
    → ((c : String) → is_blank c ≡ false → Keeps P (k c))
    → Keeps P (or_return (non_blank r) refusal k)
non_blank-Keeps P none refusal k hr hk = hr
non_blank-Keeps P (some c) refusal k hr hk = elim (Bool-cases (is_blank c)) [
  | inl blank ↦ rw blank hr
  | inr filled ↦ rw filled (hk c filled)
]

module _ (P : World → Type 0) (folder_id : String) (k : NewsFolder → Flow)
    (h : (x : NewsFolder) → Keeps P (k x)) where
  unless_closed-Keeps :
      (s : NewsFolderStatus) (folder : NewsFolder) → Keeps P (unless_closed folder_id k s folder)
  unless_closed-Keeps NewsFolderStatus.closed folder = pure-Keeps P _
  unless_closed-Keeps NewsFolderStatus.opened folder = h folder
  unless_closed-Keeps NewsFolderStatus.idle folder = h folder

  unless_absent-Keeps : (r : Option NewsFolder) → Keeps P (unless_absent folder_id k r)
  unless_absent-Keeps none = pure-Keeps P _
  unless_absent-Keeps (some folder) = unless_closed-Keeps folder.status folder

  with_folder-Keeps : Keeps P (with_folder folder_id k)
  unfolding with_folder
  with_folder-Keeps = record {
    at = λ w p. (unless_absent-Keeps (find_folder folder_id w.folders)).at w p;
  }

-- resume only ever makes a thread
module _ (f : String) (o : Options) (folder_id : String) where
  resume_rest-Inv :
      (s : PublicationStatus) (p : FolderPublication) → Keeps (Inv f) (resume_rest folder_id s p)
  unfolding resume_rest
  resume_rest-Inv PublicationStatus.main_published p =
      let refusal = failed folder_id PublicationErrorCode.precondition_failed false (some p) none in
      spec-if (is_some p.main_message_id && is_some p.thread_id)
        (hit folder_id (some p) none PublicationErrorCode.idempotent_hit) (pure refusal)
        (λ _. pure-Keeps (Inv f) _) (λ _. pure-Keeps (Inv f) refusal)
  resume_rest-Inv PublicationStatus.none p = pure-Keeps (Inv f) _
  resume_rest-Inv PublicationStatus.pending p = pure-Keeps (Inv f) _
  resume_rest-Inv PublicationStatus.partial p = pure-Keeps (Inv f) _
  resume_rest-Inv PublicationStatus.failed p = pure-Keeps (Inv f) _
  resume_rest-Inv PublicationStatus.inconsistent p = pure-Keeps (Inv f) _

  resume_partial-Inv :
      (folder : NewsFolder) (p : FolderPublication) (r : Option (String × String))
      → Keeps (Inv f) (resume_partial o folder_id folder p r)
  unfolding resume_partial
  resume_partial-Inv folder p none = resume_rest-Inv p.status p
  resume_partial-Inv folder p (some (main, channel)) = complete_thread-Inv f o _

  resume_found-Inv :
      (folder : NewsFolder) (r : Option FolderPublication)
      → Keeps (Inv f) (resume_found o folder_id folder r)
  unfolding resume_found
  resume_found-Inv folder none = pure-Keeps (Inv f) _
  resume_found-Inv folder (some p) =
      resume_partial-Inv folder p (resumable p.status p.main_message_id p.channel_id)

  resume_folder-Inv : (folder : NewsFolder) → Keeps (Inv f) (resume_folder o folder_id folder)
  unfolding resume_folder
  resume_folder-Inv folder =
      spec-bind (load_publication_by_folder folder_id) _ (load-Keeps f folder_id)
        λ r. resume_found-Inv folder r

  resume-Inv : Keeps (Inv f) (resume o folder_id)
  unfolding resume
  resume-Inv =
      spec-if (is_blank folder_id) _ _ (λ _. spec-throw _ (λ w h. h))
        (λ _. with_folder-Keeps (Inv f) folder_id (resume_folder o folder_id) resume_folder-Inv)

module _ (f : String) (o : Options) (up : (w : World) → o.outage main_success w ≡ false)
    (answers : Answers o) (guild : is_blank o.guild_id ≡ false) where
  run_publish-Inv :
      (input : OrchestrationInput) (folder : NewsFolder)
      → is_blank input.folder_id ≡ false
      → Keeps (Inv f) (run_publish o input folder)
  unfolding run_publish
  run_publish-Inv input folder named =
      spec-if (is_blank_or_null input.analysis_attempt_id) _ _ (λ _. pure-Keeps (Inv f) _)
        (λ _.
          or_return-Keeps (Inv f) (role_of_hint input.channel_hint) _ _ (pure-Keeps (Inv f) _)
            λ role.
              non_blank-Keeps (Inv f) (o.resolve_channel_id (or_else input.channel_hint "")) _ _
                (pure-Keeps (Inv f) _)
                λ channel filled.
                  or_return-Keeps (Inv f) input.validated_content _ _ (pure-Keeps (Inv f) _)
                    λ content. publish_target-Inv f o input folder _ up answers guild named filled)

  dispatch-Inv :
      (input : OrchestrationInput) (d : PublicationDecision)
      → is_blank input.folder_id ≡ false
      → Keeps (Inv f) (dispatch o input d)
  unfolding dispatch
  dispatch-Inv input PublicationDecision.hold named = pure-Keeps (Inv f) _
  dispatch-Inv input PublicationDecision.reject_editorial named = pure-Keeps (Inv f) _
  dispatch-Inv input PublicationDecision.publish named =
      with_folder-Keeps (Inv f) input.folder_id (run_publish o input)
        λ folder. run_publish-Inv input folder named
  dispatch-Inv input PublicationDecision.enrich_thread_only named =
      with_folder-Keeps (Inv f) input.folder_id _ λ folder. run_enrich-Inv f o input folder

  process-Inv : (input : OrchestrationInput) → Keeps (Inv f) (process o input)
  unfolding process
  process-Inv input =
      spec-if (is_blank input.folder_id) _ _ (λ _. spec-throw _ (λ w h. h))
        (λ named. dispatch-Inv input input.decision named)

  pub execute-Inv : (c : Command) → Keeps (Inv f) (execute o c)
  unfolding execute
  execute-Inv (process_command input) = process-Inv input
  execute-Inv (resume_command folder_id) = resume-Inv f o folder_id
