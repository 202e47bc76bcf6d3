-- ===== src/Publication/Idle.antt =====
-- publication-orchestrator.ts: the calls of `process` that neither write nor call Discord.
use radar_ia.Prelude.{
  ◌≡◌, refl, Bool, true, false, ◌&&◌, Option, none, some, is_blank, Bool-cases, inl, inr, or_else,
  subst, sym, if◌then◌else◌, String,
}
use radar_ia.Analysis.Types.{
  PublicationDecision, publish, enrich_thread_only, hold, reject_editorial,
}
use radar_ia.Publication.Types.{NewsFolderStatus, FolderPublication, has_main}
use radar_ia.Publication.World.{World, NewsFolder, find_folder, find_publication}
use radar_ia.Publication.Repository.{load_publication_by_folder}
use radar_ia.Publication.Repository.Reserve.{is_blank_or_null}
use radar_ia.Publication.Outcome.{Options, OrchestrationInput}
use radar_ia.Publication.Orchestrator.{Flow, or_return, role_of_hint}
use radar_ia.Publication.Orchestrator.Publish.{
  Target, publish_existing, publish_target, non_blank, run_publish,
}
use radar_ia.Publication.Orchestrator.Process.{
  unless_closed, unless_absent, with_folder, dispatch, process,
}

-- the decisions that lead to Discord
abbrev pub acts : PublicationDecision → Bool
acts publish = true
acts enrich_thread_only = true
acts hold = false
acts reject_editorial = false

abbrev is_open_status : NewsFolderStatus → Bool
is_open_status NewsFolderStatus.closed = false
is_open_status _ = true

abbrev pub is_open : Option NewsFolder → Bool
is_open none = false
is_open (some folder) = is_open_status folder.status

unless_open-idle :
    (folder_id : String) (k : NewsFolder → Flow) (w : World) (folder : NewsFolder)
    (s : NewsFolderStatus)
    → is_open_status s ≡ false
    → (unless_closed folder_id k s folder w).1 ≡ w
unless_open-idle folder_id k w folder NewsFolderStatus.closed h = refl
unless_open-idle folder_id k w folder NewsFolderStatus.opened h = cc
unless_open-idle folder_id k w folder NewsFolderStatus.idle h = cc

unless_absent-idle :
    (folder_id : String) (k : NewsFolder → Flow) (w : World) (found : Option NewsFolder)
    → is_open found ≡ false
    → (unless_absent folder_id k found w).1 ≡ w
unless_absent-idle folder_id k w none h = refl
unless_absent-idle folder_id k w (some folder) h =
    unless_open-idle folder_id k w folder folder.status h

with_folder-idle :
    (folder_id : String) (k : NewsFolder → Flow) (w : World)
    → is_open (find_folder folder_id w.folders) ≡ false
    → (with_folder folder_id k w).1 ≡ w
unfolding with_folder
with_folder-idle folder_id k w h =
    unless_absent-idle folder_id k w (find_folder folder_id w.folders) h

dispatch-idle :
    (o : Options) (input : OrchestrationInput) (d : PublicationDecision) (w : World)
    → (acts d && is_open (find_folder input.folder_id w.folders)) ≡ false
    → (dispatch o input d w).1 ≡ w
unfolding dispatch
dispatch-idle o input hold w h = refl
dispatch-idle o input reject_editorial w h = refl
dispatch-idle o input publish w h = with_folder-idle input.folder_id _ w h
dispatch-idle o input enrich_thread_only w h = with_folder-idle input.folder_id _ w h

-- Unless the decision is to publish or to enrich and the folder exists and is not closed, `process`
-- changes nothing: no row is written and no call of Discord is made.
pub process-idle :
    (o : Options) (input : OrchestrationInput) (w : World)
    → (acts input.decision && is_open (find_folder input.folder_id w.folders)) ≡ false
    → (process o input w).1 ≡ w
unfolding process
process-idle o input w h = elim (Bool-cases (is_blank input.folder_id)) [
  | inl blank ↦ rw blank refl
  | inr filled ↦ rw filled (dispatch-idle o input input.decision w h)
]

-- flows that end where they began
module _ (w : World) where
  abbrev Idle : Flow → Type 0
  Idle m = (m w).1 ≡ w

  if-Idle : (b : Bool) (m n : Flow) → Idle m → Idle n → Idle (if b then m else n)
  if-Idle true m n hm hn = hm
  if-Idle false m n hm hn = hn

  or_return-Idle :
      {A : Type 0} (a : Option A) (r : Flow) (k : A → Flow)
      → Idle r
      → ((x : A) → Idle (k x))
      → Idle (or_return a r k)
  or_return-Idle none r k hr hk = hr
  or_return-Idle (some x) r k hr hk = hk x

  publish_existing-Idle :
      (o : Options) (input : OrchestrationInput) (folder : NewsFolder) (t : Target)
      (p : FolderPublication)
      → has_main p ≡ true
      → Idle (publish_existing o input folder t (some p))
  unfolding publish_existing
  publish_existing-Idle o input folder t p m = rw m refl

  publish_target-Idle :
      (o : Options) (input : OrchestrationInput) (folder : NewsFolder) (t : Target)
      (p : FolderPublication)
      → find_publication input.folder_id w.publications ≡ some p
      → has_main p ≡ true
      → Idle (publish_target o input folder t)
  unfolding publish_target load_publication_by_folder
  publish_target-Idle o input folder t p e m = rw e (publish_existing-Idle o input folder t p m)

  run_publish-Idle :
      (o : Options) (input : OrchestrationInput) (folder : NewsFolder) (p : FolderPublication)
      → find_publication input.folder_id w.publications ≡ some p
      → has_main p ≡ true
      → Idle (run_publish o input folder)
  unfolding run_publish
  run_publish-Idle o input folder p e m =
      if-Idle (is_blank_or_null input.analysis_attempt_id) _ _ refl (
        or_return-Idle (role_of_hint input.channel_hint) _ _ refl λ role.
          or_return-Idle (non_blank (o.resolve_channel_id (or_else input.channel_hint ""))) _ _ refl
            λ channel.
              or_return-Idle input.validated_content _ _ refl
                λ content. publish_target-Idle o input folder _ p e m)

  unless_closed-Idle :
      (folder_id : String) (k : NewsFolder → Flow) (folder : NewsFolder) (s : NewsFolderStatus)
      → ((x : NewsFolder) → Idle (k x))
      → Idle (unless_closed folder_id k s folder)
  unless_closed-Idle folder_id k folder NewsFolderStatus.closed h = refl
  unless_closed-Idle folder_id k folder NewsFolderStatus.opened h = h folder
  unless_closed-Idle folder_id k folder NewsFolderStatus.idle h = h folder

  unless_absent-Idle :
      (folder_id : String) (k : NewsFolder → Flow) (found : Option NewsFolder)
      → ((x : NewsFolder) → Idle (k x))
      → Idle (unless_absent folder_id k found)
  unless_absent-Idle folder_id k none h = refl
  unless_absent-Idle folder_id k (some folder) h =
      unless_closed-Idle folder_id k folder folder.status h

  with_folder-Idle :
      (folder_id : String) (k : NewsFolder → Flow)
      → ((x : NewsFolder) → Idle (k x))
      → Idle (with_folder folder_id k)
  unfolding with_folder
  with_folder-Idle folder_id k h =
      unless_absent-Idle folder_id k (find_folder folder_id w.folders) h

dispatch-published :
    (o : Options) (input : OrchestrationInput) (p : FolderPublication) (w : World)
    → find_publication input.folder_id w.publications ≡ some p
    → has_main p ≡ true
    → (dispatch o input publish w).1 ≡ w
unfolding dispatch
dispatch-published o input p w e m =
    with_folder-Idle w input.folder_id (run_publish o input)
      λ folder. run_publish-Idle w o input folder p e m

-- A decision to publish changes nothing and calls nothing where the folder's publication already
-- has its main message, be it complete or still without its thread.
pub process-published :
    (o : Options) (input : OrchestrationInput) (p : FolderPublication) (w : World)
    → input.decision ≡ publish
    → find_publication input.folder_id w.publications ≡ some p
    → has_main p ≡ true
    → (process o input w).1 ≡ w
unfolding process
process-published o input p w d e m = elim (Bool-cases (is_blank input.folder_id)) [
  | inl blank ↦ rw blank refl
  | inr filled ↦
      rw filled
        (subst (λ x. (dispatch o input x w).1 ≡ w) (sym d) (dispatch-published o input p w e m))
]
