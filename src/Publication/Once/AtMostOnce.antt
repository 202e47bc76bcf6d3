-- ===== src/Publication/Once/AtMostOnce.antt =====
-- How many main messages of a folder a run of calls sends.
use radar_ia.Prelude.{
  ◌≡◌, ◌≤◌, ◌+◌, ◌&&◌, ◌||◌, not, refl, subst, String, Bool, false, List, [], ◌∷◌, is_blank, All,
  arith,
}
use radar_ia.Publication.Exec.{Result, ok, err}
use radar_ia.Publication.Hoare.{After}
use radar_ia.Publication.World.{
  World, DiscordCall, CallRecord, send_main_message, start_thread, unarchive_thread_if_needed,
  send_thread_message, find_publication,
}
use radar_ia.Publication.Tables.{bit}
use radar_ia.Publication.Outcome.{main_success}
use radar_ia.Publication.Orchestrator.Process.{Call, execute, run}
use radar_ia.Publication.Once.Invariant.{Fits, FitsDiscord, Inv, is_sent, sent, unconfirmed, posted}
use radar_ia.Publication.Once.PublishFlow.{Answers}
use radar_ia.Publication.Once.Run.{execute-Inv}

-- What a process relies on: no outage meets the record of a main message, a good answer to a main
-- message has an id that is not blank, and the guild's id is not blank.
pub record IsSound (c : Call) : Type 0 where
  pub recorded : (w : World) → c.options.outage main_success w ≡ false
  pub answers : Answers c.options
  pub guild : is_blank c.options.guild_id ≡ false

After-Inv :
    {A : Type 0} (f : String) (r : Result A) (w : World) → After (λ _. Inv f) (Inv f) r w → Inv f w
After-Inv f (ok a) w h = h
After-Inv f (err e) w h = h

run-Inv : (f : String) (cs : List Call) → All IsSound cs → (w : World) → Inv f w → Inv f (run cs w)
unfolding run
run-Inv f [] sound w v = v
run-Inv f (c ∷ rest) sound w v =
    let s = sound.0 in
    let done = execute c.options c.command w in
    run-Inv f rest sound.1 done.1 (
      After-Inv f done.0 done.1
        ((execute-Inv f c.options s.recorded s.answers s.guild c.command).at w v))

-- a message that stands on Discord is confirmed or not
is_sent-split :
    (f : String) (c : DiscordCall) (done lost : Bool)
    → bit (is_sent f c (done || lost))
      ≡ bit (is_sent f c done) + bit (is_sent f c (not done && lost))
is_sent-split f (send_main_message g channel payload) done lost = ground arith
is_sent-split f (start_thread a b c) done lost = refl
is_sent-split f (unarchive_thread_if_needed a) done lost = refl
is_sent-split f (send_thread_message a b) done lost = refl

posted-split :
    (f : String) (calls : List CallRecord) → posted f calls ≡ sent f calls + unconfirmed f calls
posted-split f [] = refl
posted-split f (r ∷ rest) = omega (arith, is_sent-split f r.call r.done r.lost, posted-split f rest)

-- Let every process of a run be sound: no outage meets its record of a main message, Discord's good
-- answers to its main messages have ids that are not blank, and its guild's id is not blank. Then
-- after any sequence of `process` and `resume` by any processes, from a world in the invariant of the
-- folder `f`, the folder's publication and attempts fit the main messages that stand on Discord,
-- also where calls throw, where Discord refuses calls, and where the other writes meet an outage; if
-- by then Discord has posted no main message of `f` whose answer was an error.
pub run-keeps :
    (f : String) (cs : List Call) (w : World)
    → All IsSound cs
    → Inv f w
    → unconfirmed f (run cs w).calls ≡ 0
    → FitsDiscord f (run cs w)
run-keeps f cs w sound v confirmed =
    let after = run cs w in
    let same : sent f after.calls ≡ posted f after.calls =
      omega (arith, posted-split f after.calls, confirmed) in
    subst (Fits f (find_publication f after.publications) after.attempts after.next_id) same
      (run-Inv f cs sound w v)

empty-Inv :
    (f : String) (w : World) → w.publications ≡ [] → w.attempts ≡ [] → w.calls ≡ [] → Inv f w
unfolding find_publication
empty-Inv f w p a c = rw p (
    rw a (
      rw c (record {
        settled = λ m. cc;
        once = omega arith;
        unsent = λ m. refl;
        waiting = λ more. absurd (omega (arith, more));
        single = omega arith;
        finished = λ more. absurd (omega (arith, more));
        keyed = refl;
        ids = tt;
      })))

-- Let every process of a run be sound: no outage meets its record of a main message, Discord's good
-- answers to its main messages have ids that are not blank, and its guild's id is not blank. Then
-- from empty tables, over any sequence of `process` and `resume` by any processes, the main messages
-- of a folder that stand on Discord are at most one, and one more for each that Discord posted while
-- the process got an error for an answer: however often the folder is published, resumed or enriched,
-- and whichever calls Discord refuses, claims are refused and other writes meet an outage.
pub run-sends_once :
    (f : String) (cs : List Call) (w : World)
    → All IsSound cs
    → w.publications ≡ []
    → w.attempts ≡ []
    → w.calls ≡ []
    → posted f (run cs w).calls ≤ 1 + unconfirmed f (run cs w).calls
run-sends_once f cs w sound p a c =
    let v = run-Inv f cs sound w (empty-Inv f w p a c) in
    omega (arith, posted-split f (run cs w).calls, v.once)
