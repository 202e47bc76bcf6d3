-- ===== src/Publication/Once/Calls.antt =====
-- The calls of Discord and the count of main messages.
use radar_ia.Prelude.{
  ◌≡◌, refl, ℕ, ◌+◌, String, Bool, true, false, not, ◌&&◌, ◌∷◌, List, arith, eq_refl, sym,
}
use radar_ia.Publication.Exec.{Result, ok, err}
use radar_ia.Publication.Hoare.{Spec, Keeps, After}
use radar_ia.Publication.World.{World, DiscordCall, send_main_message, CallRecord}
use radar_ia.Publication.Outcome.{Options}
use radar_ia.Publication.Orchestrator.{call_discord, is_done}
use radar_ia.Publication.Once.Invariant.{Inv, sent, is_sent}
use radar_ia.Publication.Once.Lease.{OpenRow}
use radar_ia.Publication.Once.Posted.{Posted, open-unsent}

abbrev after_call : Options → DiscordCall → Result String → World → World
after_call o c r w = record w {
  calls =
      record { call = c; done = is_done r; lost = not (is_done r) && o.unanswered w.calls c }
      ∷ w.calls;
  clock = w.clock + o.elapsed w.calls c;
}

module _ (o : Options) (f : String) (c : DiscordCall) where
  uncounted :
      (w : World) (r : Result String)
      → is_sent f c (is_done r) ≡ false
      → Inv f w
      → Inv f (after_call o c r w)
  uncounted w r e v = let z : 0 + sent f w.calls ≡ sent f w.calls = omega arith in rw e (rw z v)

  keeps-After :
      (w : World) (r : Result String)
      → ((b : Bool) → is_sent f c b ≡ false)
      → Inv f w
      → After (λ _. Inv f) (Inv f) r (after_call o c r w)
  keeps-After w (ok m) e v = uncounted w (ok m) (e true) v
  keeps-After w (err x) e v = uncounted w (err x) (e false) v

  pub call_discord-Inv : ((b : Bool) → is_sent f c b ≡ false) → Keeps (Inv f) (call_discord o c)
  unfolding call_discord
  call_discord-Inv e = record { at = λ w v. keeps-After w (o.discord w.calls c) e v }

-- The main message of the folder, sent under its open publish attempt.
module _ (o : Options) (f channel payload : String) (i : ℕ) where
  abbrev main_message : DiscordCall
  main_message = send_main_message f channel payload

  sent_main :
      (w : World) (r : Result String)
      → Inv f w × OpenRow f i w
      → r ≡ o.discord w.calls main_message
      → After
          (λ m w'.
            Posted f i w' × ((calls : List CallRecord) × (o.discord calls main_message ≡ ok m)))
          (λ w'. Inv f w' × OpenRow f i w')
          r
          (after_call o main_message r w)
  sent_main w (ok m) h e =
      let u = open-unsent f i w h.0 h.1 in
      (record { tables = u.1; row = h.1; one = rw (eq_refl f) (rw u.0 refl) }, (w.calls, sym e))
  sent_main w (err x) h e =
      let n : is_sent f main_message false ≡ false = rw (eq_refl f) refl in
      (uncounted o f main_message w (err x) n h.0, h.1)

  pub call_discord-Posted :
      Spec
        (λ w. Inv f w × OpenRow f i w)
        (call_discord o main_message)
        (λ m w'.
          Posted f i w' × ((calls : List CallRecord) × (o.discord calls main_message ≡ ok m)))
        (λ w'. Inv f w' × OpenRow f i w')
  unfolding call_discord
  call_discord-Posted = record { at = λ w h. sent_main w (o.discord w.calls main_message) h refl }
