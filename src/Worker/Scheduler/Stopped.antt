-- ===== src/Worker/Scheduler/Stopped.antt =====
-- A scheduler that is stopped.
use radar_ia.Prelude.{◌≡◌, refl, ℕ, true, List, All}
use radar_ia.Worker.Scheduler.{
  CycleSchedulerOptions, Scheduler, clear_pending, schedule, begin_tick, fire, end_tick, stop,
}
use radar_ia.Worker.Scheduler.Steps.{
  Event, starts, Step, start_step, stop_step, fire_step, end_step, Trace, at_end, after,
}

-- an event other than start()
abbrev pub Unstarted : Event → Type 0
Unstarted starts = ⊥
Unstarted _ = Unit

-- stopped, with so many cycles begun
abbrev pub Halted : ℕ → Scheduler → Type 0
Halted n s = (s.stopped ≡ true) × (s.cycles ≡ n)

Step-Halted :
    {o : CycleSchedulerOptions} {n : ℕ} {e : Event} {s s' : Scheduler}
    → Step o e s s'
    → Unstarted e
    → Halted n s
    → Halted n s'
unfolding stop clear_pending fire begin_tick end_tick schedule
Step-Halted (start_step s) u h = absurd u
Step-Halted (stop_step s) u h = (refl, h.1)
Step-Halted (fire_step s k armed) u h = rw h.0 (refl, h.1)
Step-Halted (end_step s runs) u h = rw h.0 (refl, h.1)

-- From a stopped scheduler, no sequence of events without start() begins a cycle: the cycle in flight
-- may end and stop() may come again.
pub Trace-Halted :
    {o : CycleSchedulerOptions} {n : ℕ} {es : List Event} {s s' : Scheduler}
    → Trace o es s s'
    → All Unstarted es
    → Halted n s
    → Halted n s'
Trace-Halted (at_end s) u h = h
Trace-Halted (after step rest) u h = Trace-Halted rest u.1 (Step-Halted step u.0 h)
