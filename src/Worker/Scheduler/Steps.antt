-- ===== src/Worker/Scheduler/Steps.antt =====
-- What may happen to a scheduler, as a relation.
use radar_ia.Prelude.{◌≡◌, ◌<◌, ℕ, true, List, [], ◌∷◌, any, ◌==◌}
use radar_ia.Worker.Scheduler.{CycleSchedulerOptions, Scheduler, fire, end_tick, start, stop}

-- start() and stop() come at any time, a timer runs out that is armed, a cycle ends that runs
pub data Event : Type 0 where
  starts stops ends : Event
  fires : ℕ → Event

pub data Step (o : CycleSchedulerOptions) : Event → Scheduler → Scheduler → Type 0 where
  start_step : (s : Scheduler) → Step o starts s (start o s)
  stop_step : (s : Scheduler) → Step o stops s (stop s)
  fire_step :
      (s : Scheduler) (h : ℕ)
      → any (λ t. t.handle == h) s.timers ≡ true
      → Step o (fires h) s (fire h s)
  end_step : (s : Scheduler) → 0 < s.in_flight → Step o ends s (end_tick o s)

-- a sequence of events from one state to another
pub data Trace (o : CycleSchedulerOptions) : List Event → Scheduler → Scheduler → Type 0 where
  at_end : (s : Scheduler) → Trace o [] s s
  after :
      {e : Event} {es : List Event} {s s' s'' : Scheduler}
      → Step o e s s'
      → Trace o es s' s''
      → Trace o (e ∷ es) s s''
