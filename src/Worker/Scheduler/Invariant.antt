-- ===== src/Worker/Scheduler/Invariant.antt =====
-- Schedulers that events lead to.
use radar_ia.Prelude.{
  ◌≡◌, refl, ℕ, Bool, true, false, not, ◌&&◌, Option, none, some, List, [], ◌∷◌, ◌==◌, any, is_some,
  arith, ◌-◌, Bool-cases, inl, inr,
}
use radar_ia.Worker.Scheduler.{
  CycleSchedulerOptions, Timer, Scheduler, new_scheduler, without, timers_left, clear_pending,
  schedule, begin_tick, fire, end_tick, start, stop,
}
use radar_ia.Worker.Scheduler.Steps.{
  Event, Step, start_step, stop_step, fire_step, end_step, Trace, at_end, after,
}

-- the armed timers are the pending one
abbrev pub Armed : Option ℕ → List Timer → Type 0
Armed none ts = ts ≡ []
Armed (some h) ts = (t : Timer) × (ts ≡ t ∷ []) × (t.handle ≡ h)

abbrev pub flights : Bool → ℕ
flights true = 1
flights false = 0

-- the timer that is pending is the only one; a cycle runs exactly while a tick is active; and a
-- scheduler that is not stopped waits for a timer or for a cycle
abbrev pub WellFormed : Scheduler → Type 0
WellFormed s =
    Armed s.pending s.timers
    × (s.in_flight ≡ flights s.tick_active)
    × (not s.stopped && not s.tick_active && not (is_some s.pending) ≡ false)

clear-Armed : (p : Option ℕ) (ts : List Timer) → Armed p ts → timers_left p ts ≡ []
clear-Armed none ts a = a
clear-Armed (some h) ts a = rw a.1 (ground (arith, a.2))

arm-Armed :
    (h d : ℕ) (ts : List Timer)
    → ts ≡ []
    → Armed (some h) (record { handle = h; delay_ms = d } ∷ ts)
arm-Armed h d ts e = (record { handle = h; delay_ms = d }, rw e refl, refl)

-- scheduling needs no timer or tick to have been there
schedule-WellFormed :
    (d : ℕ) (s : Scheduler)
    → Armed s.pending s.timers
    → s.in_flight ≡ flights s.tick_active
    → WellFormed (schedule d s)
unfolding schedule clear_pending
schedule-WellFormed d s a f = elim (Bool-cases s.stopped) [
  | inl off ↦ rw off (clear-Armed s.pending s.timers a, f, refl)
  | inr on ↦ rw on (
    arm-Armed s.next_handle d (timers_left s.pending s.timers) (clear-Armed s.pending s.timers a),
    f,
    ground arith,
  )
]

start-WellFormed :
    (o : CycleSchedulerOptions) (s : Scheduler) → WellFormed s → WellFormed (start o s)
unfolding start
start-WellFormed o s w = elim (Bool-cases (s.started && not s.stopped)) [
  | inl runs ↦ rw runs w
  | inr halted ↦ rw halted (
      schedule-WellFormed o.initial_delay_ms (record s { started = true; stopped = false }) w.0 w.1)
]

stop-WellFormed : (s : Scheduler) → WellFormed s → WellFormed (stop s)
unfolding stop clear_pending
stop-WellFormed s w = (clear-Armed s.pending s.timers w.0, w.1, refl)

-- a timer that runs out is the pending one
without-Armed :
    (h : ℕ) (p : Option ℕ) (ts : List Timer)
    → Armed p ts
    → any (λ t. t.handle == h) ts ≡ true
    → without h ts ≡ []
without-Armed h none ts a armed = ground arith
without-Armed h (some g) ts a armed =
    let one : any (λ t. t.handle == h) (a.0 ∷ []) ≡ true = rw a.1 at armed in rw a.1 (ground arith)

begin_tick-WellFormed :
    (s : Scheduler)
    → Armed s.pending s.timers
    → s.in_flight ≡ flights s.tick_active
    → WellFormed (begin_tick s)
unfolding begin_tick
begin_tick-WellFormed s a f = elim (Bool-cases s.stopped) [
  | inl off ↦ rw off (a, f, refl)
  | inr on ↦ elim (Bool-cases s.tick_active) [
    | inl busy ↦ rw on (rw busy (a, rw busy at f, refl))
    | inr idle ↦
        let none_runs : s.in_flight ≡ 0 = rw idle at f in
        rw on (rw idle (a, rw none_runs refl, refl))
  ]
]

fire-WellFormed :
    (h : ℕ) (s : Scheduler)
    → any (λ t. t.handle == h) s.timers ≡ true
    → WellFormed s
    → WellFormed (fire h s)
unfolding fire
fire-WellFormed h s armed w =
    begin_tick-WellFormed (record s { pending = none; timers = without h s.timers })
      (without-Armed h s.pending s.timers w.0 armed) w.1

flights-less : (n : ℕ) (b : Bool) → n ≡ flights b → n - 1 ≡ 0
flights-less n true e = ground arith
flights-less n false e = ground arith

end_tick-WellFormed :
    (o : CycleSchedulerOptions) (s : Scheduler) → WellFormed s → WellFormed (end_tick o s)
unfolding end_tick
end_tick-WellFormed o s w = elim (Bool-cases (not s.stopped && o.scheduler_enabled)) [
  | inl again ↦ rw again (
      schedule-WellFormed o.interval_ms
        (record s { tick_active = false; in_flight = s.in_flight - 1 }) w.0
        (flights-less s.in_flight s.tick_active w.1))
  | inr last ↦ rw last (w.0, flights-less s.in_flight s.tick_active w.1, refl)
]

pub Step-WellFormed :
    {o : CycleSchedulerOptions} {e : Event} {s s' : Scheduler}
    → Step o e s s'
    → WellFormed s
    → WellFormed s'
Step-WellFormed {o = o} (start_step s) w = start-WellFormed o s w
Step-WellFormed (stop_step s) w = stop-WellFormed s w
Step-WellFormed (fire_step s h armed) w = fire-WellFormed h s armed w
Step-WellFormed {o = o} (end_step s runs) w = end_tick-WellFormed o s w

Trace-WellFormed :
    {o : CycleSchedulerOptions} {es : List Event} {s s' : Scheduler}
    → Trace o es s s'
    → WellFormed s
    → WellFormed s'
Trace-WellFormed (at_end s) w = w
Trace-WellFormed (after step rest) w = Trace-WellFormed rest (Step-WellFormed step w)

-- Whatever sequence of starts, stops, timers and ends of cycles a new scheduler goes through: at most
-- one timer is armed, the pending one; at most one cycle runs, exactly while a tick is active; and
-- unless it is stopped a cycle runs or a timer is armed, so that it never waits for nothing.
pub Trace-new_scheduler :
    {o : CycleSchedulerOptions} {es : List Event} {s : Scheduler}
    → Trace o es new_scheduler s
    → WellFormed s
Trace-new_scheduler trace = Trace-WellFormed trace (refl, refl, refl)
