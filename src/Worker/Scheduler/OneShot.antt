-- ===== src/Worker/Scheduler/OneShot.antt =====
-- A scheduler whose repetition is switched off.
use radar_ia.Prelude.{
  ◌≡◌, ◌≤◌, refl, ℕ, ◌+◌, true, false, not, ◌&&◌, ◌||◌, Option, none, some, List, [], ◌∷◌, ◌==◌,
  any, arith, inl, inr, Bool-cases,
}
use radar_ia.Worker.Scheduler.{
  CycleSchedulerOptions, Timer, Scheduler, new_scheduler, clear_pending, schedule, begin_tick, fire,
  end_tick, start, stop,
}
use radar_ia.Worker.Scheduler.Steps.{
  Event, starts, Step, start_step, stop_step, fire_step, end_step, Trace, at_end, after,
}
use radar_ia.Worker.Scheduler.Invariant.{Armed, WellFormed, Step-WellFormed}

abbrev pub cost : Event → ℕ
cost starts = 1
cost _ = 0

-- the calls of start() in a sequence of events
abbrev pub count_starts : List Event → ℕ
count_starts [] = 0
count_starts (e ∷ es) = cost e + count_starts es

abbrev pub waiting : Option ℕ → ℕ
waiting none = 0
waiting (some h) = 1

-- the cycles begun and the one that a timer will begin
abbrev pub due : Scheduler → ℕ
due s = s.cycles + waiting s.pending

schedule-due : (d : ℕ) (s : Scheduler) → due (schedule d s) ≤ s.cycles + 1
unfolding schedule clear_pending
schedule-due d s = elim (Bool-cases s.stopped) [
  | inl off ↦ rw off (omega arith)
  | inr on ↦ rw on (omega arith)
]

start-due : (o : CycleSchedulerOptions) (s : Scheduler) → due (start o s) ≤ due s + 1
unfolding start
start-due o s = elim (Bool-cases (s.started && not s.stopped)) [
  | inl runs ↦ rw runs (omega arith)
  | inr halted ↦ rw halted (
      omega (arith, schedule-due o.initial_delay_ms (record s { started = true; stopped = false })))
]

-- an armed timer means that one is pending
waiting-Armed :
    (h : ℕ) (p : Option ℕ) (ts : List Timer)
    → Armed p ts
    → any (λ t. t.handle == h) ts ≡ true
    → waiting p ≡ 1
waiting-Armed h none ts a armed = ground arith
waiting-Armed h (some g) ts a armed = refl

fire-due :
    (h : ℕ) (s : Scheduler)
    → any (λ t. t.handle == h) s.timers ≡ true
    → WellFormed s
    → due (fire h s) ≤ due s
unfolding fire begin_tick
fire-due h s armed w =
    let one = waiting-Armed h s.pending s.timers w.0 armed in
    elim (Bool-cases (s.stopped || s.tick_active)) [
      | inl quiet ↦ rw quiet (omega arith)
      | inr begins ↦ rw begins (omega arith)
    ]

end_tick-due :
    (o : CycleSchedulerOptions) (s : Scheduler)
    → o.scheduler_enabled ≡ false
    → due (end_tick o s) ≤ due s
unfolding end_tick
end_tick-due o s off = elim (Bool-cases s.stopped) [
  | inl halted ↦ rw halted (omega arith)
  | inr on ↦ rw on (rw off (omega arith))
]

stop-due : (s : Scheduler) → due (stop s) ≤ due s
unfolding stop clear_pending
stop-due s = omega arith

Step-due :
    {o : CycleSchedulerOptions} {e : Event} {s s' : Scheduler}
    → Step o e s s'
    → o.scheduler_enabled ≡ false
    → WellFormed s
    → due s' ≤ due s + cost e
Step-due {o = o} (start_step s) off w = start-due o s
Step-due (stop_step s) off w = omega (arith, stop-due s)
Step-due (fire_step s h armed) off w = omega (arith, fire-due h s armed w)
Step-due {o = o} (end_step s runs) off w = omega (arith, end_tick-due o s off)

Trace-due :
    {o : CycleSchedulerOptions} {es : List Event} {s s' : Scheduler}
    → Trace o es s s'
    → o.scheduler_enabled ≡ false
    → WellFormed s
    → due s' ≤ due s + count_starts es
Trace-due (at_end s) off w = omega arith
Trace-due (after step rest) off w =
    omega (arith, Step-due step off w, Trace-due rest off (Step-WellFormed step w))

-- With the repetition switched off a new scheduler never begins more cycles than start() is called.
pub Trace-one_shot :
    {o : CycleSchedulerOptions} {es : List Event} {s : Scheduler}
    → Trace o es new_scheduler s
    → o.scheduler_enabled ≡ false
    → s.cycles ≤ count_starts es
Trace-one_shot trace off = omega (arith, Trace-due trace off (refl, refl, refl))
