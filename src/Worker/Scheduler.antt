-- ===== src/Worker/Scheduler.antt =====
-- scheduler.ts: createCycleScheduler. JavaScript runs one handler at a time, so the code between two
-- awaits is one step; the timers that are armed and the calls of runCycle that have not ended are the
-- runtime's part of the state.
pub mod Steps
pub mod Invariant
pub mod Stopped
pub mod OneShot
use radar_ia.Prelude.{
  ℕ, ◌+◌, ◌-◌, Bool, true, false, not, ◌&&◌, ◌||◌, Option, none, some, List, [], ◌∷◌, ◌==◌, filter,
  if◌then◌else◌,
}

pub record CycleSchedulerOptions : Type 0 where
  pub initial_delay_ms : ℕ
  pub interval_ms : ℕ
  pub scheduler_enabled : Bool

-- a timer of the runtime, by the number of its handle
pub record Timer : Type 0 where
  pub handle : ℕ
  pub delay_ms : ℕ

-- the variables of the scheduler, then the runtime's part; `cycles` counts the calls of runCycle
pub record Scheduler : Type 0 where
  pub pending : Option ℕ
  pub tick_active : Bool
  pub stopped : Bool
  pub started : Bool
  pub timers : List Timer
  pub next_handle : ℕ
  pub in_flight : ℕ
  pub cycles : ℕ

-- `createCycleScheduler(options)`
abbrev pub new_scheduler : Scheduler
new_scheduler = record {
  pending = none;
  tick_active = false;
  stopped = true;
  started = false;
  timers = [];
  next_handle = 0;
  in_flight = 0;
  cycles = 0;
}

abbrev pub without : ℕ → List Timer → List Timer
without h ts = filter (λ t. not (t.handle == h)) ts

abbrev pub timers_left : Option ℕ → List Timer → List Timer
timers_left none ts = ts
timers_left (some h) ts = without h ts

unfoldable pub clear_pending : Scheduler → Scheduler
clear_pending s = record s { pending = none; timers = timers_left s.pending s.timers }

-- `pending = timers.setTimeout(handler, delayMs)`
abbrev pub arm : ℕ → Scheduler → Scheduler
arm delay_ms s = record s {
  pending = some s.next_handle;
  timers = record { handle = s.next_handle; delay_ms = delay_ms } ∷ s.timers;
  next_handle = s.next_handle + 1;
}

unfoldable pub schedule : ℕ → Scheduler → Scheduler
schedule delay_ms s =
    let cleared = clear_pending s in if s.stopped then cleared else arm delay_ms cleared

-- `runTick` up to the await of runCycle
unfoldable pub begin_tick : Scheduler → Scheduler
begin_tick s =
    if s.stopped || s.tick_active
    then s
    else record s { tick_active = true; in_flight = s.in_flight + 1; cycles = s.cycles + 1 }

-- the handler of a timer that has run out
unfoldable pub fire : ℕ → Scheduler → Scheduler
fire h s = begin_tick (record s { pending = none; timers = without h s.timers })

-- `runTick` once runCycle has ended, with an error or without: the `finally` block
unfoldable pub end_tick : CycleSchedulerOptions → Scheduler → Scheduler
end_tick o s =
    let idle : Scheduler = record s { tick_active = false; in_flight = s.in_flight - 1 } in
    if not s.stopped && o.scheduler_enabled
    then schedule o.interval_ms idle
    else record idle { stopped = true }

unfoldable pub start : CycleSchedulerOptions → Scheduler → Scheduler
start o s =
    if s.started && not s.stopped
    then s
    else schedule o.initial_delay_ms (record s { started = true; stopped = false })

unfoldable pub stop : Scheduler → Scheduler
stop s = clear_pending (record s { stopped = true })
