-- ===== src/Worker/Examples.antt =====
-- Instances of the results on the scheduler.
use radar_ia.Prelude.{◌≡◌, ◌≤◌, refl, true, false, some, [], ◌∷◌, arith}
use radar_ia.Worker.Scheduler.{
  CycleSchedulerOptions, Scheduler, new_scheduler, clear_pending, schedule, begin_tick, fire,
  end_tick, start, stop,
}
use radar_ia.Worker.Scheduler.Steps.{
  starts, stops, fires, start_step, stop_step, fire_step, end_step, Trace, at_end, after,
}
use radar_ia.Worker.Scheduler.Invariant.{WellFormed, Trace-new_scheduler}
use radar_ia.Worker.Scheduler.Stopped.{Halted, Trace-Halted}
use radar_ia.Worker.Scheduler.OneShot.{count_starts, Trace-one_shot}

abbrev repeating : CycleSchedulerOptions
repeating = record { initial_delay_ms = 5; interval_ms = 60; scheduler_enabled = true }

abbrev once : CycleSchedulerOptions
once = record { initial_delay_ms = 5; interval_ms = 60; scheduler_enabled = false }

-- a start, the first cycle, and a stop while it runs
abbrev stopped_in_cycle : CycleSchedulerOptions → Scheduler
stopped_in_cycle o = stop (fire 0 (start o new_scheduler))

first_cycle :
    (o : CycleSchedulerOptions)
    → Trace o (starts ∷ fires 0 ∷ stops ∷ []) new_scheduler (stopped_in_cycle o)
unfolding start schedule clear_pending
first_cycle o = after (start_step new_scheduler) (
    after (fire_step (start o new_scheduler) 0 refl)
      (after (stop_step (fire 0 (start o new_scheduler))) (at_end (stopped_in_cycle o))))

Trace-new_scheduler_example : WellFormed (stopped_in_cycle repeating)
Trace-new_scheduler_example = Trace-new_scheduler (first_cycle repeating)

Trace-Halted_example : Halted 1 (end_tick repeating (stopped_in_cycle repeating))
unfolding stop fire begin_tick start schedule clear_pending
Trace-Halted_example =
    Trace-Halted
      (after (end_step (stopped_in_cycle repeating) (omega arith))
        (at_end (end_tick repeating (stopped_in_cycle repeating))))
      (tt, tt) (refl, refl)

Trace-one_shot_example :
    (stopped_in_cycle once).cycles ≤ count_starts (starts ∷ fires 0 ∷ stops ∷ [])
Trace-one_shot_example = Trace-one_shot (first_cycle once) refl

cycles_begun : (end_tick repeating (fire 0 (start repeating new_scheduler))).pending ≡ some 1
unfolding end_tick fire begin_tick start schedule clear_pending
cycles_begun = refl

-- a start during the last cycle of a scheduler that does not repeat is lost: its timer runs out
-- without a cycle, since the end of the cycle has stopped the scheduler
lost_start : (fire 1 (end_tick once (start once (stopped_in_cycle once)))).cycles ≡ 1
unfolding end_tick stop fire begin_tick start schedule clear_pending
lost_start = refl
