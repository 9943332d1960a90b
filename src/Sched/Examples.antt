-- ===== src/Sched/Examples.antt =====
-- The scheduler's theorems at three events.
use dream_recomp.Base.{ℕ, ◌≡◌, [], ◌∷◌}
use dream_recomp.Sched.{Scheduler, never, earliest, next_deadline}
use dream_recomp.Sched.Earliest.{IsNext, earliest-IsNext, next_deadline-earliest}

abbrev three_events : Scheduler ℕ
three_events = record { events = 30 ∷ never ∷ 20 ∷ []; now = 10; world = 0 }

earliest-IsNext_example : IsNext three_events (earliest three_events)
earliest-IsNext_example = earliest-IsNext three_events

next_deadline-earliest_example : next_deadline three_events ≡ (earliest three_events).best
next_deadline-earliest_example = next_deadline-earliest three_events
