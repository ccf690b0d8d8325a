-- ===== src/Core/TimerService/Tests.antt =====
-- TimerService.cpp with two timers.
use simply_node_framework.Prelude.{ℕ, List, [], arith, false, refl, ◌∷◌, ◌≡◌}
use simply_node_framework.Core.TimerService.{
  Service, Entry, arm, cancel, emplace, erase_entry, erase_key, is_indexed, run_round, schedule,
  take_due,
}
use simply_node_framework.Core.TimerService.Armed.{
  IsArmed, Call, idle_service, run, run-IsArmed, schedules,
}
use simply_node_framework.Core.TimerService.Due.{run_round-Splits, Splits}

abbrev entry : ℕ → ℕ → Entry
entry deadline timer = record { deadline = deadline; strand = 0; timer = timer; generation = 1 }

abbrev calls : List Call
calls = schedules (entry 9 1) ∷ schedules (entry 5 2) ∷ schedules (entry 7 1) ∷ []

abbrev armed : Service
armed = record { queue = entry 5 2 ∷ entry 7 1 ∷ []; index = 1 ∷ 2 ∷ []; stopped = false }

rearmed : run calls idle_service ≡ armed
unfolding schedule cancel arm emplace is_indexed erase_key erase_entry
rearmed = refl

first_due :
    run_round 6 armed ≡ (entry 5 2 ∷ [], record armed { queue = entry 7 1 ∷ []; index = 1 ∷ [] })
unfolding run_round take_due erase_key
first_due = refl

nothing-IsArmed : IsArmed [] []
nothing-IsArmed = record { ordered = tt; matched = λ t. refl; once = λ t. omega arith }

run-IsArmed_example : IsArmed (run calls idle_service).queue (run calls idle_service).index
run-IsArmed_example = run-IsArmed calls idle_service nothing-IsArmed

run_round-Splits_example :
    Splits 6
      (run calls idle_service).queue
      (run_round 6 (run calls idle_service)).0
      (run_round 6 (run calls idle_service)).1.queue
unfolding schedule cancel arm emplace is_indexed erase_key erase_entry
run_round-Splits_example =
    run_round-Splits 6 (run calls idle_service) refl
      (run-IsArmed calls idle_service nothing-IsArmed)
