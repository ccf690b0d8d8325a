-- ===== src/Core/Timer/Tests.antt =====
-- A timer that is started twice, and one that moves.
use simply_node_framework.Prelude.{All, List, [], arith, pos, refl, true, ◌++◌, ◌||◌, ◌∷◌, ◌≡◌, ◌≤◌}
use simply_node_framework.Core.TimerService.{
  emplace, is_indexed, erase_key, erase_entry, cancel, arm, schedule, take_due, run_round,
}
use simply_node_framework.Core.Timer.{
  Op, moving, new_system, passing, posting, run, running, starting, starting_with, cancel_timer,
  dispatch_timeout, fire, move_to, next_generation, post_due, run_found, run_posted, schedule_timer,
  set_deadline, start, start_with, step, take_posted,
}
use simply_node_framework.Core.TimerService.Found.{has}
use simply_node_framework.Core.Timer.Runs.{run-timed}
use simply_node_framework.Core.Timer.Pending.{run-IsPending, is_current}

-- The first timeout is posted when the timer is started again: it is not emitted. The second is.
abbrev started_twice : List Op
started_twice =
    starting_with (pos 5)
    ∷ passing 5000000
    ∷ posting
    ∷ starting
    ∷ running 1
    ∷ passing 6000000
    ∷ posting
    ∷ running 1
    ∷ []

run-timed_example : All (λ x. x.due ≤ x.at) (run started_twice (new_system 1)).timeouts
run-timed_example = run-timed 1 started_twice (omega arith)

started_twice_test :
    (run started_twice (new_system 1)).timeouts ≡ record { at = 11000000; due = 10000000 } ∷ []
unfolding run step start_with start move_to cancel_timer schedule_timer set_deadline next_generation
    post_due run_posted take_posted run_found dispatch_timeout fire emplace is_indexed erase_key
    erase_entry cancel arm schedule take_due run_round
started_twice_test = refl

-- The timer moves while its timeout is posted to the strand that it leaves.
abbrev moved_away : List Op
moved_away = starting_with (pos 5) ∷ passing 5000000 ∷ posting ∷ moving 2 ∷ running 1 ∷ []

run-IsPending_example :
    (let s = run moved_away (new_system 1) in
      (has (is_current s) s.service.queue || has (is_current s) s.posted) ≡ true)
unfolding run step start_with start move_to cancel_timer schedule_timer set_deadline next_generation
    post_due run_posted take_posted run_found dispatch_timeout fire emplace is_indexed erase_key
    erase_entry cancel arm schedule take_due run_round
run-IsPending_example = run-IsPending 1 moved_away refl refl

moved_away_test :
    (run (moved_away ++ (posting ∷ running 2 ∷ [])) (new_system 1)).timeouts
    ≡ record { at = 5000000; due = 5000000 } ∷ []
unfolding run step start_with start move_to cancel_timer schedule_timer set_deadline next_generation
    post_due run_posted take_posted run_found dispatch_timeout fire emplace is_indexed erase_key
    erase_entry cancel arm schedule take_due run_round
moved_away_test = refl
