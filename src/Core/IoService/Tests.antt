-- ===== src/Core/IoService/Tests.antt =====
-- A descriptor that is watched, reported, posted and handled.
use simply_node_framework.Prelude.{ℕ, Bool, [], false, refl, true, ◌∷◌, ◌≡◌, pos}
use simply_node_framework.Core.IoService.{
  IoService, arm, modify_io, new_io, register_io, run_round, stop, take_events, take_one, wait,
}
use simply_node_framework.Core.IoService.Steps.{
  Steps, here, modify, register, round, then_step, waited,
}
use simply_node_framework.Core.IoService.Kept.{Kept}
use simply_node_framework.Core.IoService.Kept.Runs.{Steps-Kept}
use simply_node_framework.Core.IoService.Stopped.{stopped-Quiet, Quiet}

abbrev none_closed : ℕ → Bool
none_closed fd = false

abbrev watched_5 : IoService
watched_5 = register_io none_closed 1 (pos 5) 4 9 new_io

abbrev reported_5 : IoService
reported_5 = wait ((5, 4) ∷ []) watched_5

abbrev posted_5 : IoService
posted_5 = run_round reported_5

one_posted :
    posted_5.posted ≡ record { strand = 1; fd = 5; events = 4; registration = 1; callback = 9 } ∷ []
unfolding run_round wait register_io new_io take_events take_one arm
one_posted = refl

-- A second report finds the watch queued.
not_twice : (run_round (wait ((5, 4) ∷ []) posted_5)).posted ≡ posted_5.posted
unfolding run_round wait register_io new_io take_events take_one arm
not_twice = refl

nothing_reported : watched_5.reported ≡ []
unfolding register_io new_io arm
nothing_reported = refl

posted_run : Steps none_closed new_io posted_5
posted_run =
    then_step new_io reported_5 posted_5
      (then_step new_io watched_5 reported_5
        (then_step new_io new_io watched_5 (here new_io) (register 1 (pos 5) 4 9 new_io))
        (waited ((5, 4) ∷ []) watched_5 nothing_reported))
      (round reported_5)

Steps-Kept_example : Kept none_closed posted_5
Steps-Kept_example = Steps-Kept none_closed posted_5 posted_run

now_stopped : (stop posted_5).stopped ≡ true
unfolding stop
now_stopped = refl

stopped-Quiet_example : Quiet (stop posted_5) (modify_io none_closed 5 1 (stop posted_5))
stopped-Quiet_example =
    stopped-Quiet none_closed (stop posted_5) (modify_io none_closed 5 1 (stop posted_5))
      now_stopped
      (then_step (stop posted_5) (stop posted_5) (modify_io none_closed 5 1 (stop posted_5))
        (here (stop posted_5)) (modify 5 1 (stop posted_5)))
