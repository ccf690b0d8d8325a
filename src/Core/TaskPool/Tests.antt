-- ===== src/Core/TaskPool/Tests.antt =====
-- Runs of a pool and a strand, TaskPool.cpp and Strand.cpp.
use simply_node_framework.Prelude.{[], arith, refl, ◌++◌, ◌+◌, ◌∷◌, ◌≡◌, ◌≤◌, true}
use simply_node_framework.Core.TaskPool.{
  System, drain_round, end_drain, end_job, post, recycle, recycle_step, schedule, take_job, acquire,
  release,
}
use simply_node_framework.Core.TaskPool.Counts.{sum, drains, queued}
use simply_node_framework.Core.TaskPool.Steps.{
  Steps, done, ends, ends_drain, initial, posts, recycles, rounds, schedules, takes, then_one,
  acquires, releases,
}
use simply_node_framework.Core.TaskPool.Shelf.{Steps-IsShelved, IsShelved}
use simply_node_framework.Core.TaskPool.Promises.{
  one_at_a_time, in_posted_order, not_forgotten, wait_for_done_lem,
}

-- A task comes, and the worker begins to drain the strand.
abbrev called : System
called = schedule (post 7 (initial 1))

abbrev taken : System
taken = take_job 0 called

-- It runs the task, finds no more, and comes back.
abbrev emptied : System
emptied = drain_round 0 1 (drain_round 0 0 taken)

abbrev finished : System
finished = end_job 0 (recycle_step 0 (end_drain 0 emptied))

to_called : Steps (initial 1) called
unfolding post
to_called = then_one (then_one done (posts 7)) (schedules (omega arith))

to_taken : Steps (initial 1) taken
unfolding post schedule
to_taken = then_one to_called (takes 0 refl)

to_finished : Steps (initial 1) finished
unfolding post schedule take_job drain_round end_drain recycle_step recycle
to_finished =
    then_one
      (then_one
        (then_one (then_one (then_one to_taken (rounds 0 0 refl)) (rounds 0 1 refl)) (ends 0 refl))
        (recycles 0 refl))
      (ends_drain 0 refl)

ran_it : finished.ran ≡ 7 ∷ []
unfolding post schedule take_job drain_round end_drain recycle_step recycle end_job
ran_it = refl

one_at_a_time_example : sum drains taken.pool.workers ≤ 1
one_at_a_time_example = one_at_a_time 1 taken (omega arith) to_taken

in_posted_order_example : taken.posted ≡ taken.ran ++ taken.strand.queue
unfolding post schedule take_job
in_posted_order_example = in_posted_order 1 taken (omega arith) to_taken refl

not_forgotten_example :
    called.scheduling + queued called.pool.jobs + sum drains called.pool.workers ≡ 1
unfolding post schedule
not_forgotten_example = not_forgotten 1 called (omega arith) to_called refl refl

wait_for_done_example : finished.posted ≡ finished.ran
unfolding post schedule take_job drain_round end_drain recycle_step recycle end_job
wait_for_done_example =
    wait_for_done_lem 1 finished (omega arith) to_finished refl refl refl refl refl

-- The reservation is given back, and the strand is shelved and taken again.
shelved_strand : (release (initial 1)).strand.free ≡ true
unfolding release recycle
shelved_strand = refl

Steps-IsShelved_example : IsShelved (acquire (release (initial 1))).1
Steps-IsShelved_example =
    Steps-IsShelved 1 (acquire (release (initial 1))).1 (then_one (then_one done releases) acquires)
