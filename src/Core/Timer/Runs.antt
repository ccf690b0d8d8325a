-- ===== src/Core/Timer/Runs.antt =====
-- No timeout comes early in any run.
use mathlib.Core.Path.{subst}
use simply_node_framework.Prelude.{
  arith, false, refl, true, ℕ, ◌+◌, ◌<◌, ◌^◌, ◌≡◌, ◌≤◌, All, List, [], length, ◌∷◌,
}
use simply_node_framework.Core.TimerService.{Entry, Service, cancel, schedule, stop}
use simply_node_framework.Core.TimerService.Each.{All-cancel, All-schedule, All-stop}
use simply_node_framework.Core.Timer.{
  System, move_to, next_generation, post_due, sanitize_interval, Op, Timer, cancelling_other,
  moving, new_system, passing, posting, run, running, scheduling_other, set_single_shot,
  setting_interval, setting_single_shot, start, start_with, starting, starting_with, step,
  stop_timer, stopping, stopping_service,
}
use simply_node_framework.Core.Timer.Operations.{
  pass-IsPunctual, move_to-IsPunctual, post_due-IsPunctual, run_posted-IsPunctual,
  set_interval-IsPunctual,
}
use simply_node_framework.Core.Timer.Punctual.{
  IsPunctual, Fits, cancel_timer-IsPunctual, later-IsPunctual, rearmed-IsPunctual,
  stopped-IsPunctual,
}

-- The service changes, and its entries fit.
served-IsPunctual :
    (calls : ℕ) (s : System) (service : Service)
    → All (Fits s.timer) service.queue
    → IsPunctual calls s
    → IsPunctual calls (record s { service = service })
served-IsPunctual calls s service q h = record {
  counted = h.counted;
  queued = q;
  came = h.came;
  timed = h.timed;
}

other-Fits : (t : Timer) (e : Entry) → Fits t (record e { timer = e.timer + 1 })
other-Fits t e own = omega (arith, own)

step-IsPunctual :
    (calls : ℕ) (op : Op) (s : System)
    → calls + 1 < 2 ^ 64
    → IsPunctual calls s
    → IsPunctual (calls + 1) (step op s)
unfolding step start start_with stop_timer set_single_shot
step-IsPunctual calls starting s b h =
    rearmed-IsPunctual calls s (record (s.timer) { active = true }) refl b h
step-IsPunctual calls (starting_with i) s b h =
    rearmed-IsPunctual calls s (record (s.timer) { interval = sanitize_interval i; active = true })
      refl b h
step-IsPunctual calls stopping s b h =
    cancel_timer-IsPunctual (calls + 1)
      (record s { timer = next_generation (record (s.timer) { active = false }) })
      (stopped-IsPunctual calls s b h)
step-IsPunctual calls posting s b h =
    later-IsPunctual calls (post_due s) (post_due-IsPunctual calls s h)
step-IsPunctual calls stopping_service s b h =
    later-IsPunctual calls (record s { service = stop s.service })
      (served-IsPunctual calls s (stop s.service) (All-stop (Fits s.timer) s.service) h)
step-IsPunctual calls (setting_interval i) s b h = set_interval-IsPunctual calls i s b h
step-IsPunctual calls (setting_single_shot one) s b h =
    later-IsPunctual calls (set_single_shot one s)
      (record { counted = h.counted; queued = h.queued; came = h.came; timed = h.timed })
step-IsPunctual calls (moving target) s b h =
    later-IsPunctual calls (move_to target s) (move_to-IsPunctual calls target s h)
step-IsPunctual calls (passing n) s b h =
    later-IsPunctual calls (record s { now = s.now + n }) (pass-IsPunctual calls n s h)
step-IsPunctual calls (running strand) s b h = run_posted-IsPunctual calls strand s b h
step-IsPunctual calls (cancelling_other n) s b h =
    later-IsPunctual calls (record s { service = cancel (n + 1) s.service })
      (served-IsPunctual calls s (cancel (n + 1) s.service)
        (All-cancel (Fits s.timer) (n + 1) s.service h.queued) h)
step-IsPunctual calls (scheduling_other e) s b h =
    let o = record e { timer = e.timer + 1 } in
    later-IsPunctual calls (record s { service = schedule o s.service })
      (served-IsPunctual calls s (schedule o s.service)
        (All-schedule (Fits s.timer) o s.service (other-Fits s.timer e) h.queued) h)

run-IsPunctual_on :
    (calls : ℕ) (ops : List Op) (s : System)
    → calls + length ops < 2 ^ 64
    → IsPunctual calls s
    → IsPunctual (calls + length ops) (run ops s)
unfolding run
run-IsPunctual_on calls [] s b h =
    let same : calls ≡ calls + 0 = omega arith in subst (λ n. IsPunctual n s) same h
run-IsPunctual_on calls (op ∷ ops) s b h =
    let shift : calls + 1 + length ops ≡ calls + length (op ∷ ops) = omega arith in
    subst (λ n. IsPunctual n (run ops (step op s))) shift
      (run-IsPunctual_on (calls + 1) ops (step op s) (omega (arith, b, shift))
        (step-IsPunctual calls op s (omega (arith, b)) h))

-- In any run of a timer from its making on (calls of its methods in their strand, moves to other
-- strands, other timers, the thread of the service and the strands in any turns), of less than 2^64
-- calls: no timeout is emitted before the deadline that was set last, though timeouts of earlier
-- starts and of strands it has left may still be posted.
pub run-timed :
    (owner : ℕ) (ops : List Op)
    → length ops < 2 ^ 64
    → All (λ x. x.due ≤ x.at) (run ops (new_system owner)).timeouts
run-timed owner ops b =
    (run-IsPunctual_on 0 ops (new_system owner) (omega (arith, b))
      (record { counted = omega arith; queued = tt; came = tt; timed = tt })).timed
