-- ===== src/Core/TaskPool/Serial/Runs.antt =====
-- Every step of TaskPool.cpp keeps a strand serial.
use simply_node_framework.Prelude.{ℕ, Bool-cases, false, inl, inr, refl, ◌==◌, ◌||◌}
use simply_node_framework.Core.TaskPool.{
  System, move, acquire, add_node, add_root_node, at_task, enqueue_delete, is_recyclable, join,
  leaving, recycle, recycle_step, recycling, release, remove_node, remove_root_node, retire, stop,
}
use simply_node_framework.Core.TaskPool.Steps.{
  At, Step, acquires, adds_node, adds_root, deletes, ends, ends_drain, ends_task, joins, posts,
  pushes, recycles, releases, removes_node, removes_root, retires, rounds, schedules, starts, stops,
  takes, unschedules,
}
use simply_node_framework.Core.TaskPool.Serial.{IsSerial}
use simply_node_framework.Core.TaskPool.Serial.Calls.{
  push-IsSerial, post-IsSerial, schedule-IsSerial, start-IsSerial, unschedule-IsSerial,
}
use simply_node_framework.Core.TaskPool.Serial.Threads.{
  take_job-IsSerial, drain_round-IsSerial, end_drain-IsSerial, end_job-IsSerial, move-Serial,
}

recycle-IsSerial : (s : System) → IsSerial s → IsSerial (recycle s)
unfolding recycle
recycle-IsSerial s h = elim (Bool-cases (is_recyclable s.strand)) [
  | inl yes_it ↦ rw (yes_it, recycle) h
  | inr no_it ↦ rw (no_it, recycle) h
]

recycle_step-IsSerial :
    (i : ℕ) (s : System) → At i recycling s → IsSerial s → IsSerial (recycle_step i s)
unfolding recycle_step recycle
recycle_step-IsSerial i s e h = elim (Bool-cases (is_recyclable s.strand)) [
  | inl yes_it ↦ rw (yes_it, recycle_step) (leaves)
  | inr no_it ↦ rw (no_it, recycle_step) (leaves)
]
  where
    leaves : IsSerial (move i leaving s)
    leaves = move-Serial i s h recycling leaving s.strand.queue s.ran e refl refl h.awake h.in_order

acquire-IsSerial : (s : System) → IsSerial s → IsSerial (acquire s).1
unfolding acquire
acquire-IsSerial s h =
    elim (Bool-cases (s.pool.stopping || s.pool.thread_count == 0 || s.freed == 0)) [
      | inl closed ↦ rw (closed, acquire) h
      | inr found ↦ rw (found, acquire) h
    ]

stop-IsSerial : (s : System) → IsSerial s → IsSerial (stop s)
unfolding stop
stop-IsSerial s h = record {
  one = h.one;
  mirrored = h.mirrored;
  counted = h.counted;
  in_order = h.in_order;
  awake = h.awake;
  refusing = h.refusing;
  staffed = λ _. refl;
}

join-IsSerial : (s : System) → IsSerial s → IsSerial (join s)
unfolding join
join-IsSerial s h = record {
  one = h.one;
  mirrored = h.mirrored;
  counted = h.counted;
  in_order = h.in_order;
  awake = λ _ _. refl;
  refusing = λ _. refl;
  staffed = h.staffed;
}

retire-IsSerial : (s : System) → IsSerial s → IsSerial (retire s)
unfolding retire
retire-IsSerial s h = record {
  one = h.one;
  mirrored = h.mirrored;
  counted = h.counted;
  in_order = λ e. cc e;
  awake = λ e. cc e;
  refusing = h.refusing;
  staffed = h.staffed;
}

pub step-IsSerial : {s u : System} → Step s u → IsSerial s → IsSerial u
unfolding release add_node remove_node add_root_node remove_root_node enqueue_delete
step-IsSerial {s} (posts t) h = post-IsSerial t s h
step-IsSerial {s} (pushes t) h = push-IsSerial t s h
step-IsSerial {s} (schedules k) h = schedule-IsSerial s k h
step-IsSerial {s} (unschedules k) h = unschedule-IsSerial s k h
step-IsSerial {s} (starts t) h = start-IsSerial t s h
step-IsSerial {s} (takes i e) h = take_job-IsSerial i s h e
step-IsSerial {s} (rounds i n e) h = drain_round-IsSerial i s h n e
step-IsSerial {s} (ends i e) h = end_drain-IsSerial i s h e
step-IsSerial {s} (recycles i e) h = recycle_step-IsSerial i s e h
step-IsSerial {s} (ends_task i t e) h = end_job-IsSerial i s h (at_task t) e refl refl
step-IsSerial {s} (ends_drain i e) h = end_job-IsSerial i s h leaving e refl refl
step-IsSerial {s} acquires h = acquire-IsSerial s h
step-IsSerial {s} releases h =
    recycle-IsSerial (record s { strand = record (s.strand) { reserved = false } }) h
step-IsSerial {s} adds_node h = h
step-IsSerial {s} removes_node h = h
step-IsSerial {s} (adds_root node) h = h
step-IsSerial {s} (removes_root node) h = h
step-IsSerial {s} (deletes node) h = h
step-IsSerial {s} stops h = stop-IsSerial s h
step-IsSerial {s} (joins e g) h = join-IsSerial s h
step-IsSerial {s} (retires e) h = retire-IsSerial s h
