-- ===== src/Core/TaskPool/Shelf.antt =====
-- `m_freeStrands` of TaskPool.cpp.
use simply_node_framework.Prelude.{ℕ, ap, arith, false, refl, sym, true, ◌∙◌, ◌≡◌}
use simply_node_framework.Core.TaskPool.{
  System, acquire, add_node, add_root_node, drain_round, end_drain, end_job, enqueue_delete, join,
  post, recycle, recycle_step, release, remove_node, remove_root_node, retire, schedule, start,
  stop, take_job, unschedule,
}
use simply_node_framework.Core.TaskPool.Serial.{flag}
use simply_node_framework.Core.TaskPool.Steps.{
  Step, Steps, acquires, adds_node, adds_root, deletes, done, ends, ends_drain, ends_task, initial,
  joins, posts, pushes, recycles, releases, removes_node, removes_root, retires, rounds, schedules,
  starts, stops, takes, then_one, unschedules,
}

pub record IsShelved (s : System) : Type 0 where
  pub listed : s.freed ≡ flag s.strand.free
  pub unreserved : s.strand.free ≡ true → s.strand.reserved ≡ false

post-IsShelved : (t : ℕ) (s : System) → IsShelved s → IsShelved (post t s)
unfolding post
post-IsShelved t s h = record {
  listed = ground (arith, h.listed);
  unreserved = ground (arith, h.unreserved);
}

schedule-IsShelved : (s : System) → IsShelved s → IsShelved (schedule s)
unfolding schedule
schedule-IsShelved s h = record {
  listed = ground (arith, h.listed);
  unreserved = ground (arith, h.unreserved);
}

start-IsShelved : (t : ℕ) (s : System) → IsShelved s → IsShelved (start t s).1
unfolding start
start-IsShelved t s h = record {
  listed = ground (arith, h.listed);
  unreserved = ground (arith, h.unreserved);
}

module _ (i : ℕ) (s : System) (h : IsShelved s) where
  take_job-IsShelved : IsShelved (take_job i s)
  unfolding take_job
  take_job-IsShelved = record {
    listed = ground (arith, h.listed);
    unreserved = ground (arith, h.unreserved);
  }

  drain_round-IsShelved : (n : ℕ) → IsShelved (drain_round i n s)
  unfolding drain_round
  drain_round-IsShelved n = record {
    listed = ground (arith, h.listed);
    unreserved = ground (arith, h.unreserved);
  }

  end_drain-IsShelved : IsShelved (end_drain i s)
  unfolding end_drain
  end_drain-IsShelved = record {
    listed = ground (arith, h.listed);
    unreserved = ground (arith, h.unreserved);
  }

recycle-IsShelved : (s : System) → IsShelved s → IsShelved (recycle s)
unfolding recycle
recycle-IsShelved s h = record {
  listed = ground (arith, h.listed);
  unreserved = ground (arith, h.unreserved);
}

acquire-IsShelved : (s : System) → IsShelved s → IsShelved (acquire s).1
unfolding acquire
acquire-IsShelved s h = record {
  listed = ground (arith, h.listed);
  unreserved = ground (arith, h.unreserved);
}

release-IsShelved : (s : System) → IsShelved s → IsShelved (release s)
unfolding release
release-IsShelved s h =
    recycle-IsShelved (record s { strand = record (s.strand) { reserved = false } })
      (record { listed = h.listed; unreserved = λ _. refl })

same :
    {s u : System}
    → u.freed ≡ s.freed
    → u.strand.free ≡ s.strand.free
    → u.strand.reserved ≡ s.strand.reserved
    → IsShelved s
    → IsShelved u
same a b c h = record {
  listed = a ∙ h.listed ∙ ap flag (sym b);
  unreserved = λ e. c ∙ h.unreserved (sym b ∙ e);
}

step-IsShelved : {s u : System} → Step s u → IsShelved s → IsShelved u
unfolding add_node remove_node add_root_node remove_root_node enqueue_delete stop join retire
    end_job recycle_step unschedule
step-IsShelved {s} (posts t) h = post-IsShelved t s h
step-IsShelved (pushes t) h = same refl refl refl h
step-IsShelved {s} (schedules k) h = schedule-IsShelved s h
step-IsShelved (unschedules k) h = same refl refl refl h
step-IsShelved {s} (starts t) h = start-IsShelved t s h
step-IsShelved {s} (takes i e) h = take_job-IsShelved i s h
step-IsShelved {s} (rounds i n e) h = drain_round-IsShelved i s h n
step-IsShelved {s} (ends i e) h = end_drain-IsShelved i s h
step-IsShelved {s} (recycles i e) h = same refl refl refl (recycle-IsShelved s h)
step-IsShelved (ends_task i t e) h = same refl refl refl h
step-IsShelved (ends_drain i e) h = same refl refl refl h
step-IsShelved {s} acquires h = acquire-IsShelved s h
step-IsShelved {s} releases h = release-IsShelved s h
step-IsShelved adds_node h = same refl refl refl h
step-IsShelved removes_node h = same refl refl refl h
step-IsShelved (adds_root node) h = same refl refl refl h
step-IsShelved (removes_root node) h = same refl refl refl h
step-IsShelved (deletes node) h = same refl refl refl h
step-IsShelved stops h = same refl refl refl h
step-IsShelved (joins e g) h = same refl refl refl h
step-IsShelved (retires e) h = same refl refl refl h

kept : {s u : System} → Steps s u → IsShelved s → IsShelved u
kept done h = h
kept (then_one p q) h = step-IsShelved q (kept p h)

-- However the threads take turns, the strand stands in the pool's list of free strands once where it is
-- marked free and else not at all, and only while no caller has it reserved.
pub Steps-IsShelved : (n : ℕ) (s : System) → Steps (initial n) s → IsShelved s
Steps-IsShelved n s p = kept p (record { listed = refl; unreserved = λ e. cc e })
