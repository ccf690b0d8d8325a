-- ===== src/Core/TaskPool/Serial/Calls.antt =====
-- The calls of Strand.cpp and TaskPool.cpp that bring work keep a strand serial.
use mathlib.Core.Path.{subst}
use simply_node_framework.Prelude.{
  ℕ, Bool-cases, [], ap, append_assoc, arith, inl, inr, refl, sym, ◌++◌, ◌<◌, ◌==◌, ◌||◌, ◌∙◌, ◌∷◌,
  if◌then◌else◌,
}
use simply_node_framework.Core.TaskPool.{
  System, accepts, drain_job, post, push, schedule, start, task_job, unschedule,
}
use simply_node_framework.Core.TaskPool.Counts.{queued-append}
use simply_node_framework.Core.TaskPool.Serial.{IsSerial}

pub push-IsSerial : (t : ℕ) (s : System) → IsSerial s → IsSerial (push t s)
push-IsSerial t s h = record {
  one = ground (arith, h.one);
  mirrored = ground (arith, h.mirrored);
  counted = h.counted;
  in_order =
      λ e. ap (λ x. x ++ (t ∷ [])) (h.in_order e) ∙ append_assoc s.ran s.strand.queue (t ∷ []);
  awake = λ e f. cc f;
  refusing = h.refusing;
  staffed = h.staffed;
}

pub post-IsSerial : (t : ℕ) (s : System) → IsSerial s → IsSerial (post t s)
unfolding post
post-IsSerial t s h = elim (Bool-cases s.strand.retired) [
  | inl late ↦ subst IsSerial (sym (ap (λ b. if b then s else push t s) late)) h
  | inr early ↦
      subst IsSerial (sym (ap (λ b. if b then s else push t s) early)) (push-IsSerial t s h)
]

pub schedule-IsSerial : (s : System) → 0 < s.scheduling → IsSerial s → IsSerial (schedule s)
unfolding schedule
schedule-IsSerial s k h = elim (Bool-cases (accepts s.pool)) [
  | inl taken ↦
      rw (taken, schedule)
        (record {
          one = omega (arith, h.one, queued-append s.pool.jobs (drain_job ∷ []));
          mirrored = h.mirrored;
          counted = h.counted;
          in_order = h.in_order;
          awake = h.awake;
          refusing = h.refusing;
          staffed = h.staffed;
        })
  | inr no_more ↦
      rw (no_more, schedule)
        (record {
          one = omega (arith, h.one);
          mirrored = h.mirrored;
          counted = h.counted;
          in_order = h.in_order;
          awake = h.awake;
          refusing = λ e. ground (arith, no_more, h.staffed);
          staffed = h.staffed;
        })
]

pub unschedule-IsSerial : (s : System) → 0 < s.refused → IsSerial s → IsSerial (unschedule s)
unfolding unschedule
unschedule-IsSerial s k h = record {
  one = ground (arith, h.one);
  mirrored = refl;
  counted = h.counted;
  in_order = h.in_order;
  awake = λ e f. h.refusing k;
  refusing = λ e. h.refusing k;
  staffed = h.staffed;
}

pub start-IsSerial : (t : ℕ) (s : System) → IsSerial s → IsSerial (start t s).1
unfolding start
start-IsSerial t s h = elim (Bool-cases (s.pool.stopping || s.pool.thread_count == 0)) [
  | inl closed ↦ rw (closed, start) h
  | inr takes_it ↦
      rw (takes_it, start)
        (record {
          one = omega (arith, h.one, queued-append s.pool.jobs (task_job t ∷ []));
          mirrored = h.mirrored;
          counted = h.counted;
          in_order = h.in_order;
          awake = h.awake;
          refusing = h.refusing;
          staffed = h.staffed;
        })
]
