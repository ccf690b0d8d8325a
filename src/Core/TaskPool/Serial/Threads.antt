-- ===== src/Core/TaskPool/Serial/Threads.antt =====
-- The workers of TaskPool.cpp keep a strand serial.
use mathlib.Core.Path.{subst}
use simply_node_framework.Prelude.{
  ℕ, Bool-cases, List, [], ap, append_assoc, arith, false, inl, inr, refl, set, sym, true, ◌++◌,
  ◌+◌, ◌∙◌, ◌∷◌, ◌≡◌, if◌then◌else◌, ltb, List-cases,
}
use simply_node_framework.Core.TaskPool.{
  System, Job, Worker, begin_job, drain_job, idle, is_nil, move, task_job, batch_over, batch_size,
  drain_round, gone, in_batch, take_job, end_drain, end_job, leaving, recycling,
}
use simply_node_framework.Core.TaskPool.Counts.{drains, queued, sum-set, works}
use simply_node_framework.Core.TaskPool.Steps.{At}
use simply_node_framework.Core.TaskPool.Serial.{IsSerial, Serial}

job-drains :
    (job : Job) (jobs : List Job) → queued (job ∷ jobs) ≡ queued jobs + drains (begin_job job)
job-drains (task_job t) jobs = omega arith
job-drains drain_job jobs = omega arith

job-works : (job : Job) → works (begin_job job) ≡ 1
job-works (task_job t) = refl
job-works drain_job = refl

-- Workers that move.
module _ (i : ℕ) (s : System) (h : IsSerial s) where
  pub move-Serial :
      (w v : Worker) (queue ran : List ℕ)
      → At i w s
      → drains v ≡ drains w
      → works v ≡ works w
      → (is_nil queue ≡ false → s.strand.scheduled ≡ false → s.pool.joined ≡ true)
      → (s.strand.retired ≡ false → s.posted ≡ ran ++ queue)
      → Serial queue s.strand.scheduled s.strand.active s.strand.retired
          (move i v s).pool
          (s.scheduling + s.refused)
          s.refused
          s.posted
          ran
  move-Serial w v queue ran e d x a o = record {
    one = omega (arith, h.one, d, sum-set drains s.pool.workers i w v e);
    mirrored = h.mirrored;
    counted = omega (arith, h.counted, x, sum-set works s.pool.workers i w v e);
    in_order = o;
    awake = a;
    refusing = h.refusing;
    staffed = h.staffed;
  }

  job-Serial :
      (job : Job) (jobs : List Job)
      → At i idle s
      → s.pool.jobs ≡ job ∷ jobs
      → Serial s.strand.queue s.strand.scheduled s.strand.active s.strand.retired
          (record (s.pool) {
            jobs = jobs;
            active_tasks = s.pool.active_tasks + 1;
            workers = set s.pool.workers i (begin_job job);
          })
          (s.scheduling + s.refused)
          s.refused
          s.posted
          s.ran
  job-Serial job jobs e q = record {
    one = omega (
      arith,
      h.one,
      ap queued q,
      sum-set drains s.pool.workers i idle (begin_job job) e,
      job-drains job jobs,
    );
    mirrored = h.mirrored;
    counted =
        omega
          (arith, h.counted, sum-set works s.pool.workers i idle (begin_job job) e, job-works job);
    in_order = h.in_order;
    awake = h.awake;
    refusing = h.refusing;
    staffed = h.staffed;
  }

  pub take_job-IsSerial : At i idle s → IsSerial (take_job i s)
  unfolding take_job
  take_job-IsSerial e = elim (List-cases s.pool.jobs) [
    | inr (job, jobs, q) ↦ rw (q, take_job) (job-Serial job jobs e q)
    | inl q ↦ elim (Bool-cases s.pool.stopping) [
      | inl over ↦
          rw (q, take_job)
            (subst IsSerial (sym (ap (λ b. if b then move i gone s else s) over))
              (move-Serial idle gone s.strand.queue s.ran e refl refl h.awake h.in_order))
      | inr going ↦
          rw (q, take_job) (subst IsSerial (sym (ap (λ b. if b then move i gone s else s) going)) h)
    ]
  ]

  over-Serial : (n : ℕ) → At i (in_batch n) s → IsSerial (move i batch_over s)
  over-Serial n e =
      move-Serial (in_batch n) batch_over s.strand.queue s.ran e refl refl h.awake h.in_order

  pub drain_round-IsSerial : (n : ℕ) → At i (in_batch n) s → IsSerial (drain_round i n s)
  unfolding drain_round
  drain_round-IsSerial n e = elim (Bool-cases (ltb n batch_size)) [
    | inr full ↦ rw (full, drain_round) (over-Serial n e)
    | inl more ↦ elim (List-cases s.strand.queue) [
      | inl q ↦ rw (more, drain_round) (rw (q, drain_round) (over-Serial n e))
      | inr (t, ts, q) ↦
          rw (more, drain_round)
            (rw (q, drain_round)
              (move-Serial (in_batch n) (in_batch (n + 1)) ts (s.ran ++ (t ∷ [])) e refl refl
                (λ f. h.awake (ap is_nil q))
                (λ r.
                  h.in_order r ∙ ap (λ x. s.ran ++ x) q ∙ sym (append_assoc s.ran (t ∷ []) ts))))
    ]
  ]

  -- A worker that gives the right back, with the queue empty, or passes it on.
  idle-Serial :
      At i batch_over s
      → s.strand.queue ≡ []
      → Serial s.strand.queue false false s.strand.retired
          (move i recycling s).pool
          (s.scheduling + s.refused)
          s.refused
          s.posted
          s.ran
  idle-Serial e q =
      let moved = sum-set drains s.pool.workers i batch_over recycling e in
      record {
        one = ground (arith, h.one, moved);
        mirrored = refl;
        counted = omega (arith, h.counted, sum-set works s.pool.workers i batch_over recycling e);
        in_order = h.in_order;
        awake = λ f. cc (f, ap is_nil q);
        refusing = h.refusing;
        staffed = h.staffed;
      }

  again-Serial :
      At i batch_over s
      → Serial s.strand.queue s.strand.scheduled s.strand.active s.strand.retired
          (move i leaving s).pool
          (s.scheduling + 1 + s.refused)
          s.refused
          s.posted
          s.ran
  again-Serial e = record {
    one = omega (arith, h.one, sum-set drains s.pool.workers i batch_over leaving e);
    mirrored = h.mirrored;
    counted = omega (arith, h.counted, sum-set works s.pool.workers i batch_over leaving e);
    in_order = h.in_order;
    awake = h.awake;
    refusing = h.refusing;
    staffed = h.staffed;
  }

  pub end_drain-IsSerial : At i batch_over s → IsSerial (end_drain i s)
  unfolding end_drain
  end_drain-IsSerial e = elim (List-cases s.strand.queue) [
    | inl q ↦ rw (q, end_drain) (idle-Serial e q)
    | inr (t, ts, q) ↦ rw (q, end_drain) (again-Serial e)
  ]

  pub end_job-IsSerial :
      (w : Worker) → At i w s → drains w ≡ 0 → works w ≡ 1 → IsSerial (end_job i s)
  unfolding end_job
  end_job-IsSerial w e d x = record {
    one = omega (arith, h.one, d, sum-set drains s.pool.workers i w idle e);
    mirrored = h.mirrored;
    counted = omega (arith, h.counted, x, sum-set works s.pool.workers i w idle e);
    in_order = h.in_order;
    awake = h.awake;
    refusing = h.refusing;
    staffed = h.staffed;
  }
