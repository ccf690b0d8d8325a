-- ===== src/Core/TaskPool/Steps.antt =====
-- How the threads of TaskPool.cpp and Strand.cpp can take turns.
use simply_node_framework.Prelude.{ℕ, [], false, get_elem?, replicate, some, true, ◌<◌, ◌≡◌, All}
use simply_node_framework.Core.TaskPool.{
  System, Strand, Worker, acquire, add_node, add_root_node, at_task, batch_over, drain_round,
  end_drain, end_job, enqueue_delete, idle, in_batch, join, leaving, post, push, recycle_step,
  recycling, release, remove_node, remove_root_node, retire, schedule, start, stop, take_job,
  unschedule, gone,
}

abbrev pub At : ℕ → Worker → System → Type 0
At i w s = get_elem? s.pool.workers i ≡ some w

-- `post` may have passed its first test before the strand is retired, so `pushes` has no test.
pub data Step : System → System → Type 0 where
  posts : {s : System} (t : ℕ) → Step s (post t s)
  pushes : {s : System} (t : ℕ) → Step s (push t s)
  schedules : {s : System} → 0 < s.scheduling → Step s (schedule s)
  unschedules : {s : System} → 0 < s.refused → Step s (unschedule s)
  starts : {s : System} (t : ℕ) → Step s (start t s).1
  takes : {s : System} (i : ℕ) → At i idle s → Step s (take_job i s)
  rounds : {s : System} (i n : ℕ) → At i (in_batch n) s → Step s (drain_round i n s)
  ends : {s : System} (i : ℕ) → At i batch_over s → Step s (end_drain i s)
  recycles : {s : System} (i : ℕ) → At i recycling s → Step s (recycle_step i s)
  ends_task : {s : System} (i t : ℕ) → At i (at_task t) s → Step s (end_job i s)
  ends_drain : {s : System} (i : ℕ) → At i leaving s → Step s (end_job i s)
  acquires : {s : System} → Step s (acquire s).1
  releases : {s : System} → Step s (release s)
  adds_node : {s : System} → Step s (add_node s)
  removes_node : {s : System} → Step s (remove_node s)
  adds_root : {s : System} (node : ℕ) → Step s (add_root_node node s)
  removes_root : {s : System} (node : ℕ) → Step s (remove_root_node node s)
  deletes : {s : System} (node : ℕ) → Step s (enqueue_delete node s)
  stops : {s : System} → Step s (stop s)
  joins :
      {s : System} → s.pool.stopping ≡ true → All (λ w. w ≡ gone) s.pool.workers → Step s (join s)
  retires : {s : System} → s.pool.joined ≡ true → Step s (retire s)

pub data Steps : System → System → Type 0 where
  done : {s : System} → Steps s s
  then_one : {s t u : System} → Steps s t → Step t u → Steps s u

abbrev pub fresh_strand : Strand
fresh_strand = record {
  queue = [];
  root_nodes = [];
  pending_deletes = [];
  scheduled = false;
  active = false;
  retired = false;
  node_count = 0;
  reserved = true;
  free = false;
}

-- A pool with `n` workers and a strand that was just made for a caller.
abbrev pub initial : ℕ → System
initial n = record {
  strand = fresh_strand;
  pool = record {
    jobs = [];
    workers = replicate n idle;
    thread_count = n;
    active_tasks = 0;
    stopping = false;
    joined = false;
  };
  scheduling = 0;
  refused = 0;
  freed = 0;
  posted = [];
  ran = [];
}
