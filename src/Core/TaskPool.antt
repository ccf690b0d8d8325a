-- ===== src/Core/TaskPool.antt =====
-- lib/Core/src/SNFCore/Strand.h, Strand.cpp, TaskPool.h and TaskPool.cpp: a pool of workers and one of
-- its strands, seen by threads that take turns. A step is what one thread does under one lock. What
-- a task does is any further steps. Tasks and nodes are numbers.
pub mod Steps
pub mod Counts
pub mod Serial
pub mod Promises
pub mod Shelf
mod Tests
use simply_node_framework.Prelude.{
  ℕ, Bool, List, [], false, if◌then◌else◌, ltb, not, set, true, ◌&&◌, ◌++◌, ◌+◌, ◌-◌, ◌==◌, ◌||◌,
  ◌∷◌,
}

pub record Strand : Type 0 where
  pub queue : List ℕ
  pub root_nodes : List ℕ
  pub pending_deletes : List ℕ
  pub scheduled : Bool
  pub active : Bool
  pub retired : Bool
  pub node_count : ℕ
  pub reserved : Bool
  pub free : Bool

-- A task of the pool, or the drain of the strand.
pub data Job : Type 0 where
  task_job : ℕ → Job
  drain_job : Job

-- Where a worker is: in `workerLoop` without a task, in a task, in `Strand::drain` after so many tasks
-- of its batch, there before the last lock, behind that lock with nothing left to run, back from the
-- task, or out of its loop.
pub data Worker : Type 0 where
  idle : Worker
  at_task : ℕ → Worker
  in_batch : ℕ → Worker
  batch_over recycling leaving gone : Worker

pub record Pool : Type 0 where
  pub jobs : List Job
  pub workers : List Worker
  pub thread_count : ℕ
  pub active_tasks : ℕ
  pub stopping : Bool
  pub joined : Bool

-- `scheduling` calls of `Strand::schedule` have not yet reached the pool's lock; `refused` of them
-- came back with `false` and have not yet reached the strand's lock. `freed` is how often the strand
-- stands in `m_freeStrands`. `posted` and `ran` are the tasks posted to it and run by it, in order.
pub record System : Type 0 where
  pub strand : Strand
  pub pool : Pool
  pub scheduling : ℕ
  pub refused : ℕ
  pub freed : ℕ
  pub posted : List ℕ
  pub ran : List ℕ

abbrev pub batch_size : ℕ
batch_size = 64

-- `post` behind its first test.
abbrev pub push : ℕ → System → System
push t s = record s {
  strand = record (s.strand) {
    queue = s.strand.queue ++ (t ∷ []);
    scheduled = true;
    active = if s.strand.scheduled then s.strand.active else true;
  };
  scheduling = if s.strand.scheduled then s.scheduling else s.scheduling + 1;
  posted = s.posted ++ (t ∷ []);
}

pub post : ℕ → System → System
post t s = if s.strand.retired then s else push t s

-- `enqueueStrandDrain`: whether the pool takes the drain.
abbrev pub accepts : Pool → Bool
accepts p = not (p.joined || p.thread_count == 0 && not p.stopping)

-- A call of `schedule` at the pool's lock.
pub schedule : System → System
schedule s =
    if accepts s.pool
    then record s {
      pool = record (s.pool) { jobs = s.pool.jobs ++ (drain_job ∷ []) };
      scheduling = s.scheduling - 1;
    }
    else record s { scheduling = s.scheduling - 1; refused = s.refused + 1 }

-- And, where the pool did not take it, at the strand's lock.
pub unschedule : System → System
unschedule s = record s {
  strand = record (s.strand) { scheduled = false; active = false };
  refused = s.refused - 1;
}

-- `TaskPool::start`.
pub start : ℕ → System → Bool × System
start t s =
    if s.pool.stopping || s.pool.thread_count == 0
    then (false, s)
    else (true, record s { pool = record (s.pool) { jobs = s.pool.jobs ++ (task_job t ∷ []) } })

abbrev pub move : ℕ → Worker → System → System
move i w s = record s { pool = record (s.pool) { workers = set s.pool.workers i w } }

abbrev pub begin_job : Job → Worker
begin_job (task_job t) = at_task t
begin_job drain_job = in_batch 0

-- `workerLoop`: an idle worker takes the first job, or leaves where the pool is stopping.
pub take_job : ℕ → System → System
take_job i s = elim s.pool.jobs [
  | [] ↦ if s.pool.stopping then move i gone s else s
  | job ∷ jobs ↦ record s {
    pool = record (s.pool) {
      jobs = jobs;
      active_tasks = s.pool.active_tasks + 1;
      workers = set s.pool.workers i (begin_job job);
    };
  }
]

-- A round of the loop in `drain`; where it is over, the pending deletes.
pub drain_round : ℕ → ℕ → System → System
drain_round i n s =
    let over = record (move i batch_over s) {
      strand = record (s.strand) { pending_deletes = [] };
    } in
    if ltb n batch_size
    then elim s.strand.queue [
      | [] ↦ over
      | t ∷ ts ↦ record (move i (in_batch (n + 1)) s) {
        strand = record (s.strand) { queue = ts };
        ran = s.ran ++ (t ∷ []);
      }
    ]
    else over

-- The last lock of `drain`.
pub end_drain : ℕ → System → System
end_drain i s = elim s.strand.queue [
  | [] ↦ record (move i recycling s) {
    strand = record (s.strand) { scheduled = false; active = false };
  }
  | t ∷ ts ↦ record (move i leaving s) { scheduling = s.scheduling + 1 }
]

abbrev pub is_nil : List ℕ → Bool
is_nil [] = true
is_nil (t ∷ ts) = false

abbrev pub is_recyclable : Strand → Bool
is_recyclable d =
    not (d.free || d.reserved || not (d.node_count == 0)) && (not d.scheduled && is_nil d.queue)

-- `recycleStrandIfIdle`.
pub recycle : System → System
recycle s =
    if is_recyclable s.strand
    then record s { strand = record (s.strand) { free = true }; freed = s.freed + 1 }
    else s

pub recycle_step : ℕ → System → System
unfolding recycle
recycle_step i s = move i leaving (recycle s)

-- The end of a round of `workerLoop`.
pub end_job : ℕ → System → System
end_job i s = record s {
  pool = record (s.pool) {
    workers = set s.pool.workers i idle;
    active_tasks = s.pool.active_tasks - 1;
  };
}

-- `acquireStrand`, where it takes this strand from `m_freeStrands`.
pub acquire : System → Bool × System
acquire s = if s.pool.stopping || s.pool.thread_count == 0 || s.freed == 0 then (false, s) else (
  true,
  record s { strand = record (s.strand) { free = false; reserved = true }; freed = s.freed - 1 },
)

-- `releaseStrandReservation`.
pub release : System → System
unfolding recycle
release s = recycle (record s { strand = record (s.strand) { reserved = false } })

pub add_node : System → System
add_node s = record s { strand = record (s.strand) { node_count = s.strand.node_count + 1 } }

pub remove_node : System → System
remove_node s = record s { strand = record (s.strand) { node_count = s.strand.node_count - 1 } }

pub add_root_node : ℕ → System → System
add_root_node node s = record s {
  strand = record (s.strand) { root_nodes = s.strand.root_nodes ++ (node ∷ []) };
}

pub without : ℕ → List ℕ → List ℕ
without node [] = []
without node (x ∷ xs) = let rest = without node xs in if x == node then rest else x ∷ rest

pub remove_root_node : ℕ → System → System
unfolding without
remove_root_node node s = record s {
  strand = record (s.strand) { root_nodes = without node s.strand.root_nodes };
}

pub enqueue_delete : ℕ → System → System
enqueue_delete node s = record s {
  strand = record (s.strand) { pending_deletes = s.strand.pending_deletes ++ (node ∷ []) };
}

-- `shutdown`: its first lock, the lock behind the joins, and `destroyRemainingNodes`. (The destructor of
-- a node takes steps of its own.)
pub stop : System → System
stop s = record s { pool = record (s.pool) { stopping = true; thread_count = 0 } }

pub join : System → System
join s = record s { pool = record (s.pool) { joined = true } }

pub retire : System → System
retire s = record s {
  strand = record (s.strand) { pending_deletes = []; retired = true; queue = [] };
}
