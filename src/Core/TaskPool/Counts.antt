-- ===== src/Core/TaskPool/Counts.antt =====
-- How many workers and jobs of TaskPool.cpp are at one strand.
use simply_node_framework.Prelude.{
  ℕ, List, [], ap, arith, get_elem?, none, refl, replicate, set, some, suc, zero, ◌++◌, ◌+◌, ◌∷◌,
  ◌≡◌, ◌≤◌,
}
use simply_node_framework.Core.TaskPool.{
  Worker, Job, batch_over, drain_job, gone, idle, in_batch, task_job, at_task, leaving, recycling,
}

-- Workers in `Strand::drain`, before its last lock.
abbrev pub drains : Worker → ℕ
drains (in_batch n) = 1
drains batch_over = 1
drains _ = 0

-- Workers counted by `m_activeTasks`.
abbrev pub works : Worker → ℕ
works idle = 0
works gone = 0
works _ = 1

abbrev pub sum : (Worker → ℕ) → List Worker → ℕ
sum f [] = 0
sum f (w ∷ ws) = f w + sum f ws

abbrev pub queued : List Job → ℕ
queued [] = 0
queued (task_job t ∷ js) = queued js
queued (drain_job ∷ js) = suc (queued js)

pub sum-set :
    (f : Worker → ℕ) (ws : List Worker) (i : ℕ) (w v : Worker)
    → get_elem? ws i ≡ some w
    → sum f (set ws i v) + f w ≡ sum f ws + f v
sum-set f [] i w v e = cc
sum-set f (x ∷ ws) zero w v e =
    let same : f x ≡ f w = ap (λ o. elim o [ none ↦ f x | some y ↦ f y ]) e in omega (arith, same)
sum-set f (x ∷ ws) (suc i) w v e = omega (arith, sum-set f ws i w v e)

pub sum-replicate : (f : Worker → ℕ) (n : ℕ) → f idle ≡ 0 → sum f (replicate n idle) ≡ 0
sum-replicate f zero e = refl
sum-replicate f (suc n) e = omega (arith, e, sum-replicate f n e)

pub queued-append : (js ks : List Job) → queued (js ++ ks) ≡ queued js + queued ks
queued-append [] ks = omega arith
queued-append (task_job t ∷ js) ks = queued-append js ks
queued-append (drain_job ∷ js) ks = omega (arith, queued-append js ks)

drains_le_works : (w : Worker) → drains w ≤ works w
drains_le_works idle = omega arith
drains_le_works (at_task t) = omega arith
drains_le_works (in_batch n) = omega arith
drains_le_works batch_over = omega arith
drains_le_works recycling = omega arith
drains_le_works leaving = omega arith
drains_le_works gone = omega arith

pub drains_le : (ws : List Worker) → sum drains ws ≤ sum works ws
drains_le [] = omega arith
drains_le (w ∷ ws) = omega (arith, drains_le_works w, drains_le ws)
