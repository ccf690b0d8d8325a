-- ===== src/Core/WorkerSelection/Tests.antt =====
-- WorkerSelectionPolicy.cpp on three workers.
use simply_node_framework.Prelude.{ℕ, [], refl, true, ◌∷◌, ◌≡◌}
use simply_node_framework.Core.WorkerSelection.{
  WorkerLoadSnapshot, scan, score_lt, select_worker_index,
}
use simply_node_framework.Core.WorkerSelection.Least.{select-Least, Least}

abbrev hosting : ℕ → ℕ → WorkerLoadSnapshot
hosting nodes age = record {
  has_pending_work = true;
  pending_delete_count = 0;
  registered_nodes_count = nodes;
  active_timer_count = 0;
  last_iteration_duration_nanoseconds = 0;
  last_activity_age_nanoseconds = age;
}

longest_idle : select_worker_index (hosting 2 9 ∷ hosting 1 5 ∷ hosting 1 7 ∷ hosting 1 7 ∷ []) ≡ 2
unfolding select_worker_index scan score_lt
longest_idle = refl

select-Least_example :
    Least (hosting 2 9 ∷ hosting 1 5 ∷ []) (select_worker_index (hosting 2 9 ∷ hosting 1 5 ∷ []))
    × (select_worker_index [] ≡ 0)
select-Least_example = select-Least (hosting 2 9) (hosting 1 5 ∷ [])
