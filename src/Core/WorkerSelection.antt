-- ===== src/Core/WorkerSelection.antt =====
-- lib/Core/src/SNFCore/WorkerSelectionPolicy.h and WorkerSelectionPolicy.cpp: the worker with the
-- least score. The thread's id takes no part.
pub mod Least
mod Tests
use simply_node_framework.Prelude.{
  ℕ, Bool, List, Option, [], false, if◌then◌else◌, length, ltb, none, some, suc, ◌&&◌, ◌-◌, ◌==◌,
  ◌^◌, ◌||◌, ◌∷◌,
}

pub record WorkerLoadSnapshot : Type 0 where
  pub has_pending_work : Bool
  pub pending_delete_count : ℕ
  pub registered_nodes_count : ℕ
  pub active_timer_count : ℕ
  pub last_iteration_duration_nanoseconds : ℕ
  pub last_activity_age_nanoseconds : ℕ

-- The tuple of five numbers, compared in order.
abbrev pub Score : Type 0
Score = List ℕ

abbrev pub score : WorkerLoadSnapshot → Score
score s =
    s.registered_nodes_count
    ∷ s.pending_delete_count
    ∷ s.active_timer_count
    ∷ s.last_iteration_duration_nanoseconds
    ∷ (2 ^ 64 - 1 - s.last_activity_age_nanoseconds)
    ∷ []

pub score_lt : Score → Score → Bool
score_lt [] ys = false
score_lt (x ∷ xs) [] = false
score_lt (x ∷ xs) (y ∷ ys) = ltb x y || x == y && score_lt xs ys

-- The loop, with the best index so far (none where it is `snapshots.size()`) and its score.
pub scan : ℕ → List WorkerLoadSnapshot → Option (ℕ × Score) → Option (ℕ × Score)
unfolding score_lt
scan index [] best = best
scan index (s ∷ ss) none = scan (suc index) ss (some (index, score s))
scan index (s ∷ ss) (some (i, b)) =
    let kept = scan (suc index) ss (some (i, b)) in
    let replaced = scan (suc index) ss (some (index, score s)) in
    if score_lt (score s) b then replaced else kept

pub select_worker_index : List WorkerLoadSnapshot → ℕ
unfolding scan
select_worker_index snapshots = elim (scan 0 snapshots none) [
  | none ↦ length snapshots
  | some (i, b) ↦ i
]
