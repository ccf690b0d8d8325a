-- ===== src/Core/TaskPool/Serial.antt =====
-- A strand of Strand.cpp runs its tasks one at a time and in order, and is never forgotten.
pub mod Calls
pub mod Threads
pub mod Runs
use mathlib.Core.Path.{subst}
use simply_node_framework.Prelude.{
  ℕ, Bool, List, arith, false, refl, sym, true, ◌++◌, ◌+◌, ◌<◌, ◌≡◌,
}
use simply_node_framework.Core.TaskPool.{System, Pool, is_nil}
use simply_node_framework.Core.TaskPool.Counts.{sum, drains, queued, sum-replicate, works}
use simply_node_framework.Core.TaskPool.Steps.{initial}

abbrev pub flag : Bool → ℕ
flag true = 1
flag false = 0

-- Of what is seen of a system: `carry` are the calls of `schedule` that are under way, `refused` those
-- of them that the pool did not take. One call, job or worker carries the right of a scheduled strand
-- to run, and none that of another.
pub record Serial (queue : List ℕ) (scheduled active retired : Bool) (p : Pool) (carry refused : ℕ)
    (posted ran : List ℕ) : Type 0 where
  pub one : carry + queued p.jobs + sum drains p.workers ≡ flag scheduled
  pub mirrored : active ≡ scheduled
  pub counted : p.active_tasks ≡ sum works p.workers
  pub in_order : retired ≡ false → posted ≡ ran ++ queue
  pub awake : is_nil queue ≡ false → scheduled ≡ false → p.joined ≡ true
  pub refusing : 0 < refused → p.joined ≡ true
  pub staffed : p.thread_count ≡ 0 → p.stopping ≡ true

abbrev pub IsSerial : System → Type 0
IsSerial s =
    Serial s.strand.queue s.strand.scheduled s.strand.active s.strand.retired s.pool
      (s.scheduling + s.refused) s.refused s.posted s.ran

pub initial-IsSerial : (n : ℕ) → 0 < n → IsSerial (initial n)
initial-IsSerial n h = record {
  one = omega (arith, sum-replicate drains n refl);
  mirrored = refl;
  counted = sym (sum-replicate works n refl);
  in_order = λ _. refl;
  awake = λ e. cc e;
  refusing = λ e. absurd (omega arith);
  staffed = λ e. absurd (omega arith);
}
