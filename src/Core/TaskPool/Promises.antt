-- ===== src/Core/TaskPool/Promises.antt =====
-- What Strand.cpp and TaskPool.cpp promise of a strand, however the threads take turns.
use simply_node_framework.Prelude.{
  ℕ, Bool-cases, [], ap, arith, false, inl, inr, true, ◌++◌, ◌+◌, ◌<◌, ◌∙◌, ◌≡◌, List, append-nil,
  refl, ◌∷◌, ◌≤◌,
}
use simply_node_framework.Core.TaskPool.{System, is_nil}
use simply_node_framework.Core.TaskPool.Counts.{sum, drains, drains_le, queued}
use simply_node_framework.Core.TaskPool.Steps.{Steps, done, initial, then_one}
use simply_node_framework.Core.TaskPool.Serial.{IsSerial, flag, initial-IsSerial}
use simply_node_framework.Core.TaskPool.Serial.Runs.{step-IsSerial}

Steps-IsSerial : {s u : System} → Steps s u → IsSerial s → IsSerial u
Steps-IsSerial done h = h
Steps-IsSerial (then_one p q) h = step-IsSerial q (Steps-IsSerial p h)

-- However the threads of a pool with workers take turns, at most one worker is in the drain of the
-- strand: the strand's tasks never run at the same time.
pub one_at_a_time :
    (n : ℕ) (s : System) → 0 < n → Steps (initial n) s → sum drains s.pool.workers ≤ 1
one_at_a_time n s k p = let h = Steps-IsSerial p (initial-IsSerial n k) in ground (arith, h.one)

-- However they take turns, the tasks that the strand has run, and behind them those in its queue, are
-- the tasks posted to it, in their order, each once, until the strand is retired.
pub in_posted_order :
    (n : ℕ) (s : System)
    → 0 < n
    → Steps (initial n) s
    → s.strand.retired ≡ false
    → s.posted ≡ s.ran ++ s.strand.queue
in_posted_order n s k p r = (Steps-IsSerial p (initial-IsSerial n k)).in_order r

-- However they take turns, a strand with tasks in its queue is not forgotten before the workers are
-- joined: a call of `schedule` is under way for it, or the pool has a job for it, or a worker is
-- draining it; and there is one of these only.
pub not_forgotten :
    (n : ℕ) (s : System)
    → 0 < n
    → Steps (initial n) s
    → is_nil s.strand.queue ≡ false
    → s.pool.joined ≡ false
    → s.scheduling + queued s.pool.jobs + sum drains s.pool.workers ≡ 1
not_forgotten n s k p q j =
    let h = Steps-IsSerial p (initial-IsSerial n k) in
    let on : s.strand.scheduled ≡ true = elim (Bool-cases s.strand.scheduled) [
      | inl on ↦ on
      | inr off ↦ cc (h.awake q off, j)
    ] in
    let none_refused : s.refused ≡ 0 = ground (arith, h.refusing, j) in
    omega (arith, h.one, ap flag on, none_refused)

no_tasks : (xs : List ℕ) → is_nil xs ≡ true → xs ≡ []
no_tasks [] e = refl
no_tasks (x ∷ xs) e = cc e

-- Where `waitForDone` returns, with no job queued and no task active, while no call of `schedule` is
-- under way, and the workers are not joined and the strand is not retired, the strand has run all the
-- tasks that were posted to it.
pub wait_for_done_lem :
    (n : ℕ) (s : System)
    → 0 < n
    → Steps (initial n) s
    → s.pool.jobs ≡ []
    → s.pool.active_tasks ≡ 0
    → s.scheduling ≡ 0
    → s.pool.joined ≡ false
    → s.strand.retired ≡ false
    → s.posted ≡ s.ran
wait_for_done_lem n s k p js a c j r = elim (Bool-cases (is_nil s.strand.queue)) [
  | inr full ↦
      let h = Steps-IsSerial p (initial-IsSerial n k) in
      absurd (
        omega (
          arith,
          not_forgotten n s k p full j,
          ap queued js,
          a,
          c,
          h.counted,
          drains_le s.pool.workers,
        ))
  | inl empty ↦
      in_posted_order n s k p r
      ∙ ap (λ x. s.ran ++ x) (no_tasks s.strand.queue empty)
      ∙ append-nil s.ran
]
