-- ===== src/Core/TimerService/Due.antt =====
-- Which timeouts TimerService.cpp posts.
use simply_node_framework.Prelude.{
  ℕ, All, Bool-cases, List, [], arith, inl, inr, leb, refl, ◌++◌, ◌<◌, ◌∷◌, ◌≡◌, ◌≤◌, ap, false,
  leb→le,
}
use simply_node_framework.Core.TimerService.{Entry, take_due, Service, erase_key, run_round}
use simply_node_framework.Core.TimerService.Armed.{IsOrdered, IsArmed}

later-All :
    (now from : ℕ) (q : List Entry) → now < from → IsOrdered from q → All (λ e. now < e.deadline) q
later-All now from [] h o = tt
later-All now from (x ∷ xs) h (o, os) = (omega arith, later-All now x.deadline xs (omega arith) os)

pub record Splits (now : ℕ) (queue due left : List Entry) : Type 0 where
  pub whole : due ++ left ≡ queue
  pub past : All (λ e. e.deadline ≤ now) due
  pub future : All (λ e. now < e.deadline) left

take_due-Splits :
    (now from : ℕ) (q : List Entry) (index : List ℕ)
    → IsOrdered from q
    → Splits now q (take_due now q index).0 (take_due now q index).1
unfolding take_due
take_due-Splits now from [] index o = record { whole = refl; past = tt; future = tt }
take_due-Splits now from (x ∷ xs) index (o, os) = elim (Bool-cases (leb x.deadline now)) [
  | inl due ↦
      let l = take_due-Splits now x.deadline xs (erase_key x.timer index) os in
      rw due (record {
        whole = ap (λ t. x ∷ t) l.whole;
        past = (leb→le x.deadline now due, l.past);
        future = l.future;
      })
  | inr later ↦ rw later (record {
    whole = refl;
    past = tt;
    future = (ground (arith, later), later-All now x.deadline xs (ground (arith, later)) os);
  })
]

-- When the thread of a running service wakes up, it takes out exactly the entries whose deadline has
-- come, in their order, and leaves the others as they were.
pub run_round-Splits :
    (now : ℕ) (s : Service)
    → s.stopped ≡ false
    → IsArmed s.queue s.index
    → Splits now s.queue (run_round now s).0 (run_round now s).1.queue
unfolding run_round
run_round-Splits now s runs h =
    rw (runs, run_round) (take_due-Splits now 0 s.queue s.index h.ordered)
