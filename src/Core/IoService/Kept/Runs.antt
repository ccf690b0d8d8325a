-- ===== src/Core/IoService/Kept/Runs.antt =====
-- Every run keeps every watch.
use simply_node_framework.Prelude.{ℕ, Bool}
use simply_node_framework.Core.IoService.{IoService, new_io}
use simply_node_framework.Core.IoService.Steps.{
  Step, Steps, finished, here, modify, register, round, stopping, then_step, unregister, waited,
}
use simply_node_framework.Core.IoService.Kept.{Kept, new-Kept}
use simply_node_framework.Core.IoService.Kept.Operations.{
  register-Kept, modify-Kept, stop-Kept, unregister-Kept,
}
use simply_node_framework.Core.IoService.Kept.Thread.{round-Kept, finished-Kept, wait-Kept}

step-Kept : (closed : ℕ → Bool) (s t : IoService) → Step closed s t → Kept closed s → Kept closed t
step-Kept closed _ _ (register strand fd events callback s) h =
    register-Kept closed strand fd events callback s h
step-Kept closed _ _ (modify fd events s) h = modify-Kept closed fd events s h
step-Kept closed _ _ (unregister fd s) h = unregister-Kept closed fd s h
step-Kept closed _ _ (stopping s) h = stop-Kept closed s h
step-Kept closed _ _ (waited es s e) h = wait-Kept closed es s e h
step-Kept closed _ _ (round s) h = round-Kept closed s h
step-Kept closed _ _ (finished before after x s e) h = finished-Kept closed before after x s e h

-- After any run from a new service, in which the operations, the thread and the callbacks take their
-- turns in any order: a watch that is queued has exactly one callback of its registration on its way,
-- and one that is not queued has none. Unless the service is stopped or the descriptor is closed, a
-- watch that is not queued is armed for its events, or its descriptor is among the events that the
-- thread is about to look at.
pub Steps-Kept : (closed : ℕ → Bool) (t : IoService) → Steps closed new_io t → Kept closed t
Steps-Kept closed t (here _) = new-Kept closed
Steps-Kept closed t (then_step _ m _ before step) =
    step-Kept closed m t step (Steps-Kept closed m before)
