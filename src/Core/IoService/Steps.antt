-- ===== src/Core/IoService/Steps.antt =====
-- The runs of an `IoService`: its operations, called from any thread in any order, the poller, the
-- thread, and the callbacks that a strand has run.
use simply_node_framework.Prelude.{ℕ, Bool, List, [], ◌++◌, ◌∷◌, ◌≡◌, ℤ}
use simply_node_framework.Core.IoService.{
  IoService, Ready, mark_handled, modify_io, register_io, run_round, stop, unregister_io, wait,
}

module _ (closed : ℕ → Bool) where
  -- A callback that is finished, wherever it stands, is handled.
  pub data Step : IoService → IoService → Type 0 where
    register :
        (strand : ℕ) (fd : ℤ) (events callback : ℕ) (s : IoService)
        → Step s (register_io closed strand fd events callback s)
    modify : (fd events : ℕ) (s : IoService) → Step s (modify_io closed fd events s)
    unregister : (fd : ℕ) (s : IoService) → Step s (unregister_io fd s)
    stopping : (s : IoService) → Step s (stop s)
    waited : (es : List (ℕ × ℕ)) (s : IoService) → s.reported ≡ [] → Step s (wait es s)
    round : (s : IoService) → Step s (run_round s)
    finished :
        (before after : List Ready) (x : Ready) (s : IoService)
        → s.posted ≡ before ++ (x ∷ after)
        → Step s (mark_handled closed x.fd x.registration (record s { posted = before ++ after }))

  pub data Steps : IoService → IoService → Type 0 where
    here : (s : IoService) → Steps s s
    then_step : (s t u : IoService) → Steps s t → Step t u → Steps s u
