-- ===== src/Core/IoService/Stopped.antt =====
-- Nothing is posted behind `stop`.
use simply_node_framework.Prelude.{
  ℕ, Bool, [], ap, arith, by_option, by_test, false, if◌then◌else◌, not, refl, some, true, ◌&&◌,
  ◌++◌, ◌==◌, ◌∙◌, ◌∷◌, ◌≡◌, ◌≤◌, negsuc, pos,
}
use simply_node_framework.Core.IoService.{
  IoService, arm, mark_handled, modify_io, put_at, register_io, run_round, stop, take_events,
  unregister_io, wait,
}
use simply_node_framework.Core.IoService.Steps.{
  Step, Steps, finished, here, modify, register, round, stopping, then_step, unregister, waited,
}
use simply_node_framework.Core.IoService.Kept.{count, count-append}

-- The service is stopped, and no callback is on its way that was not there before.
abbrev pub Quiet : IoService → IoService → Type 0
Quiet s t = (t.stopped ≡ true) × ((fd n : ℕ) → count fd n t.posted ≤ count fd n s.posted)

module _ (closed : ℕ → Bool) where
  same_posted :
      (s t u : IoService) → Quiet s t → u.stopped ≡ t.stopped → u.posted ≡ t.posted → Quiet s u
  same_posted s t u (over, fewer) so sp =
      (so ∙ over, λ fd n. omega (arith, ap (count fd n) sp, fewer fd n))

  modify-Quiet :
      (s t : IoService) (fd events : ℕ) → Quiet s t → Quiet s (modify_io closed fd events t)
  unfolding modify_io arm
  modify-Quiet s t fd events h =
      by_option (Quiet s) (t.watches fd) t
        (λ w.
          let changed : IoService = record t {
            watches = put_at fd (some (record w { events = events })) t.watches;
          } in
          if not w.queued && not t.stopped then arm closed fd events changed else changed)
        (λ missing. h)
        (λ w found. by_test (Quiet s) (not w.queued && not t.stopped) _ _ (λ e. h) (λ e. h))

  mark_handled-Quiet :
      (s t : IoService) (fd registration : ℕ)
      → Quiet s t
      → Quiet s (mark_handled closed fd registration t)
  unfolding mark_handled arm
  mark_handled-Quiet s t fd registration h =
      by_option (Quiet s) (t.watches fd) t
        (λ w.
          let handled : IoService = record t {
            watches = put_at fd (some (record w { queued = false })) t.watches;
          } in
          if not (w.registration == registration)
          then t
          else if not t.stopped
          then arm closed fd w.events handled
          else handled)
        (λ missing. h)
        (λ w found.
          let handled : IoService = record t {
            watches = put_at fd (some (record w { queued = false })) t.watches;
          } in
          by_test (Quiet s) (not (w.registration == registration)) t
            (if not t.stopped then arm closed fd w.events handled else handled) (λ e. h)
            (λ e.
              by_test (Quiet s) (not t.stopped) (arm closed fd w.events handled) handled (λ g. h)
                (λ g. h)))

  step-Quiet : (s t u : IoService) → Step closed t u → Quiet s t → Quiet s u
  unfolding register_io unregister_io stop wait run_round arm
  step-Quiet s _ _ (register strand (negsuc n) events callback t) h = h
  step-Quiet s _ _ (register strand (pos fd) events callback t) h =
      by_test (Quiet s) t.stopped t _ (λ e. h) (λ e. absurd (ground (arith, e, h.0)))
  step-Quiet s _ _ (modify fd events t) h = modify-Quiet s t fd events h
  step-Quiet s _ _ (unregister fd t) h = by_option (Quiet s) (t.watches fd) t _ (λ e. h) (λ w e. h)
  step-Quiet s _ _ (stopping t) h = (refl, h.1)
  step-Quiet s _ _ (waited es t e) h = h
  step-Quiet s _ _ (round t) h =
      by_test (Quiet s) t.stopped (record t { reported = [] }) (take_events t.reported t) (λ e. h)
        (λ e. absurd (ground (arith, e, h.0)))
  step-Quiet s _ _ (finished before after x t e) h =
      mark_handled-Quiet s (record t { posted = before ++ after }) x.fd x.registration
        (
          h.0,
          λ fd n. omega (
            arith,
            h.1 fd n,
            ap (count fd n) e,
            count-append fd n before (x ∷ after),
            count-append fd n before after,
          ),
        )

  -- From a stopped service on, whatever is called and runs, the service stays stopped, and of no
  -- registration of a descriptor there are more callbacks on their way than there were.
  pub stopped-Quiet : (s t : IoService) → s.stopped ≡ true → Steps closed s t → Quiet s t
  stopped-Quiet s _ over (here _) = (over, λ fd n. omega arith)
  stopped-Quiet s _ over (then_step _ m u before step) =
      step-Quiet s m u step (stopped-Quiet s m over before)
