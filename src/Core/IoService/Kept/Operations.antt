-- ===== src/Core/IoService/Kept/Operations.antt =====
-- The operations that any thread calls keep every watch.
use mathlib.Core.Path.{subst}
use simply_node_framework.Prelude.{
  ℕ, Bool, arith, by_option, by_test, false, if◌then◌else◌, inl, none, not, refl, some, ◌&&◌, ◌+◌,
  ◌≡◌, negsuc, pos, ℤ,
}
use simply_node_framework.Core.IoService.{
  IoService, Watch, arm, modify_io, put_at, register_io, stop, unregister_io,
}
use simply_node_framework.Core.IoService.Kept.{
  Kept, WatchKept, armed_ne, armed_self, changed-Kept, count-fresh, later_numbered, put_at_ne,
  put_at_self,
}

pub register-Kept :
    (closed : ℕ → Bool) (strand : ℕ) (fd : ℤ) (events callback : ℕ) (s : IoService)
    → Kept closed s
    → Kept closed (register_io closed strand fd events callback s)
unfolding register_io arm
register-Kept closed strand (negsuc n) events callback s h = h
register-Kept closed strand (pos fd) events callback s h =
    let watch : Watch = record {
      strand = strand;
      events = events;
      callback = callback;
      queued = false;
      registration = s.next_registration;
    } in
    let t : IoService = record s {
      watches = put_at fd (some watch) s.watches;
      next_registration = s.next_registration + 1;
      armed = if closed fd then s.armed else put_at fd (some events) s.armed;
    } in
    by_test (Kept closed) s.stopped s t (λ e. h)
      (λ going.
        changed-Kept closed s t fd (put_at_ne fd (some watch) s.watches)
          (armed_ne (closed fd) fd events s.armed) (λ d n away. refl) (λ d away r. r) refl
          (omega arith)
          (later_numbered s.next_registration (s.next_registration + 1) s.posted (omega arith)
            h.numbered)
          (λ w e.
            let same : watch ≡ w = ground (arith, e, put_at_self fd (some watch) s.watches) in
            subst (WatchKept closed t fd) same (
              omega arith,
              count-fresh fd s.next_registration s.posted h.numbered,
              λ c g q. inl (armed_self (closed fd) fd events s.armed c),
            ))
          h)

pub modify-Kept :
    (closed : ℕ → Bool) (fd events : ℕ) (s : IoService)
    → Kept closed s
    → Kept closed (modify_io closed fd events s)
unfolding modify_io arm
modify-Kept closed fd events s h =
    by_option (Kept closed) (s.watches fd) s
      (λ w.
        let changed : IoService = record s {
          watches = put_at fd (some (record w { events = events })) s.watches;
        } in
        if not w.queued && not s.stopped then arm closed fd events changed else changed)
      (λ missing. h)
      (λ w found.
        let v : Watch = record w { events = events } in
        let t : IoService = record s { watches = put_at fd (some v) s.watches } in
        let u : IoService = record t {
          armed = if closed fd then s.armed else put_at fd (some events) s.armed;
        } in
        let (low, counted, kept) = h.watched fd w found in
        by_test (Kept closed) (not w.queued && not s.stopped) u t
          (λ free.
            changed-Kept closed s u fd (put_at_ne fd (some v) s.watches)
              (armed_ne (closed fd) fd events s.armed) (λ d n away. refl) (λ d away r. r) refl
              (omega arith) h.numbered
              (λ x e.
                let same : v ≡ x = ground (arith, e, put_at_self fd (some v) s.watches) in
                subst (WatchKept closed u fd) same
                  (low, counted, λ c g q. inl (armed_self (closed fd) fd events s.armed c)))
              h)
          (λ busy.
            changed-Kept closed s t fd (put_at_ne fd (some v) s.watches) (λ d away. refl)
              (λ d n away. refl) (λ d away r. r) refl (omega arith) h.numbered
              (λ x e.
                let same : v ≡ x = ground (arith, e, put_at_self fd (some v) s.watches) in
                subst (WatchKept closed t fd) same
                  (low, counted, λ c g q. absurd (ground (arith, busy, g, q))))
              h))

pub unregister-Kept :
    (closed : ℕ → Bool) (fd : ℕ) (s : IoService) → Kept closed s → Kept closed (unregister_io fd s)
unfolding unregister_io
unregister-Kept closed fd s h =
    let t : IoService = record s {
      watches = put_at fd none s.watches;
      armed = put_at fd none s.armed;
    } in
    by_option (Kept closed) (s.watches fd) s (λ w. t) (λ missing. h)
      (λ w found.
        changed-Kept closed s t fd (put_at_ne fd none s.watches) (put_at_ne fd none s.armed)
          (λ d n away. refl) (λ d away r. r) refl (omega arith) h.numbered
          (λ x e. absurd (ground (arith, e, put_at_self fd none s.watches))) h)

pub stop-Kept : (closed : ℕ → Bool) (s : IoService) → Kept closed s → Kept closed (stop s)
unfolding stop
stop-Kept closed s h = record {
  watched = λ fd w e.
      let (low, counted, kept) = h.watched fd w e in
      (low, counted, λ c g q. absurd (ground (arith, g)));
  numbered = h.numbered;
}
