-- ===== src/Core/IoService/Kept/Thread.antt =====
-- The thread, and a callback that is finished, keep every watch.
use mathlib.Core.Path.{subst}
use simply_node_framework.Prelude.{
  ℕ, Bool, List, [], All-append, Bool-cases, Option, ap, arith, by_option, by_test, false,
  if◌then◌else◌, inl, inr, none, refl, some, sym, true, ◌++◌, ◌<◌, ◌==◌, ◌∙◌, ◌∷◌, ◌≡◌, ◌⊎◌, All,
  All-split, not, ◌+◌, ◌≤◌,
}
use simply_node_framework.Core.IoService.{
  IoService, Ready, Watch, disarm, put_at, take_one, wait, arm, mark_handled, run_round,
  take_events,
}
use simply_node_framework.Core.IoService.Kept.{
  Kept, WatchKept, changed-Kept, count-append, is_reported, put_at_ne, put_at_self, armed_ne,
  armed_self, count, count_other, count_self,
}

disarm_cases :
    (es : List (ℕ × ℕ)) (f : ℕ → Option ℕ) (d : ℕ)
    → (disarm es f d ≡ f d) ⊎ (is_reported d es ≡ true)
unfolding disarm
disarm_cases [] f d = inl refl
disarm_cases ((fd, events) ∷ es) f d = elim (Bool-cases (fd == d)) [
  | inl at ↦ inr (rw at refl)
  | inr away ↦
      let other : (d == fd) ≡ false = ground (arith, away) in
      elim (disarm_cases es f d) [
        | inl kept ↦ inl (put_at_ne fd none (disarm es f) d other ∙ kept)
        | inr waits ↦ inr (rw (away, waits) refl)
      ]
]

pub wait-Kept :
    (closed : ℕ → Bool) (es : List (ℕ × ℕ)) (s : IoService)
    → s.reported ≡ []
    → Kept closed s
    → Kept closed (wait es s)
unfolding wait
wait-Kept closed es s empty h = record {
  watched = λ fd w e.
      let (low, counted, kept) = h.watched fd w e in
      (
        low,
        counted,
        λ c g q. elim (kept c g q) [
          | inl is_armed ↦ elim (disarm_cases es s.armed fd) [
            | inl same ↦ inl (same ∙ is_armed)
            | inr waits ↦ inr waits
          ]
          | inr waits ↦ absurd (ground (arith, waits, empty, ap (is_reported fd) empty))
        ],
      );
  numbered = h.numbered;
}

-- The first of the events that wait is the next one.
next_reported :
    (fd events d : ℕ) (es all : List (ℕ × ℕ))
    → all ≡ (fd, events) ∷ es
    → (d == fd) ≡ false
    → is_reported d all ≡ true
    → is_reported d es ≡ true
next_reported fd events d es all e away waits =
    let other : (fd == d) ≡ false = ground (arith, away) in
    let first : is_reported d ((fd, events) ∷ es) ≡ true = ap (is_reported d) (sym e) ∙ waits in
    ground (arith, other, first)

take_one-Kept :
    (closed : ℕ → Bool) (fd events : ℕ) (es : List (ℕ × ℕ)) (s : IoService)
    → s.reported ≡ (fd, events) ∷ es
    → Kept closed s
    → Kept closed (take_one (fd, events) (record s { reported = es }))
unfolding take_one
take_one-Kept closed fd events es s first h =
    let u : IoService = record s { reported = es } in
    let waits : (d : ℕ)
        → (d == fd) ≡ false
        → is_reported d s.reported ≡ true
        → is_reported d es ≡ true =
      λ d away r. next_reported fd events d es s.reported first away r in
    by_option (Kept closed) (s.watches fd) u
      (λ w.
        let ready : Ready = record {
          strand = w.strand;
          fd = fd;
          events = events;
          registration = w.registration;
          callback = w.callback;
        } in
        if w.queued then u else record u {
          watches = put_at fd (some (record w { queued = true })) s.watches;
          posted = s.posted ++ (ready ∷ []);
        })
      (λ missing.
        changed-Kept closed s u fd (λ d away. refl) (λ d away. refl) (λ d n away. refl) waits refl
          (omega arith) h.numbered (λ x e. absurd (ground (arith, e, missing))) h)
      (λ w found.
        let ready : Ready = record {
          strand = w.strand;
          fd = fd;
          events = events;
          registration = w.registration;
          callback = w.callback;
        } in
        let v : Watch = record w { queued = true } in
        let t : IoService = record u {
          watches = put_at fd (some v) s.watches;
          posted = s.posted ++ (ready ∷ []);
        } in
        let (low, counted, kept) = h.watched fd w found in
        by_test (Kept closed) w.queued u t
          (λ busy.
            changed-Kept closed s u fd (λ d away. refl) (λ d away. refl) (λ d n away. refl) waits
              refl (omega arith) h.numbered
              (λ x e.
                let same : w ≡ x = ground (arith, e, found) in
                subst (WatchKept closed u fd) same
                  (low, counted, λ c g q. absurd (ground (arith, busy, q))))
              h)
          (λ free.
            let free_one : ◌≡◌ {A = ℕ} (if w.queued then 1 else 0) 0 = ground (arith, free) in
            changed-Kept closed s t fd (put_at_ne fd (some v) s.watches) (λ d away. refl)
              (λ d n away.
                let other : (fd == d) ≡ false = ground (arith, away) in
                omega (arith, count-append d n s.posted (ready ∷ []), count_other d n ready other))
              waits refl (omega arith)
              (All-append (λ x. x.registration < s.next_registration) s.posted (ready ∷ [])
                h.numbered (low, tt))
              (λ x e.
                let same : v ≡ x = ground (arith, e, put_at_self fd (some v) s.watches) in
                subst (WatchKept closed t fd) same (
                  low,
                  omega (
                    arith,
                    counted,
                    free_one,
                    count-append fd w.registration s.posted (ready ∷ []),
                    count_self ready,
                  ),
                  λ c g q. absurd (ground (arith, q)),
                ))
              h))

take_one-reported : (e : ℕ × ℕ) (s : IoService) → (take_one e s).reported ≡ s.reported
unfolding take_one
take_one-reported (fd, events) s =
    by_option (λ t. t.reported ≡ s.reported) (s.watches fd) s
      (λ w.
        let ready : Ready = record {
          strand = w.strand;
          fd = fd;
          events = events;
          registration = w.registration;
          callback = w.callback;
        } in
        if w.queued then s else record s {
          watches = put_at fd (some (record w { queued = true })) s.watches;
          posted = s.posted ++ (ready ∷ []);
        })
      (λ missing. refl)
      (λ w found. by_test (λ t. t.reported ≡ s.reported) w.queued s _ (λ busy. refl) (λ free. refl))

take_events-Kept :
    (closed : ℕ → Bool) (es : List (ℕ × ℕ)) (s : IoService)
    → s.reported ≡ es
    → Kept closed s
    → Kept closed (take_events es s)
unfolding take_events
take_events-Kept closed [] s e h = h
take_events-Kept closed ((fd, events) ∷ es) s e h =
    let t : IoService = record s { reported = es } in
    take_events-Kept closed es (take_one (fd, events) t) (take_one-reported (fd, events) t)
      (take_one-Kept closed fd events es s e h)

pub round-Kept : (closed : ℕ → Bool) (s : IoService) → Kept closed s → Kept closed (run_round s)
unfolding run_round
round-Kept closed s h =
    by_test (Kept closed) s.stopped (record s { reported = [] }) (take_events s.reported s)
      (λ over. record {
        watched = λ fd w e.
            let (low, counted, kept) = h.watched fd w e in
            (low, counted, λ c g q. absurd (ground (arith, over, g)));
        numbered = h.numbered;
      })
      (λ going. take_events-Kept closed s.reported s refl h)

-- The watch is not queued any more, and armed again.
handled-Kept :
    (closed : ℕ → Bool) (s : IoService) (left : List Ready) (fd : ℕ) (w : Watch)
    → w.registration < s.next_registration
    → count fd w.registration left ≡ 0
    → ((d n : ℕ) → (d == fd) ≡ false → count d n left ≡ count d n s.posted)
    → All (λ y. y.registration < s.next_registration) left
    → Kept closed s
    → (let t = record s {
      posted = left;
      watches = put_at fd (some (record w { queued = false })) s.watches;
    } in
        Kept closed (if not s.stopped then arm closed fd w.events t else t))
unfolding arm
handled-Kept closed s left fd w low none_left others numbered h =
    let v : Watch = record w { queued = false } in
    let t : IoService = record s { posted = left; watches = put_at fd (some v) s.watches } in
    let a : IoService = record t {
      armed = if closed fd then s.armed else put_at fd (some w.events) s.armed;
    } in
    by_test (Kept closed) (not s.stopped) a t
      (λ going.
        changed-Kept closed s a fd (put_at_ne fd (some v) s.watches)
          (armed_ne (closed fd) fd w.events s.armed) others (λ d away r. r) refl (omega arith)
          numbered
          (λ y f.
            let same : v ≡ y = ground (arith, f, put_at_self fd (some v) s.watches) in
            subst (WatchKept closed a fd) same
              (low, none_left, λ c g q. inl (armed_self (closed fd) fd w.events s.armed c)))
          h)
      (λ over.
        changed-Kept closed s t fd (put_at_ne fd (some v) s.watches) (λ d away. refl) others
          (λ d away r. r) refl (omega arith) numbered
          (λ y f.
            let same : v ≡ y = ground (arith, f, put_at_self fd (some v) s.watches) in
            subst (WatchKept closed t fd) same
              (low, none_left, λ c g q. absurd (ground (arith, over, g))))
          h)

count_stale : (fd n : ℕ) (x : Ready) → not (n == x.registration) ≡ true → count fd n (x ∷ []) ≡ 0
count_stale fd n x h = ground (arith, h)

count_current : (n : ℕ) (x : Ready) → not (n == x.registration) ≡ false → count x.fd n (x ∷ []) ≡ 1
count_current n x h = ground (arith, h)

at_most_one : (b : Bool) → (if b then 1 else 0) ≤ 1
at_most_one true = omega arith
at_most_one false = omega arith

pub finished-Kept :
    (closed : ℕ → Bool) (before after : List Ready) (x : Ready) (s : IoService)
    → s.posted ≡ before ++ (x ∷ after)
    → Kept closed s
    → Kept closed (mark_handled closed x.fd x.registration (record s { posted = before ++ after }))
unfolding mark_handled
finished-Kept closed before after x s e h =
    let left = before ++ after in
    let u : IoService = record s { posted = left } in
    let counts : (d n : ℕ) → count d n s.posted ≡ count d n left + count d n (x ∷ []) = λ d n.
      ap (count d n) e
      ∙ omega (arith, count-append d n before (x ∷ after), count-append d n before after) in
    let others : (d n : ℕ) → (d == x.fd) ≡ false → count d n left ≡ count d n s.posted = λ d n away.
      let other : (x.fd == d) ≡ false = ground (arith, away) in
      omega (arith, counts d n, count_other d n x other) in
    let IsNumbered : Ready → Type 0 = λ y. y.registration < s.next_registration in
    let both = All-split IsNumbered before (x ∷ after) (subst (All IsNumbered) e h.numbered) in
    let numbered = All-append IsNumbered before after both.0 both.1.1 in
    by_option (Kept closed) (s.watches x.fd) u
      (λ w.
        let handled : IoService = record u {
          watches = put_at x.fd (some (record w { queued = false })) s.watches;
        } in
        if not (w.registration == x.registration)
        then u
        else if not s.stopped
        then arm closed x.fd w.events handled
        else handled)
      (λ missing.
        changed-Kept closed s u x.fd (λ d away. refl) (λ d away. refl) others (λ d away r. r) refl
          (omega arith) numbered (λ y f. absurd (ground (arith, f, missing))) h)
      (λ w found.
        let handled : IoService = record u {
          watches = put_at x.fd (some (record w { queued = false })) s.watches;
        } in
        let (low, counted, kept) = h.watched x.fd w found in
        by_test (Kept closed) (not (w.registration == x.registration)) u
          (if not s.stopped then arm closed x.fd w.events handled else handled)
          (λ stale.
            changed-Kept closed s u x.fd (λ d away. refl) (λ d away. refl) others (λ d away r. r)
              refl (omega arith) numbered
              (λ y f.
                let same : w ≡ y = ground (arith, f, found) in
                subst (WatchKept closed u x.fd) same (
                  low,
                  omega (
                    arith,
                    counts x.fd w.registration,
                    counted,
                    count_stale x.fd w.registration x stale,
                  ),
                  kept,
                ))
              h)
          (λ current.
            handled-Kept closed s left x.fd w low
              (omega (
                arith,
                counts x.fd w.registration,
                counted,
                count_current w.registration x current,
                at_most_one w.queued,
              ))
              others numbered h))
