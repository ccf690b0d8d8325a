-- ===== src/Core/Timer/Operations.antt =====
-- No timeout comes early, operation by operation.
use simply_node_framework.Prelude.{
  All, All-append, Bool, List, Option, arith, false, if◌then◌else◌, none, not, refl, some, true, ℕ,
  ℤ, ◌&&◌, ◌+◌, ◌<◌, ◌==◌, ◌^◌, ◌||◌, ◌≡◌, ◌≤◌,
}
use simply_node_framework.Core.TimerService.{Entry, run_round}
use simply_node_framework.Core.TimerService.Each.{All-imply, All-run_round}
use simply_node_framework.Core.Timer.{
  System, cancel_timer, dispatch_timeout, emit_timeout, fire, move_to, next_generation, post_due,
  run_found, run_posted, sanitize_interval, schedule_timer, set_deadline, set_interval, take_posted,
}
use simply_node_framework.Core.Timer.Punctual.{
  IsPunctual, All-take_posted, Fits, HoldsOf, cancel_timer-IsPunctual, emit_timeout-IsPunctual,
  later-IsPunctual, rearmed-IsPunctual, schedule_timer-IsPunctual, stopped-IsPunctual,
}

either-IsPunctual :
    (b : Bool) (calls : ℕ) (s u : System)
    → IsPunctual calls s
    → (b ≡ false → IsPunctual calls u)
    → IsPunctual calls (if b then s else u)
either-IsPunctual true calls s u h k = h
either-IsPunctual false calls s u h k = k refl

pub set_interval-IsPunctual :
    (calls : ℕ) (interval : ℤ) (s : System)
    → calls + 1 < 2 ^ 64
    → IsPunctual calls s
    → IsPunctual (calls + 1) (set_interval interval s)
unfolding set_interval
set_interval-IsPunctual calls interval s b h =
    let t = record (s.timer) { interval = sanitize_interval interval } in
    let same : IsPunctual calls (record s { timer = t }) = record {
      counted = h.counted;
      queued = h.queued;
      came = h.came;
      timed = h.timed;
    } in
    either-IsPunctual t.active (calls + 1)
      (schedule_timer (record s { timer = set_deadline s.now t })) (record s { timer = t })
      (rearmed-IsPunctual calls s t refl b h)
      (λ a. later-IsPunctual calls (record s { timer = t }) same)

pub move_to-IsPunctual :
    (calls target : ℕ) (s : System) → IsPunctual calls s → IsPunctual calls (move_to target s)
unfolding move_to
move_to-IsPunctual calls target s h =
    let c = cancel_timer-IsPunctual calls s h in
    let moved = record (cancel_timer s) { owner = target } in
    let kept : IsPunctual calls moved = record {
      counted = c.counted;
      queued = c.queued;
      came = c.came;
      timed = c.timed;
    } in
    either-IsPunctual (s.owner == target) calls s
      (if s.timer.active then schedule_timer moved else moved) h
      (λ o.
        either-IsPunctual s.timer.active calls (schedule_timer moved) moved
          (schedule_timer-IsPunctual calls moved kept) (λ a. kept))

fire-IsPunctual :
    (calls : ℕ) (s : System)
    → calls + 1 < 2 ^ 64
    → s.timer.deadline ≤ s.now
    → IsPunctual calls s
    → IsPunctual (calls + 1) (fire s)
unfolding fire
fire-IsPunctual calls s b due h =
    let once = record s { timer = next_generation (record (s.timer) { active = false }) } in
    let again = schedule_timer (record s { timer = set_deadline s.now s.timer }) in
    either-IsPunctual s.timer.single_shot (calls + 1) (emit_timeout s.timer.deadline once)
      (emit_timeout s.timer.deadline again)
      (emit_timeout-IsPunctual (calls + 1) s.timer.deadline once due
        (stopped-IsPunctual calls s b h))
      (λ o.
        emit_timeout-IsPunctual (calls + 1) s.timer.deadline again due
          (rearmed-IsPunctual calls s s.timer refl b h))

dispatch_timeout-IsPunctual :
    (calls generation : ℕ) (s : System)
    → calls + 1 < 2 ^ 64
    → (generation ≡ s.timer.generation → s.timer.active ≡ true → s.timer.deadline ≤ s.now)
    → IsPunctual calls s
    → IsPunctual (calls + 1) (dispatch_timeout generation s)
unfolding dispatch_timeout
dispatch_timeout-IsPunctual calls generation s b due h =
    let stale = not s.timer.active || not (generation == s.timer.generation) in
    either-IsPunctual stale (calls + 1) s (fire s) (later-IsPunctual calls s h)
      (λ fresh. fire-IsPunctual calls s b (due (ground (arith, fresh)) (ground (arith, fresh))) h)

pub post_due-IsPunctual :
    (calls : ℕ) (s : System) → IsPunctual calls s → IsPunctual calls (post_due s)
unfolding post_due
post_due-IsPunctual calls s h =
    let (due, left) = All-run_round (Fits s.timer) s.now s.service h.queued in
    record {
      counted = h.counted;
      queued = left;
      came =
          All-append (λ x. (x.deadline ≤ s.now) × Fits s.timer x) s.posted
            (run_round s.now s.service).0 h.came due;
      timed = h.timed;
    }

ran-IsPunctual :
    (calls : ℕ) (s : System) (found : Option Entry) (rest : List Entry)
    → calls + 1 < 2 ^ 64
    → IsPunctual calls s
    → HoldsOf (λ x. (x.deadline ≤ s.now) × Fits s.timer x) found
    → All (λ x. (x.deadline ≤ s.now) × Fits s.timer x) rest
    → IsPunctual (calls + 1) (run_found found (record s { posted = rest }) s)
unfolding run_found
ran-IsPunctual calls s none rest b h f came = later-IsPunctual calls s h
ran-IsPunctual calls s (some e) rest b h (past, fits) came =
    let taken = record s { posted = rest } in
    let kept : IsPunctual calls taken = record {
      counted = h.counted;
      queued = h.queued;
      came = came;
      timed = h.timed;
    } in
    let elsewhere = not (e.timer == 0 && s.owner == e.strand) in
    either-IsPunctual elsewhere (calls + 1) taken (dispatch_timeout e.generation taken)
      (later-IsPunctual calls taken kept)
      (λ here.
        dispatch_timeout-IsPunctual calls e.generation taken b
          (λ g a. let due = (fits (ground (arith, here))).1 g a in omega (arith, due, past)) kept)

pub run_posted-IsPunctual :
    (calls strand : ℕ) (s : System)
    → calls + 1 < 2 ^ 64
    → IsPunctual calls s
    → IsPunctual (calls + 1) (run_posted strand s)
unfolding run_posted
run_posted-IsPunctual calls strand s b h =
    let (found, rest) =
      All-take_posted (λ x. (x.deadline ≤ s.now) × Fits s.timer x) strand s.posted h.came in
    ran-IsPunctual calls s (take_posted strand s.posted).0 (take_posted strand s.posted).1 b h found
      rest

pub pass-IsPunctual :
    (calls n : ℕ) (s : System)
    → IsPunctual calls s
    → IsPunctual calls (record s { now = s.now + n })
pass-IsPunctual calls n s h = record {
  counted = h.counted;
  queued = h.queued;
  came =
      All-imply (λ x. (x.deadline ≤ s.now) × Fits s.timer x)
        (λ x. (x.deadline ≤ s.now + n) × Fits s.timer x) s.posted (λ x f. (omega (arith, f.0), f.1))
        h.came;
  timed = h.timed;
}
