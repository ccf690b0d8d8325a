-- ===== src/Core/Timer/Pending.antt =====
-- A timer that is active waits for a timeout that is on its way.
use simply_node_framework.Prelude.{
  Bool, List, Option, [], false, none, refl, some, true, ℕ, ◌&&◌, ◌==◌, ◌||◌, ◌∷◌, ◌≡◌, Bool-cases,
  arith, if◌then◌else◌, inl, inr, not, sym, ℤ, ◌∙◌, ◌+◌,
}
use simply_node_framework.Core.TimerService.{Entry, run_round, Service, cancel, schedule}
use simply_node_framework.Core.TimerService.Found.{
  has, has-append, has-run_round, has-schedule, run_round-stopped, schedule-stopped, cancel-stopped,
  has-cancel, stop-stopped,
}
use simply_node_framework.Core.Timer.{
  System, schedule_timer, take_posted, cancel_timer, dispatch_timeout, emit_timeout, fire, move_to,
  next_generation, post_due, run_found, run_posted, sanitize_interval, set_deadline, set_interval,
  Op, cancelling_other, moving, new_system, passing, posting, run, running, scheduling_other,
  set_single_shot, setting_interval, setting_single_shot, start, start_with, starting,
  starting_with, step, stop_timer, stopping, stopping_service,
}

-- An entry whose timeout the timer takes: its own, of its generation, in the strand of its owner.
abbrev pub is_current : System → Entry → Bool
is_current s e = e.timer == 0 && e.generation == s.timer.generation && s.owner == e.strand

abbrev pub IsPending : System → Type 0
IsPending s =
    s.timer.active ≡ true
    → s.service.stopped ≡ false
    → (has (is_current s) s.service.queue || has (is_current s) s.posted) ≡ true

abbrev held : (Entry → Bool) → Option Entry → Bool
held p none = false
held p (some e) = p e

has-take_posted :
    (p : Entry → Bool) (strand : ℕ) (es : List Entry)
    → (held p (take_posted strand es).0 || has p (take_posted strand es).1) ≡ has p es
unfolding take_posted
has-take_posted p strand [] = refl
has-take_posted p strand (x ∷ xs) = elim (Bool-cases (x.strand == strand)) [
  | inl b ↦ rw b refl
  | inr b ↦ rw b (ground (arith, has-take_posted p strand xs))
]

pub schedule_timer-IsPending : (s : System) → IsPending (schedule_timer s)
unfolding schedule_timer
schedule_timer-IsPending s a r =
    let e : Entry = record {
      deadline = s.timer.deadline;
      strand = s.owner;
      timer = 0;
      generation = s.timer.generation;
    } in
    let runs = sym (schedule-stopped e s.service) ∙ r in
    let here : is_current s e ≡ true = ground arith in
    ground (arith, has-schedule (is_current s) e s.service runs, here)

pub either-IsPending :
    (b : Bool) (s u : System)
    → (b ≡ true → IsPending s)
    → (b ≡ false → IsPending u)
    → IsPending (if b then s else u)
either-IsPending true s u h k = h refl
either-IsPending false s u h k = k refl

fire-IsPending : (s : System) → IsPending (fire s)
unfolding fire next_generation
fire-IsPending s =
    let once = record s { timer = next_generation (record (s.timer) { active = false }) } in
    let again = record s { timer = set_deadline s.now s.timer } in
    either-IsPending s.timer.single_shot (emit_timeout s.timer.deadline once)
      (emit_timeout s.timer.deadline (schedule_timer again)) (λ o a. ground (arith, a))
      (λ o. schedule_timer-IsPending again)

-- A stale timeout is not the one that the timer waits for.
dropped-IsPending :
    (s : System) (found : Option Entry) (rest : List Entry)
    → (held (is_current s) found || has (is_current s) rest) ≡ has (is_current s) s.posted
    → IsPending s
    → IsPending (run_found found (record s { posted = rest }) s)
unfolding run_found dispatch_timeout
dropped-IsPending s none rest e h = h
dropped-IsPending s (some x) rest e h =
    let taken = record s { posted = rest } in
    let elsewhere = not (x.timer == 0 && s.owner == x.strand) in
    either-IsPending elsewhere taken (dispatch_timeout x.generation taken)
      (λ o a r. ground (arith, o, e, h a r))
      (λ o.
        either-IsPending (not s.timer.active || not (x.generation == s.timer.generation)) taken
          (fire taken) (λ o' a r. ground (arith, o', a, e, h a r)) (λ o'. fire-IsPending taken))

pub run_posted-IsPending : (strand : ℕ) (s : System) → IsPending s → IsPending (run_posted strand s)
unfolding run_posted
run_posted-IsPending strand s h =
    let (found, rest) = take_posted strand s.posted in
    dropped-IsPending s found rest (has-take_posted (is_current s) strand s.posted) h

pub post_due-IsPending : (s : System) → IsPending s → IsPending (post_due s)
unfolding post_due
post_due-IsPending s h a r =
    let (due, service) = run_round s.now s.service in
    let before = h a (sym (run_round-stopped s.now s.service) ∙ r) in
    ground (
      arith,
      before,
      has-run_round (is_current s) s.now s.service,
      has-append (is_current s) s.posted due,
    )

pub set_interval-IsPending :
    (interval : ℤ) (s : System) → IsPending s → IsPending (set_interval interval s)
unfolding set_interval
set_interval-IsPending interval s h =
    let t = record (s.timer) { interval = sanitize_interval interval } in
    either-IsPending t.active (schedule_timer (record s { timer = set_deadline s.now t }))
      (record s { timer = t })
      (λ a. schedule_timer-IsPending (record s { timer = set_deadline s.now t })) (λ a. h)

pub move_to-IsPending : (target : ℕ) (s : System) → IsPending s → IsPending (move_to target s)
unfolding move_to cancel_timer
move_to-IsPending target s h =
    let moved = record (cancel_timer s) { owner = target } in
    either-IsPending (s.owner == target) s (if s.timer.active then schedule_timer moved else moved)
      (λ o. h)
      (λ o.
        either-IsPending s.timer.active (schedule_timer moved) moved
          (λ a. schedule_timer-IsPending moved) (λ no a. ground (arith, no, a)))

served-IsPending :
    (s : System) (service : Service)
    → service.stopped ≡ s.service.stopped
    → has (is_current s) service.queue ≡ has (is_current s) s.service.queue
    → IsPending s
    → IsPending (record s { service = service })
served-IsPending s service e q h a r = let before = h a (sym e ∙ r) in ground (arith, q, before)

-- Another timer leaves this one's entries alone.
other-is_current : (s : System) (n : ℕ) (x : Entry) → x.timer ≡ n + 1 → is_current s x ≡ false
other-is_current s n x e = ground (arith, e)

scheduling_other-IsPending :
    (s : System) (e : Entry)
    → IsPending s
    → IsPending (record s { service = schedule (record e { timer = e.timer + 1 }) s.service })
scheduling_other-IsPending s e h a r =
    let o : Entry = record e { timer = e.timer + 1 } in
    let runs = sym (schedule-stopped o s.service) ∙ r in
    let kept = has-cancel (is_current s) (e.timer + 1) s.service (other-is_current s e.timer) in
    let before = h a runs in
    ground (arith, before, kept, has-schedule (is_current s) o s.service runs)

step-IsPending : (op : Op) (s : System) → IsPending s → IsPending (step op s)
unfolding step start start_with stop_timer set_single_shot next_generation cancel_timer
step-IsPending starting s h =
    schedule_timer-IsPending
      (record s { timer = set_deadline s.now (record (s.timer) { active = true }) })
step-IsPending (starting_with i) s h = schedule_timer-IsPending (record s {
  timer = set_deadline s.now (record (s.timer) { interval = sanitize_interval i; active = true });
})
step-IsPending stopping s h = λ a. ground (arith, a)
step-IsPending posting s h = post_due-IsPending s h
step-IsPending stopping_service s h = λ a r. ground (arith, r, stop-stopped s.service)
step-IsPending (setting_interval i) s h = set_interval-IsPending i s h
step-IsPending (setting_single_shot one) s h = h
step-IsPending (moving target) s h = move_to-IsPending target s h
step-IsPending (passing n) s h = h
step-IsPending (running strand) s h = run_posted-IsPending strand s h
step-IsPending (cancelling_other n) s h =
    served-IsPending s (cancel (n + 1) s.service) (cancel-stopped (n + 1) s.service)
      (has-cancel (is_current s) (n + 1) s.service (other-is_current s n)) h
step-IsPending (scheduling_other e) s h = scheduling_other-IsPending s e h

run-IsPending_on : (ops : List Op) (s : System) → IsPending s → IsPending (run ops s)
unfolding run
run-IsPending_on [] s h = h
run-IsPending_on (op ∷ ops) s h = run-IsPending_on ops (step op s) (step-IsPending op s h)

-- In any run of a timer from its making on: while the timer is active and its service is not stopped,
-- a timeout of its present generation for the strand of its owner is armed in the service or posted.
pub run-IsPending :
    (owner : ℕ) (ops : List Op)
    → (run ops (new_system owner)).timer.active ≡ true
    → (run ops (new_system owner)).service.stopped ≡ false
    → (let s = run ops (new_system owner) in
        (has (is_current s) s.service.queue || has (is_current s) s.posted) ≡ true)
run-IsPending owner ops active runs =
    run-IsPending_on ops (new_system owner) (λ a. ground (arith, a)) active runs
