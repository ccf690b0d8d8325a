-- ===== src/Core/Timer/Punctual.antt =====
-- No timeout comes early.
use simply_node_framework.Prelude.{
  All, Bool-cases, List, [], inl, inr, some, true, ℕ, ◌==◌, ◌∷◌, ◌≡◌, ◌≤◌, Option, arith, none, ◌+◌,
  ◌<◌, ◌^◌, ap, false, refl, ◌%◌, ◌∙◌,
}
use simply_node_framework.Core.TimerService.{Entry}
use simply_node_framework.Core.Timer.{
  Timer, System, next_generation, take_posted, cancel_timer, emit_timeout, schedule_timer,
  set_deadline,
}
use simply_node_framework.Core.TimerService.Each.{All-cancel, All-imply, All-schedule}

-- An entry of the timer is not newer than it, and one of its generation is for its deadline.
abbrev pub Fits : Timer → Entry → Type 0
Fits t e =
    e.timer ≡ 0
    → (e.generation ≤ t.generation)
      × (e.generation ≡ t.generation → t.active ≡ true → e.deadline ≡ t.deadline)

-- What holds behind no more than `calls` calls.
pub record IsPunctual (calls : ℕ) (s : System) : Type 0 where
  pub counted : s.timer.generation ≤ calls
  pub queued : All (Fits s.timer) s.service.queue
  pub came : All (λ e. (e.deadline ≤ s.now) × Fits s.timer e) s.posted
  pub timed : All (λ x. x.due ≤ x.at) s.timeouts

abbrev pub HoldsOf : (Entry → Type 0) → Option Entry → Type 0
HoldsOf P none = Unit
HoldsOf P (some e) = P e

pub All-take_posted :
    (P : Entry → Type 0) (strand : ℕ) (es : List Entry)
    → All P es
    → HoldsOf P (take_posted strand es).0 × All P (take_posted strand es).1
unfolding take_posted
All-take_posted P strand [] h = (tt, tt)
All-take_posted P strand (x ∷ xs) (h, hs) = elim (Bool-cases (x.strand == strand)) [
  | inl b ↦ rw b (h, hs)
  | inr b ↦ let (found, left) = All-take_posted P strand xs hs in rw b (found, (h, left))
]

-- A new generation, with whatever is set beside it.
newer-Fits : (t u : Timer) (e : Entry) → u.generation ≡ t.generation + 1 → Fits t e → Fits u e
newer-Fits t u e h f own =
    let (older, same) = f own in (omega arith, λ g. omega (arith, older, h, g))

-- The generation does not wrap.
pub next_lem : (g n : ℕ) → g ≤ n → n + 1 < 2 ^ 64 → (g + 1) % 2 ^ 64 ≡ g + 1
next_lem g n h b = omega (arith, h, b)

pub later-IsPunctual : (calls : ℕ) (s : System) → IsPunctual calls s → IsPunctual (calls + 1) s
later-IsPunctual calls s h = record {
  counted = omega (arith, h.counted);
  queued = h.queued;
  came = h.came;
  timed = h.timed;
}

pub renewed-IsPunctual :
    (calls : ℕ) (s : System) (t : Timer)
    → t.generation ≡ s.timer.generation + 1
    → IsPunctual calls s
    → IsPunctual (calls + 1) (record s { timer = t })
renewed-IsPunctual calls s t e h = record {
  counted = omega (arith, e, h.counted);
  queued =
      All-imply (Fits s.timer) (Fits t) s.service.queue (λ x. newer-Fits s.timer t x e) h.queued;
  came =
      All-imply (λ x. (x.deadline ≤ s.now) × Fits s.timer x) (λ x. (x.deadline ≤ s.now) × Fits t x)
        s.posted (λ x f. (f.0, newer-Fits s.timer t x e f.1)) h.came;
  timed = h.timed;
}

pub schedule_timer-IsPunctual :
    (calls : ℕ) (s : System) → IsPunctual calls s → IsPunctual calls (schedule_timer s)
unfolding schedule_timer
schedule_timer-IsPunctual calls s h = record {
  counted = h.counted;
  queued =
      All-schedule (Fits s.timer)
        (record {
          deadline = s.timer.deadline;
          strand = s.owner;
          timer = 0;
          generation = s.timer.generation;
        })
        s.service (λ own. (omega arith, λ g a. refl)) h.queued;
  came = h.came;
  timed = h.timed;
}

pub cancel_timer-IsPunctual :
    (calls : ℕ) (s : System) → IsPunctual calls s → IsPunctual calls (cancel_timer s)
unfolding cancel_timer
cancel_timer-IsPunctual calls s h = record {
  counted = h.counted;
  queued = All-cancel (Fits s.timer) 0 s.service h.queued;
  came = h.came;
  timed = h.timed;
}

-- The timer is given a new deadline, whatever else is set.
pub rearmed-IsPunctual :
    (calls : ℕ) (s : System) (t : Timer)
    → t.generation ≡ s.timer.generation
    → calls + 1 < 2 ^ 64
    → IsPunctual calls s
    → IsPunctual (calls + 1) (schedule_timer (record s { timer = set_deadline s.now t }))
unfolding set_deadline next_generation
rearmed-IsPunctual calls s t e b h =
    schedule_timer-IsPunctual (calls + 1) (record s { timer = set_deadline s.now t })
      (renewed-IsPunctual calls s (set_deadline s.now t)
        (ap (λ g. (g + 1) % 2 ^ 64) e ∙ next_lem s.timer.generation calls h.counted b) h)

pub stopped-IsPunctual :
    (calls : ℕ) (s : System)
    → calls + 1 < 2 ^ 64
    → IsPunctual calls s
    → IsPunctual
        (calls + 1)
        (record s { timer = next_generation (record (s.timer) { active = false }) })
unfolding next_generation
stopped-IsPunctual calls s b h =
    renewed-IsPunctual calls s (next_generation (record (s.timer) { active = false }))
      (next_lem s.timer.generation calls h.counted b) h

pub emit_timeout-IsPunctual :
    (calls due : ℕ) (s : System)
    → due ≤ s.now
    → IsPunctual calls s
    → IsPunctual calls (emit_timeout due s)
emit_timeout-IsPunctual calls due s d h = record {
  counted = h.counted;
  queued = h.queued;
  came = h.came;
  timed = (d, h.timed);
}
