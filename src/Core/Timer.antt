-- ===== src/Core/Timer.antt =====
-- lib/Core/src/SNFCore/Timer.h and Timer.cpp: a timer whose owner is a strand, on the thread of that
-- strand, with the service that keeps its deadline and the timeouts that the service has posted to
-- strands. A slot of `timeout` that calls the timer is a call behind the one that emits. The thread
-- of the service takes out what is due and posts it in one turn. The timer has number 0 in the
-- service; all others have greater ones. The clock counts nanoseconds, and the generations are 64
-- bits wide. The destructor does what `stop` does.
pub mod Punctual
pub mod Operations
pub mod Runs
pub mod Pending
mod Tests
use simply_node_framework.Prelude.{
  Bool, List, Option, [], false, if◌then◌else◌, none, not, some, true, ℕ, ◌%◌, ◌&&◌, ◌*◌, ◌++◌, ◌+◌,
  ◌==◌, ◌^◌, ◌||◌, ◌∷◌, negsuc, pos, ℤ,
}
use simply_node_framework.Core.TimerService.{Entry, Service, cancel, run_round, schedule, stop}

pub record Timer : Type 0 where
  pub interval : ℕ
  pub single_shot : Bool
  pub active : Bool
  pub generation : ℕ
  pub deadline : ℕ

abbrev pub new_timer : Timer
new_timer = record {
  interval = 0;
  single_shot = false;
  active = false;
  generation = 0;
  deadline = 0;
}

-- A `timeout` signal: when it was emitted, and the deadline that was set last.
pub record Timeout : Type 0 where
  pub at : ℕ
  pub due : ℕ

pub record System : Type 0 where
  pub timer : Timer
  pub owner : ℕ
  pub service : Service
  pub posted : List Entry
  pub now : ℕ
  pub timeouts : List Timeout

abbrev pub new_system : ℕ → System
new_system owner = record {
  timer = new_timer;
  owner = owner;
  service = record { queue = []; index = []; stopped = false };
  posted = [];
  now = 0;
  timeouts = [];
}

abbrev pub sanitize_interval : ℤ → ℕ
sanitize_interval (pos n) = n
sanitize_interval (negsuc n) = 0

abbrev pub ticks_of : ℕ → ℕ
ticks_of ms = ms * 1000000

-- `++m_generation`.
pub next_generation : Timer → Timer
next_generation t = record t { generation = (t.generation + 1) % 2 ^ 64 }

pub set_deadline : ℕ → Timer → Timer
unfolding next_generation
set_deadline now t = record (next_generation t) { deadline = now + ticks_of t.interval }

-- `scheduleTimer` of a strand with the deadline and the generation of the timer.
pub schedule_timer : System → System
schedule_timer s = record s {
  service =
      schedule
        (record {
          deadline = s.timer.deadline;
          strand = s.owner;
          timer = 0;
          generation = s.timer.generation;
        })
        s.service;
}

pub start : System → System
unfolding set_deadline schedule_timer
start s =
    schedule_timer (record s { timer = set_deadline s.now (record (s.timer) { active = true }) })

pub start_with : ℤ → System → System
unfolding set_deadline schedule_timer
start_with interval s = schedule_timer (record s {
  timer =
      set_deadline s.now
        (record (s.timer) { interval = sanitize_interval interval; active = true });
})

pub cancel_timer : System → System
cancel_timer s = record s { service = cancel 0 s.service }

pub stop_timer : System → System
unfolding next_generation cancel_timer
stop_timer s =
    cancel_timer (record s { timer = next_generation (record (s.timer) { active = false }) })

pub set_interval : ℤ → System → System
unfolding set_deadline schedule_timer
set_interval interval s =
    let t = record (s.timer) { interval = sanitize_interval interval } in
    if t.active
    then schedule_timer (record s { timer = set_deadline s.now t })
    else record s { timer = t }

pub set_single_shot : Bool → System → System
set_single_shot single_shot s = record s { timer = record (s.timer) { single_shot = single_shot } }

-- `applyMoveTo` with the hooks of the timer.
pub move_to : ℕ → System → System
unfolding schedule_timer cancel_timer
move_to target s =
    if s.owner == target
    then s
    else let moved = record (cancel_timer s) { owner = target } in
      if s.timer.active then schedule_timer moved else moved

abbrev pub emit_timeout : ℕ → System → System
emit_timeout due s = record s { timeouts = record { at = s.now; due = due } ∷ s.timeouts }

-- The rest of `dispatchTimeout` behind its test.
pub fire : System → System
unfolding next_generation set_deadline schedule_timer
fire s =
    if s.timer.single_shot
    then emit_timeout s.timer.deadline
        (record s { timer = next_generation (record (s.timer) { active = false }) })
    else emit_timeout s.timer.deadline
        (schedule_timer (record s { timer = set_deadline s.now s.timer }))

pub dispatch_timeout : ℕ → System → System
unfolding fire
dispatch_timeout generation s =
    if not s.timer.active || not (generation == s.timer.generation) then s else fire s

-- The thread of the service: what is due is posted to the strands.
pub post_due : System → System
post_due s =
    let (due, service) = run_round s.now s.service in
    record s { service = service; posted = s.posted ++ due }

-- The first timeout that is posted to a strand, and the others.
pub take_posted : ℕ → List Entry → Option Entry × List Entry
take_posted strand [] = (none, [])
take_posted strand (e ∷ es) =
    let (found, rest) = take_posted strand es in
    if e.strand == strand then (some e, es) else (found, e ∷ rest)

-- What the posted function does, in its strand: the timer may have moved since.
pub run_found : Option Entry → System → System → System
unfolding dispatch_timeout
run_found none taken s = s
run_found (some e) taken s =
    if not (e.timer == 0 && s.owner == e.strand) then taken else dispatch_timeout e.generation taken

-- A strand runs the first timeout that is posted to it.
pub run_posted : ℕ → System → System
unfolding take_posted run_found
run_posted strand s =
    let (found, rest) = take_posted strand s.posted in
    run_found found (record s { posted = rest }) s

-- What may happen: calls for this timer and for others, the passing of time, and the threads.
pub data Op : Type 0 where
  starting stopping posting stopping_service : Op
  starting_with setting_interval : ℤ → Op
  setting_single_shot : Bool → Op
  moving passing running cancelling_other : ℕ → Op
  scheduling_other : Entry → Op

pub step : Op → System → System
unfolding start start_with stop_timer set_interval set_single_shot move_to post_due run_posted
step starting s = start s
step stopping s = stop_timer s
step posting s = post_due s
step stopping_service s = record s { service = stop s.service }
step (starting_with interval) s = start_with interval s
step (setting_interval interval) s = set_interval interval s
step (setting_single_shot single_shot) s = set_single_shot single_shot s
step (moving target) s = move_to target s
step (passing n) s = record s { now = s.now + n }
step (running strand) s = run_posted strand s
step (cancelling_other n) s = record s { service = cancel (n + 1) s.service }
step (scheduling_other e) s = record s {
  service = schedule (record e { timer = e.timer + 1 }) s.service;
}

pub run : List Op → System → System
unfolding step
run [] s = s
run (op ∷ ops) s = run ops (step op s)
