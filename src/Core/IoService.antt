-- ===== src/Core/IoService.antt =====
-- lib/Core/src/SNFCore/IoService.h and IoService.cpp: the descriptors that strands wait on. A map is
-- a function; a strand, a callback and a set of events are numbers. The kernel's side of the poller is
-- the events that each descriptor is armed for, once; `epoll_ctl` fails for the descriptors that are
-- closed, which is an argument. The thread's `toPost` and the strands' queues are one list, `posted`:
-- the callbacks that are on their way and not finished.
pub mod Steps
pub mod Kept
pub mod Stopped
mod Tests
use simply_node_framework.Prelude.{
  ℕ, Bool, List, Option, [], none, false, if◌then◌else◌, not, some, true, ◌&&◌, ◌++◌, ◌+◌, ◌==◌,
  ◌∷◌, negsuc, pos, ℤ,
}

pub record Watch : Type 0 where
  pub strand : ℕ
  pub events : ℕ
  pub callback : ℕ
  pub queued : Bool
  pub registration : ℕ

pub record Ready : Type 0 where
  pub strand : ℕ
  pub fd : ℕ
  pub events : ℕ
  pub registration : ℕ
  pub callback : ℕ

-- `reported` is what `wait` has returned and the thread has not looked at yet.
pub record IoService : Type 0 where
  pub watches : ℕ → Option Watch
  pub armed : ℕ → Option ℕ
  pub reported : List (ℕ × ℕ)
  pub posted : List Ready
  pub next_registration : ℕ
  pub stopped : Bool

pub new_io : IoService
new_io = record {
  watches = λ fd. none;
  armed = λ fd. none;
  reported = [];
  posted = [];
  next_registration = 1;
  stopped = false;
}

-- A map, changed at one key.
abbrev pub put_at {ℓ} : {A : Type ℓ} → ℕ → A → (ℕ → A) → ℕ → A
put_at fd a f x = if x == fd then a else f x

-- `m_poller->addOrUpdate`, whose exception is dropped.
pub arm : (ℕ → Bool) → ℕ → ℕ → IoService → IoService
arm closed fd events s = record s {
  armed = if closed fd then s.armed else put_at fd (some events) s.armed;
}

pub register_io : (ℕ → Bool) → ℕ → ℤ → ℕ → ℕ → IoService → IoService
unfolding arm
register_io closed strand (negsuc n) events callback s = s
register_io closed strand (pos fd) events callback s =
    let watch : Watch = record {
      strand = strand;
      events = events;
      callback = callback;
      queued = false;
      registration = s.next_registration;
    } in
    if s.stopped
    then s
    else arm closed fd events (record s {
      watches = put_at fd (some watch) s.watches;
      next_registration = s.next_registration + 1;
    })

pub modify_io : (ℕ → Bool) → ℕ → ℕ → IoService → IoService
unfolding arm
modify_io closed fd events s = elim (s.watches fd) [
  | none ↦ s
  | some w ↦
      let changed = record s {
        watches = put_at fd (some (record w { events = events })) s.watches;
      } in
      if not w.queued && not s.stopped then arm closed fd events changed else changed
]

pub unregister_io : ℕ → IoService → IoService
unregister_io fd s = elim (s.watches fd) [
  | none ↦ s
  | some w ↦ record s { watches = put_at fd none s.watches; armed = put_at fd none s.armed }
]

pub has_io_watch : ℕ → IoService → Bool
has_io_watch fd s = elim (s.watches fd) [ none ↦ false | some w ↦ true ]

pub stop : IoService → IoService
stop s = record s { stopped = true }

pub mark_handled : (ℕ → Bool) → ℕ → ℕ → IoService → IoService
unfolding arm
mark_handled closed fd registration s = elim (s.watches fd) [
  | none ↦ s
  | some w ↦
      let handled = record s {
        watches = put_at fd (some (record w { queued = false })) s.watches;
      } in
      if not (w.registration == registration)
      then s
      else if not s.stopped
      then arm closed fd w.events handled
      else handled
]

-- `EPOLLONESHOT`: a descriptor that is reported is armed no more.
pub disarm : List (ℕ × ℕ) → (ℕ → Option ℕ) → ℕ → Option ℕ
disarm [] armed = armed
disarm ((fd, events) ∷ es) armed = put_at fd none (disarm es armed)

-- `m_poller->wait` returns.
pub wait : List (ℕ × ℕ) → IoService → IoService
unfolding disarm
wait es s = record s { armed = disarm es s.armed; reported = es }

-- One round of the loop over the events, under the lock.
pub take_one : ℕ × ℕ → IoService → IoService
take_one (fd, events) s = elim (s.watches fd) [
  | none ↦ s
  | some w ↦
      let ready : Ready = record {
        strand = w.strand;
        fd = fd;
        events = events;
        registration = w.registration;
        callback = w.callback;
      } in
      if w.queued then s else record s {
        watches = put_at fd (some (record w { queued = true })) s.watches;
        posted = s.posted ++ (ready ∷ []);
      }
]

pub take_events : List (ℕ × ℕ) → IoService → IoService
unfolding take_one
take_events [] s = s
take_events (e ∷ es) s = take_events es (take_one e (record s { reported = es }))

-- A round of `run` behind `wait`. Where the service is stopped the thread ends.
pub run_round : IoService → IoService
unfolding take_events
run_round s = if s.stopped then record s { reported = [] } else take_events s.reported s
