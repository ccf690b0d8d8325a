-- ===== src/Core/TimerService.antt =====
-- lib/Core/src/SNFCore/TimerService.h and TimerService.cpp: the deadlines of the timers of strands. A
-- deadline is a number of clock ticks; strands and timers are numbers. A timer is disarmed before it
-- dies, so the timer of an entry is there when its deadline comes.
pub mod Armed
pub mod Due
pub mod Each
pub mod Found
mod Tests
use simply_node_framework.Prelude.{
  ℕ, Bool, List, [], false, if◌then◌else◌, leb, length, true, ◌==◌, ◌||◌, ◌∷◌,
}

pub record Entry : Type 0 where
  pub deadline : ℕ
  pub strand : ℕ
  pub timer : ℕ
  pub generation : ℕ

-- `m_index` by its keys: the iterator of a key points at the entry of that timer.
pub record Service : Type 0 where
  pub queue : List Entry
  pub index : List ℕ
  pub stopped : Bool

-- `multimap::emplace`: behind the entries with the same deadline.
unfoldable pub emplace : Entry → List Entry → List Entry
emplace e [] = e ∷ []
emplace e (x ∷ xs) =
    let rest = emplace e xs in if leb x.deadline e.deadline then x ∷ rest else e ∷ x ∷ xs

unfoldable pub is_indexed : ℕ → List ℕ → Bool
is_indexed t [] = false
is_indexed t (x ∷ xs) = x == t || is_indexed t xs

unfoldable pub erase_key : ℕ → List ℕ → List ℕ
erase_key t [] = []
erase_key t (x ∷ xs) = let rest = erase_key t xs in if x == t then xs else x ∷ rest

-- `m_queue.erase` of the iterator of a timer.
unfoldable pub erase_entry : ℕ → List Entry → List Entry
erase_entry t [] = []
erase_entry t (x ∷ xs) = let rest = erase_entry t xs in if x.timer == t then xs else x ∷ rest

unfoldable pub cancel : ℕ → Service → Service
unfolding is_indexed erase_key erase_entry
cancel t s =
    if is_indexed t s.index
    then record s { queue = erase_entry t s.queue; index = erase_key t s.index }
    else s

unfoldable pub arm : Entry → Service → Service
unfolding emplace
arm e s = record s { queue = emplace e s.queue; index = e.timer ∷ s.index }

unfoldable pub schedule : Entry → Service → Service
unfolding cancel arm
schedule e s = if s.stopped then s else arm e (cancel e.timer s)

pub stop : Service → Service
stop s = record { queue = []; index = []; stopped = true }

abbrev pub armed_count : Service → ℕ
armed_count s = length s.queue

-- The loop of `run` that takes the due entries out: these, and what is left.
unfoldable pub take_due : ℕ → List Entry → List ℕ → List Entry × List Entry × List ℕ
unfolding erase_key
take_due now [] index = ([], [], index)
take_due now (x ∷ xs) index =
    let (due, queue, index') = take_due now xs (erase_key x.timer index) in
    if leb x.deadline now then (x ∷ due, queue, index') else ([], x ∷ xs, index)

-- A round of `run`: the entries whose timeouts are posted, and the service.
unfoldable pub run_round : ℕ → Service → List Entry × Service
unfolding take_due
run_round now s =
    if s.stopped
    then ([], s)
    else let (due, queue, index) = take_due now s.queue s.index in
      (due, record s { queue = queue; index = index })
