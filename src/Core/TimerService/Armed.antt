-- ===== src/Core/TimerService/Armed.antt =====
-- What TimerService.cpp keeps: its deadlines in order, and one for each timer that is armed.
use mathlib.Core.Path.{subst}
use simply_node_framework.Prelude.{
  ℕ, Bool-cases, List, [], arith, if◌then◌else◌, inl, inr, leb, ltb, refl, ◌+◌, ◌-◌, ◌==◌, ◌∷◌, ◌≡◌,
  ◌≤◌, ap, false, ℕ_discrete, Bool, sym,
}
use simply_node_framework.Core.TimerService.{
  Entry, emplace, erase_entry, erase_key, is_indexed, Service, cancel, schedule, arm, run_round,
  stop, take_due,
}

abbrev pub entries_of : ℕ → List Entry → ℕ
entries_of t [] = 0
entries_of t (x ∷ xs) = (if x.timer == t then 1 else 0) + entries_of t xs

abbrev pub keys_of : ℕ → List ℕ → ℕ
keys_of t [] = 0
keys_of t (x ∷ xs) = (if x == t then 1 else 0) + keys_of t xs

-- No entry before `from`, and each at or behind the one before it.
abbrev pub IsOrdered : ℕ → List Entry → Type 0
IsOrdered from [] = Unit
IsOrdered from (x ∷ xs) = (from ≤ x.deadline) × IsOrdered x.deadline xs

pub record IsArmed (queue : List Entry) (index : List ℕ) : Type 0 where
  pub ordered : IsOrdered 0 queue
  pub matched : (t : ℕ) → entries_of t queue ≡ keys_of t index
  pub once : (t : ℕ) → keys_of t index ≤ 1

entries_of-emplace :
    (t : ℕ) (e : Entry) (q : List Entry)
    → entries_of t (emplace e q) ≡ (if e.timer == t then 1 else 0) + entries_of t q
unfolding emplace
entries_of-emplace t e [] = refl
entries_of-emplace t e (x ∷ xs) = ground (arith, entries_of-emplace t e xs)

IsOrdered-emplace :
    (from : ℕ) (e : Entry) (q : List Entry)
    → from ≤ e.deadline
    → IsOrdered from q
    → IsOrdered from (emplace e q)
unfolding emplace
IsOrdered-emplace from e [] h o = (h, tt)
IsOrdered-emplace from e (x ∷ xs) h (o, os) = elim (Bool-cases (leb x.deadline e.deadline)) [
  | inl before ↦ rw before (o, IsOrdered-emplace x.deadline e xs (ground (arith, before)) os)
  | inr behind ↦ rw behind (h, (ground (arith, behind), os))
]

is_indexed-keys_of : (t : ℕ) (index : List ℕ) → is_indexed t index ≡ ltb 0 (keys_of t index)
unfolding is_indexed
is_indexed-keys_of t [] = refl
is_indexed-keys_of t (x ∷ xs) = ground (arith, is_indexed-keys_of t xs)

pub keys_of-erase_key :
    (t u : ℕ) (index : List ℕ)
    → keys_of u (erase_key t index) ≡ keys_of u index - (if t == u then 1 else 0)
unfolding erase_key
keys_of-erase_key t u [] = ground arith
keys_of-erase_key t u (x ∷ xs) = ground (arith, keys_of-erase_key t u xs)

entries_of-erase_entry :
    (t u : ℕ) (q : List Entry)
    → entries_of u (erase_entry t q) ≡ entries_of u q - (if t == u then 1 else 0)
unfolding erase_entry
entries_of-erase_entry t u [] = ground arith
entries_of-erase_entry t u (x ∷ xs) = ground (arith, entries_of-erase_entry t u xs)

pub IsOrdered-lower : (a b : ℕ) (q : List Entry) → a ≤ b → IsOrdered b q → IsOrdered a q
IsOrdered-lower a b [] h o = tt
IsOrdered-lower a b (x ∷ xs) h (o, os) = (omega arith, os)

IsOrdered-erase_entry :
    (from t : ℕ) (q : List Entry) → IsOrdered from q → IsOrdered from (erase_entry t q)
unfolding erase_entry
IsOrdered-erase_entry from t [] o = tt
IsOrdered-erase_entry from t (x ∷ xs) (o, os) = elim (Bool-cases (x.timer == t)) [
  | inl hit ↦ rw hit (IsOrdered-lower from x.deadline xs o os)
  | inr miss ↦ rw miss (o, IsOrdered-erase_entry x.deadline t xs os)
]

cancel-IsArmed :
    (t : ℕ) (s : Service) → IsArmed s.queue s.index → IsArmed (cancel t s).queue (cancel t s).index
unfolding cancel
cancel-IsArmed t s h = elim (Bool-cases (is_indexed t s.index)) [
  | inr absent ↦ rw (absent, cancel) h
  | inl there ↦
      rw (there, cancel)
        (record {
          ordered = IsOrdered-erase_entry 0 t s.queue h.ordered;
          matched = λ u. ground (
            arith,
            h.matched u,
            entries_of-erase_entry t u s.queue,
            keys_of-erase_key t u s.index,
          );
          once = λ u. ground (arith, h.once u, keys_of-erase_key t u s.index);
        })
]

cancel_gone : (t : ℕ) (s : Service) → IsArmed s.queue s.index → keys_of t (cancel t s).index ≡ 0
unfolding cancel
cancel_gone t s h =
    ground (arith, is_indexed-keys_of t s.index, h.once t, keys_of-erase_key t t s.index)

arm-IsArmed :
    (e : Entry) (s : Service)
    → keys_of e.timer s.index ≡ 0
    → IsArmed s.queue s.index
    → IsArmed (arm e s).queue (arm e s).index
unfolding arm
arm-IsArmed e s new h = record {
  ordered = IsOrdered-emplace 0 e s.queue (omega arith) h.ordered;
  matched = λ u. ground (arith, h.matched u, entries_of-emplace u e s.queue);
  once = λ u. elim (ℕ_discrete e.timer u) [
    | yes same ↦ ground (arith, new, ap (λ v. keys_of v s.index) same)
    | no other ↦ ground (arith, h.once u)
  ];
}

schedule-IsArmed :
    (e : Entry) (s : Service)
    → IsArmed s.queue s.index
    → IsArmed (schedule e s).queue (schedule e s).index
unfolding schedule
schedule-IsArmed e s h =
    let after : Bool → Service = λ b. if b then s else arm e (cancel e.timer s) in
    elim (Bool-cases s.stopped) [
      | inl over ↦ subst (λ (u : Service). IsArmed u.queue u.index) (sym (ap after over)) h
      | inr runs ↦
          subst (λ (u : Service). IsArmed u.queue u.index) (sym (ap after runs))
            (arm-IsArmed e (cancel e.timer s) (cancel_gone e.timer s h)
              (cancel-IsArmed e.timer s h))
    ]

-- The index without the timers of the entries that were taken out.
take_due-IsArmed :
    (now from : ℕ) (q : List Entry) (index : List ℕ)
    → IsOrdered from q
    → ((t : ℕ) → entries_of t q ≡ keys_of t index)
    → ((t : ℕ) → keys_of t index ≤ 1)
    → IsArmed (take_due now q index).1 (take_due now q index).2
unfolding take_due
take_due-IsArmed now from [] index o m u = record { ordered = tt; matched = m; once = u }
take_due-IsArmed now from (x ∷ xs) index (o, os) m u = elim (Bool-cases (leb x.deadline now)) [
  | inl due ↦ rw due (
      take_due-IsArmed now x.deadline xs (erase_key x.timer index) os
        (λ t. ground (arith, m t, keys_of-erase_key x.timer t index))
        (λ t. ground (arith, u t, keys_of-erase_key x.timer t index)))
  | inr later ↦ rw later (record { ordered = (omega arith, os); matched = m; once = u })
]

run_round-IsArmed :
    (now : ℕ) (s : Service)
    → IsArmed s.queue s.index
    → IsArmed (run_round now s).1.queue (run_round now s).1.index
unfolding run_round
run_round-IsArmed now s h = elim (Bool-cases s.stopped) [
  | inl over ↦ rw (over, run_round) h
  | inr runs ↦
      rw (runs, run_round) (take_due-IsArmed now 0 s.queue s.index h.ordered h.matched h.once)
]

pub data Call : Type 0 where
  schedules : Entry → Call
  cancels : ℕ → Call
  stops : Call
  wakes : ℕ → Call

abbrev pub call : Call → Service → Service
call (schedules e) s = schedule e s
call (cancels t) s = cancel t s
call stops s = stop s
call (wakes now) s = (run_round now s).1

abbrev pub run : List Call → Service → Service
run [] s = s
run (c ∷ cs) s = run cs (call c s)

abbrev pub idle_service : Service
idle_service = record { queue = []; index = []; stopped = false }

call-IsArmed :
    (c : Call) (s : Service) → IsArmed s.queue s.index → IsArmed (call c s).queue (call c s).index
unfolding stop
call-IsArmed (schedules e) s h = schedule-IsArmed e s h
call-IsArmed (cancels t) s h = cancel-IsArmed t s h
call-IsArmed stops s h = record { ordered = tt; matched = λ t. refl; once = λ t. omega arith }
call-IsArmed (wakes now) s h = run_round-IsArmed now s h

-- Whatever calls a service has had and however often its thread has woken up, its deadlines are in
-- order, and each timer has one deadline where it is in the index and else none, so at most one; if
-- that was so before, as it is of a new service.
pub run-IsArmed :
    (cs : List Call) (s : Service)
    → IsArmed s.queue s.index
    → IsArmed (run cs s).queue (run cs s).index
run-IsArmed [] s h = h
run-IsArmed (c ∷ cs) s h = run-IsArmed cs (call c s) (call-IsArmed c s h)
