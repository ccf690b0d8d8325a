-- ===== src/Core/TimerService/Found.antt =====
-- Which entries there are, in each operation of TimerService.cpp.
use simply_node_framework.Prelude.{
  ==_iff, Bool, Bool-cases, List, [], ap, arith, false, inl, inr, refl, true, ℕ, ◌++◌, ◌==◌, ◌||◌,
  ◌∙◌, ◌∷◌, ◌≡◌,
}
use simply_node_framework.Core.TimerService.{
  Entry, Service, arm, cancel, emplace, erase_entry, erase_key, is_indexed, run_round, schedule,
  stop, take_due,
}

abbrev pub has : (Entry → Bool) → List Entry → Bool
has p [] = false
has p (x ∷ xs) = p x || has p xs

pub has-append : (p : Entry → Bool) (xs ys : List Entry) → has p (xs ++ ys) ≡ (has p xs || has p ys)
has-append p [] ys = refl
has-append p (x ∷ xs) ys = ground (arith, has-append p xs ys)

pub has-emplace :
    (p : Entry → Bool) (e : Entry) (q : List Entry) → has p (emplace e q) ≡ (p e || has p q)
unfolding emplace
has-emplace p e [] = refl
has-emplace p e (x ∷ xs) = ground (arith, has-emplace p e xs)

pub has-erase_entry :
    (p : Entry → Bool) (t : ℕ) (q : List Entry)
    → ((x : Entry) → x.timer ≡ t → p x ≡ false)
    → has p (erase_entry t q) ≡ has p q
unfolding erase_entry
has-erase_entry p t [] h = refl
has-erase_entry p t (x ∷ xs) h = elim (Bool-cases (x.timer == t)) [
  | inl b ↦ let no = h x ((==_iff x.timer t).0 b) in ground (arith, b, no)
  | inr b ↦ ground (arith, b, has-erase_entry p t xs h)
]

pub has-take_due :
    (p : Entry → Bool) (now : ℕ) (q : List Entry) (index : List ℕ)
    → (has p (take_due now q index).1 || has p (take_due now q index).0) ≡ has p q
unfolding take_due
has-take_due p now [] index = refl
has-take_due p now (x ∷ xs) index = ground (arith, has-take_due p now xs (erase_key x.timer index))

pub has-run_round :
    (p : Entry → Bool) (now : ℕ) (s : Service)
    → (has p (run_round now s).1.queue || has p (run_round now s).0) ≡ has p s.queue
unfolding run_round
has-run_round p now s = elim (Bool-cases s.stopped) [
  | inl b ↦ rw b (ground arith)
  | inr b ↦ rw b (has-take_due p now s.queue s.index)
]

pub has-cancel :
    (p : Entry → Bool) (t : ℕ) (s : Service)
    → ((x : Entry) → x.timer ≡ t → p x ≡ false)
    → has p (cancel t s).queue ≡ has p s.queue
unfolding cancel
has-cancel p t s h = elim (Bool-cases (is_indexed t s.index)) [
  | inl b ↦ rw b (has-erase_entry p t s.queue h)
  | inr b ↦ rw b refl
]

pub schedule-stopped : (e : Entry) (s : Service) → (schedule e s).stopped ≡ s.stopped
unfolding schedule arm cancel
schedule-stopped e s = ground arith

pub schedule-queue :
    (e : Entry) (s : Service)
    → s.stopped ≡ false
    → (schedule e s).queue ≡ emplace e (cancel e.timer s).queue
unfolding schedule arm
schedule-queue e s h = ground (arith, h)

pub has-schedule :
    (p : Entry → Bool) (e : Entry) (s : Service)
    → s.stopped ≡ false
    → has p (schedule e s).queue ≡ (p e || has p (cancel e.timer s).queue)
has-schedule p e s h = ap (has p) (schedule-queue e s h) ∙ has-emplace p e (cancel e.timer s).queue

pub stop-stopped : (s : Service) → (stop s).stopped ≡ true
unfolding stop
stop-stopped s = refl

pub cancel-stopped : (t : ℕ) (s : Service) → (cancel t s).stopped ≡ s.stopped
unfolding cancel
cancel-stopped t s = ground arith

pub run_round-stopped : (now : ℕ) (s : Service) → (run_round now s).1.stopped ≡ s.stopped
unfolding run_round
run_round-stopped now s = ground arith
