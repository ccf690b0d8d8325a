-- ===== src/Core/TimerService/Each.antt =====
-- What holds of every entry, in each operation of TimerService.cpp.
use simply_node_framework.Prelude.{
  All, Bool-cases, List, [], inl, inr, leb, leb→le, ℕ, ◌==◌, ◌∷◌, ◌≤◌, Bool, false, if◌then◌else◌,
  true,
}
use simply_node_framework.Core.TimerService.{
  Entry, Service, arm, cancel, emplace, erase_entry, erase_key, is_indexed, run_round, schedule,
  take_due, stop,
}

module _ (P : Entry → Type 0) where
  pub All-emplace : (e : Entry) (q : List Entry) → P e → All P q → All P (emplace e q)
  unfolding emplace
  All-emplace e [] p h = (p, tt)
  All-emplace e (x ∷ xs) p (h, hs) = elim (Bool-cases (leb x.deadline e.deadline)) [
    | inl b ↦ rw b (h, All-emplace e xs p hs)
    | inr b ↦ rw b (p, (h, hs))
  ]

  pub All-erase_entry : (t : ℕ) (q : List Entry) → All P q → All P (erase_entry t q)
  unfolding erase_entry
  All-erase_entry t [] h = tt
  All-erase_entry t (x ∷ xs) (h, hs) = elim (Bool-cases (x.timer == t)) [
    | inl b ↦ rw b hs
    | inr b ↦ rw b (h, All-erase_entry t xs hs)
  ]

  pub All-cancel : (t : ℕ) (s : Service) → All P s.queue → All P (cancel t s).queue
  unfolding cancel
  All-cancel t s h = elim (Bool-cases (is_indexed t s.index)) [
    | inl b ↦ rw b (All-erase_entry t s.queue h)
    | inr b ↦ rw b h
  ]

  All-either :
      (b : Bool) (s u : Service) → All P s.queue → All P u.queue → All P (if b then s else u).queue
  All-either true s u h k = h
  All-either false s u h k = k

  pub All-schedule : (e : Entry) (s : Service) → P e → All P s.queue → All P (schedule e s).queue
  unfolding schedule arm
  All-schedule e s p h =
      let armed = All-emplace e (cancel e.timer s).queue p (All-cancel e.timer s h) in
      All-either s.stopped s (arm e (cancel e.timer s)) h armed

  pub All-stop : (s : Service) → All P (stop s).queue
  unfolding stop
  All-stop s = tt

  pub All-take_due :
      (now : ℕ) (q : List Entry) (index : List ℕ)
      → All P q
      → All (λ e. (e.deadline ≤ now) × P e) (take_due now q index).0
        × All P (take_due now q index).1
  unfolding take_due
  All-take_due now [] index h = (tt, tt)
  All-take_due now (x ∷ xs) index (h, hs) = elim (Bool-cases (leb x.deadline now)) [
    | inl b ↦
        let (past, left) = All-take_due now xs (erase_key x.timer index) hs in
        rw b (((leb→le x.deadline now b, h), past), left)
    | inr b ↦ rw b (tt, (h, hs))
  ]

  pub All-run_round :
      (now : ℕ) (s : Service)
      → All P s.queue
      → All (λ e. (e.deadline ≤ now) × P e) (run_round now s).0 × All P (run_round now s).1.queue
  unfolding run_round
  All-run_round now s h = elim (Bool-cases s.stopped) [
    | inl b ↦ rw b (tt, h)
    | inr b ↦ rw b (All-take_due now s.queue s.index h)
  ]

  pub All-imply :
      (Q : Entry → Type 0) (xs : List Entry) → ((e : Entry) → P e → Q e) → All P xs → All Q xs
  All-imply Q [] f h = tt
  All-imply Q (x ∷ xs) f (h, hs) = (f x h, All-imply Q xs f hs)
