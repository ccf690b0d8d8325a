-- ===== src/Core/WorkerSelection/Least.antt =====
-- The worker that WorkerSelectionPolicy.cpp selects.
use mathlib.Core.Path.{subst}
use simply_node_framework.Prelude.{
  ℕ, All, List, [], arith, false, length, true, ◌++◌, ◌∷◌, ◌≡◌, All-append, Bool-cases, Option, ap,
  append-nil, append_assoc, inl, inr, length-append, none, refl, some, suc, sym, ◌∙◌,
}
use simply_node_framework.Core.WorkerSelection.{
  score, Score, WorkerLoadSnapshot, score_lt, scan, select_worker_index,
}

score_lt_asym : (a b : Score) → score_lt a b ≡ true → score_lt b a ≡ false
unfolding score_lt
score_lt_asym [] b h = cc
score_lt_asym (x ∷ a) [] h = cc
score_lt_asym (x ∷ a) (y ∷ b) h = ground (arith, score_lt_asym a b)

score_lt_trans :
    (a b c : Score)
    → length b ≡ length c
    → score_lt a b ≡ true
    → score_lt c b ≡ false
    → score_lt a c ≡ true
unfolding score_lt
score_lt_trans [] b c n h g = cc
score_lt_trans (x ∷ a) [] c n h g = cc
score_lt_trans (x ∷ a) (y ∷ b) [] n h g = cc
score_lt_trans (x ∷ a) (y ∷ b) (z ∷ c) n h g = ground (arith, score_lt_trans a b c)

-- The first of the workers with the least score stands at `index`.
pub record Least (snapshots : List WorkerLoadSnapshot) (index : ℕ) : Type 0 where
  pub before : List WorkerLoadSnapshot
  pub best : WorkerLoadSnapshot
  pub after : List WorkerLoadSnapshot
  pub splits : snapshots ≡ before ++ (best ∷ after)
  pub here : index ≡ length before
  pub above : All (λ s. score_lt (score best) (score s) ≡ true) before
  pub beside : All (λ s. score_lt (score s) (score best) ≡ false) after

All-map {ℓ κ} :
    {A : Type ℓ} {P Q : A → Type κ} (f : (a : A) → P a → Q a) (xs : List A) → All P xs → All Q xs
All-map f [] h = tt
All-map f (x ∷ xs) h = (f x h.0, All-map f xs h.1)

-- One such worker, with its score.
abbrev LeastOf : List WorkerLoadSnapshot → ℕ → Score → Type 0
LeastOf snapshots index b = (l : Least snapshots index) × (score l.best ≡ b)

module _ (done : List WorkerLoadSnapshot) (s : WorkerLoadSnapshot) (i : ℕ) (l : Least done i) where
  Least-replace :
      score_lt (score s) (score l.best) ≡ true → LeastOf (done ++ (s ∷ [])) (length done) (score s)
  Least-replace h = (
    record {
      before = done;
      best = s;
      after = [];
      splits = refl;
      here = refl;
      above = subst (All (λ t. score_lt (score s) (score t) ≡ true)) (sym l.splits) (
          All-append (λ t. score_lt (score s) (score t) ≡ true) l.before (l.best ∷ l.after)
            (All-map
              (λ t g.
                score_lt_trans (score s) (score l.best) (score t) refl h
                  (score_lt_asym (score l.best) (score t) g))
              l.before l.above)
            (
              h,
              All-map (λ t g. score_lt_trans (score s) (score l.best) (score t) refl h g) l.after
                  l.beside,
            ));
      beside = tt;
    },
    refl,
  )

  Least-keep :
      score_lt (score s) (score l.best) ≡ false → LeastOf (done ++ (s ∷ [])) i (score l.best)
  Least-keep h = (
    record {
      before = l.before;
      best = l.best;
      after = l.after ++ (s ∷ []);
      splits = ap (λ t. t ++ (s ∷ [])) l.splits ∙ append_assoc l.before (l.best ∷ l.after) (s ∷ []);
      here = l.here;
      above = l.above;
      beside =
          All-append (λ t. score_lt (score t) (score l.best) ≡ false) l.after (s ∷ []) l.beside
            (h, tt);
    },
    refl,
  )

-- What the loop ends in.
abbrev Found : List WorkerLoadSnapshot → Option (ℕ × Score) → Type 0
Found snapshots none = ⊥
Found snapshots (some (i, b)) = LeastOf snapshots i b

-- The same loop, with one more worker behind it.
Found-shift :
    (done rest : List WorkerLoadSnapshot) (s : WorkerLoadSnapshot) (o : Option (ℕ × Score))
    → Found ((done ++ (s ∷ [])) ++ rest) (scan (length (done ++ (s ∷ []))) rest o)
    → Found (done ++ (s ∷ rest)) (scan (suc (length done)) rest o)
Found-shift done rest s o f =
    let next : length (done ++ (s ∷ [])) ≡ suc (length done) =
      omega (arith, length-append done (s ∷ [])) in
    subst (λ n. Found (done ++ (s ∷ rest)) (scan n rest o)) next
      (subst (λ t. Found t (scan (length (done ++ (s ∷ []))) rest o))
        (append_assoc done (s ∷ []) rest) f)

scan-Found :
    (done rest : List WorkerLoadSnapshot) (i : ℕ) (b : Score)
    → LeastOf done i b
    → Found (done ++ rest) (scan (length done) rest (some (i, b)))
unfolding scan
scan-Found done [] i b l = subst (λ t. LeastOf t i b) (sym (append-nil done)) l
scan-Found done (s ∷ rest) i b (l, e) = elim (Bool-cases (score_lt (score s) b)) [
  | inl less ↦
      rw (less, scan)
        (Found-shift done rest s (some (length done, score s)) (
          scan-Found (done ++ (s ∷ [])) rest (length done) (score s)
            (Least-replace done s i l (ap (score_lt (score s)) e ∙ less))))
  | inr more ↦
      rw (more, scan)
        (Found-shift done rest s (some (i, b)) (
          scan-Found (done ++ (s ∷ [])) rest i b (
            subst (LeastOf (done ++ (s ∷ [])) i) e
              (Least-keep done s i l (ap (score_lt (score s)) e ∙ more)))))
]

-- Of one worker or more, the first of those with the least score is selected; of none, none.
pub select-Least :
    (s : WorkerLoadSnapshot) (ss : List WorkerLoadSnapshot)
    → Least (s ∷ ss) (select_worker_index (s ∷ ss)) × (select_worker_index [] ≡ 0)
unfolding select_worker_index scan
select-Least s ss =
    (go (scan 1 ss (some (0, score s))) (scan-Found (s ∷ []) ss 0 (score s) (first s, refl)), refl)
  where
    first : (t : WorkerLoadSnapshot) → Least (t ∷ []) 0
    first t = record {
      before = [];
      best = t;
      after = [];
      splits = refl;
      here = refl;
      above = tt;
      beside = tt;
    }

    go :
        (o : Option (ℕ × Score))
        → Found (s ∷ ss) o
        → Least (s ∷ ss) (elim o [ none ↦ length (s ∷ ss) | some (i, b) ↦ i ])
    go none l = elim l [ ]
    go (some (i, b)) l = l.0
