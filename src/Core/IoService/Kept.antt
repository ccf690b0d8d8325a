-- ===== src/Core/IoService/Kept.antt =====
-- No watch is posted twice, and none is forgotten.
pub mod Operations
pub mod Thread
pub mod Runs
use mathlib.Core.Bool.{◌||◌}
use mathlib.Core.Path.{subst}
use simply_node_framework.Prelude.{
  ℕ, Bool, List, [], All, arith, false, if◌then◌else◌, refl, some, true, ◌&&◌, ◌++◌, ◌+◌, ◌<◌, ◌==◌,
  ◌||◌, ◌∷◌, ◌≡◌, ◌⊎◌, ==_iff, Bool-cases, Option, ap, inl, inr, sym, ◌∙◌, ◌≤◌,
}
use simply_node_framework.Core.IoService.{IoService, Ready, Watch, new_io, put_at}

abbrev pub is_for : ℕ → ℕ → Ready → Bool
is_for fd registration x = x.fd == fd && x.registration == registration

-- How many callbacks of one registration are on their way.
abbrev pub count : ℕ → ℕ → List Ready → ℕ
count fd registration [] = 0
count fd registration (x ∷ xs) =
    (if is_for fd registration x then 1 else 0) + count fd registration xs

abbrev pub is_reported : ℕ → List (ℕ × ℕ) → Bool
is_reported fd [] = false
is_reported fd ((d, events) ∷ es) = d == fd || is_reported fd es

-- What holds of a descriptor whose watch is given.
abbrev pub WatchKept : (ℕ → Bool) → IoService → ℕ → Watch → Type 0
WatchKept closed s fd w =
    (w.registration < s.next_registration)
    × (count fd w.registration s.posted ≡ (if w.queued then 1 else 0))
    × (closed fd ≡ false
        → s.stopped ≡ false
        → w.queued ≡ false
        → (s.armed fd ≡ some w.events) ⊎ (is_reported fd s.reported ≡ true))

pub record Kept (closed : ℕ → Bool) (s : IoService) : Type 0 where
  pub watched : (fd : ℕ) (w : Watch) → s.watches fd ≡ some w → WatchKept closed s fd w
  pub numbered : All (λ x. x.registration < s.next_registration) s.posted

pub new-Kept : (closed : ℕ → Bool) → Kept closed new_io
unfolding new_io
new-Kept closed = record { watched = λ fd w e. ground (arith, e); numbered = tt }

pub count-append :
    (fd registration : ℕ) (xs ys : List Ready)
    → count fd registration (xs ++ ys) ≡ count fd registration xs + count fd registration ys
count-append fd registration [] ys = omega arith
count-append fd registration (x ∷ xs) ys = omega (arith, count-append fd registration xs ys)

pub count_other : (fd n : ℕ) (x : Ready) → (x.fd == fd) ≡ false → count fd n (x ∷ []) ≡ 0
count_other fd n x h = rw h refl

pub count_self : (x : Ready) → count x.fd x.registration (x ∷ []) ≡ 1
count_self x = ground arith

pub count-fresh :
    (fd n : ℕ) (xs : List Ready) → All (λ x. x.registration < n) xs → count fd n xs ≡ 0
count-fresh fd n [] h = refl
count-fresh fd n (x ∷ xs) (h, hs) = ground (arith, h, count-fresh fd n xs hs)

-- A change at one descriptor, where callbacks for the others neither come nor go.
pub changed-Kept :
    (closed : ℕ → Bool) (s t : IoService) (fd : ℕ)
    → ((d : ℕ) → (d == fd) ≡ false → t.watches d ≡ s.watches d)
    → ((d : ℕ) → (d == fd) ≡ false → t.armed d ≡ s.armed d)
    → ((d n : ℕ) → (d == fd) ≡ false → count d n t.posted ≡ count d n s.posted)
    → ((d : ℕ)
        → (d == fd) ≡ false
        → is_reported d s.reported ≡ true
        → is_reported d t.reported ≡ true)
    → t.stopped ≡ s.stopped
    → s.next_registration ≤ t.next_registration
    → All (λ x. x.registration < t.next_registration) t.posted
    → ((w : Watch) → t.watches fd ≡ some w → WatchKept closed t fd w)
    → Kept closed s
    → Kept closed t
changed-Kept closed s t fd sw sa sp sr ss sn numbered at_fd h = record {
  watched = λ d w e. elim (Bool-cases (d == fd)) [
    | inl at ↦
        let same : d ≡ fd = (==_iff d fd).0 at in
        subst (λ x. WatchKept closed t x w) (sym same) (at_fd w (ap t.watches (sym same) ∙ e))
    | inr away ↦
        let (low, counted, kept) = h.watched d w (sym (sw d away) ∙ e) in
        (
          omega (arith, low, sn),
          sp d w.registration away ∙ counted,
          λ c g q. elim (kept c (sym ss ∙ g) q) [
            | inl is_armed ↦ inl (sa d away ∙ is_armed)
            | inr waits ↦ inr (sr d away waits)
          ],
        )
  ];
  numbered = numbered;
}

pub put_at_ne {ℓ} :
    {A : Type ℓ} (fd : ℕ) (a : A) (f : ℕ → A) (d : ℕ) → (d == fd) ≡ false → put_at fd a f d ≡ f d
put_at_ne fd a f d h = rw h refl

pub put_at_self {ℓ} : {A : Type ℓ} (fd : ℕ) (a : A) (f : ℕ → A) → put_at fd a f fd ≡ a
put_at_self fd a f = ground arith

pub armed_ne :
    (b : Bool) (fd events : ℕ) (f : ℕ → Option ℕ) (d : ℕ)
    → (d == fd) ≡ false
    → (if b then f else put_at fd (some events) f) d ≡ f d
armed_ne true fd events f d h = refl
armed_ne false fd events f d h = put_at_ne fd (some events) f d h

pub armed_self :
    (b : Bool) (fd events : ℕ) (f : ℕ → Option ℕ)
    → b ≡ false
    → (if b then f else put_at fd (some events) f) fd ≡ some events
armed_self true fd events f h = absurd (ground (arith, h))
armed_self false fd events f h = put_at_self fd (some events) f

pub later_numbered :
    (n m : ℕ) (xs : List Ready)
    → n ≤ m
    → All (λ x. x.registration < n) xs
    → All (λ x. x.registration < m) xs
later_numbered n m [] h k = tt
later_numbered n m (x ∷ xs) h (k, ks) = (omega (arith, h, k), later_numbered n m xs h ks)
