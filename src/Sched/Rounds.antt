-- ===== src/Sched/Rounds.antt =====
-- kernel/sched/sched.c: the order in which calls of `sched_on_timer` let the threads run.
use gnuwindows.Base.{
  ℕ, zero, suc, ◌<◌, ◌≡◌, refl, ap, ◌∙◌, Option, some, List, [], ◌∷◌, ◌++◌, inl, inr, Option-cases,
  length, ◌>>=◌,
}
use mathlib.Core.List.{append_assoc}
use gnuwindows.Sched.State.{Kernel, idle, sched_on_timer}
use gnuwindows.Sched.Queue.{Slots}
use gnuwindows.Sched.Switch.{Scheduled}
use gnuwindows.Sched.Turn.{sched_on_timer-Turn, sched_on_timer-alone}

-- `n` calls of `sched_on_timer`, one after the other
unfoldable pub turns : ℕ → Kernel → Option Kernel
turns zero k = some k
turns (suc n) k = do k' ← sched_on_timer k; turns n k'

-- The last of the calls apart.
turns-suc : (n : ℕ) (k : Kernel) → turns (suc n) k ≡ (turns n k >>= sched_on_timer)
unfolding turns
turns-suc zero k = elim (Option-cases (sched_on_timer k)) [ inl e ↦ rw e | inr (k', e) ↦ rw e ]
turns-suc (suc n) k = elim (Option-cases (sched_on_timer k)) [
  | inl e ↦ rw e
  | inr (k', e) ↦ rw e (turns-suc n k')
]

-- Round robin: while the proper thread `c` runs before the queue `xs ++ y ∷ ys`, it takes
-- `length xs + 1` calls until `y` runs, and those that ran wait behind `ys` in the same order.
pub turns-reach :
    (xs ys : List ℕ) (y : ℕ) {k : Kernel} {c : ℕ}
    → Scheduled k c (xs ++ y ∷ ys)
    → c < idle
    → (k' : Kernel) × (turns (suc (length xs)) k ≡ some k') × Scheduled k' y (ys ++ c ∷ xs)
unfolding turns
turns-reach [] ys y s proper =
    let (k', e, t) = sched_on_timer-Turn s proper in (k', rw e, t.scheduled)
turns-reach (x ∷ xs) ys y {c} s proper =
    let (k1, e, t) = sched_on_timer-Turn s proper in
    let (k', e', s') =
      turns-reach xs (ys ++ c ∷ []) y (rw append_assoc at t.scheduled) s.queue.slots.0 in
    (k', rw e e', rw append_assoc at s')

turns_alone : {k : Kernel} {c : ℕ} → Scheduled k c [] → turns 1 k ≡ some k
unfolding turns
turns_alone s = rw (sched_on_timer-alone s)

-- the last member apart
snoc_view :
    (x : ℕ) (l : List ℕ)
    → (xs : List ℕ) × (y : ℕ) × (x ∷ l ≡ xs ++ y ∷ [])
      × (length xs ≡ length l)
      × (Slots (x ∷ l) → y < idle)
snoc_view x [] = ([], x, refl, refl, λ s. s.0)
snoc_view x (x' ∷ l) =
    let (xs, y, e, h, p) = snoc_view x' l in (x ∷ xs, y, ap (λ r. x ∷ r) e, ap suc h, λ s. p s.1)

-- After one call more than there are threads in the queue, the same thread runs before the same
-- queue.
pub turns_round :
    (l : List ℕ) {k : Kernel} {c : ℕ}
    → Scheduled k c l
    → c < idle
    → (k' : Kernel) × (turns (suc (length l)) k ≡ some k') × Scheduled k' c l
unfolding turns
turns_round [] {k} s proper = (k, rw (sched_on_timer-alone s), s)
turns_round (x ∷ l) {k} {c} s proper =
    let (xs, y, e, h, last) = snoc_view x l in
    let (k1, e1, s1) = turns-reach xs [] y (rw e at s) proper in
    let (k2, e2, t) = sched_on_timer-Turn s1 (last s.queue.slots) in
    (k2, turns-suc (suc (length l)) k ∙ rw (rw h at e1) e2, rw (← e) at t.scheduled)
