-- ===== src/Sched/Pick.antt =====
-- kernel/sched/sched.c: `sched_pick_next` takes the first thread of the queue that is ready.
use gnuwindows.Base.{
  ℕ, zero, suc, ◌≤◌, ◌≡◌, refl, sym, ap, ◌∙◌, Bool, false, Option, none, some, List, [], ◌∷◌, arith,
  if◌then◌else◌, Bool-cases, inl, inr, length,
}
use mathlib.Core.Path.{subst, fun_ext}
use gnuwindows.Sched.State.{
  Thread, Kernel, max_threads, is_ready, set_next, dequeue_at, dequeue, pick_step, pick_loop,
  sched_pick_next,
}
use gnuwindows.Sched.Queue.{
  Distinct, Slots, Chain, end, link, IsQueue, Relinked, Relinked-refl, Relinked-trans,
  length-le-threads,
}
use gnuwindows.Sched.Add.{Chain-frame}

-- The first member that passes the test, and what stands behind it.
unfoldable pub first_that : (ℕ → Bool) → List ℕ → Option ℕ × List ℕ
first_that p [] = (none, [])
first_that p (t ∷ l) = let rest = first_that p l in if p t then (some t, l) else rest

abbrev pub ready_in : Kernel → ℕ → Bool
ready_in k t = is_ready (k.threads t).state

pub ready-Relinked : {k k' : Kernel} → Relinked k k' → ready_in k' ≡ ready_in k
ready-Relinked r = fun_ext λ t. ap (λ (th : Thread). is_ready th.state) (r.threads t)

pub record Picked (k : Kernel) (l : List ℕ) (r : Option ℕ × Kernel) : Type 0 where
  pub thread : r.0 ≡ (first_that (ready_in k) l).0
  pub queue : IsQueue r.1 (first_that (ready_in k) l).1
  pub relinked : Relinked k r.1

-- the state after the head `t` has been taken off the queue
taken : ℕ → Kernel → Kernel
taken t k = set_next t none (record k { run_queue = (k.threads t).next })

taken-IsQueue :
    (k : Kernel) (t : ℕ) {n : Option ℕ} {l : List ℕ}
    → (k.threads t).next ≡ n
    → Chain k.threads n l
    → Distinct (t ∷ l)
    → Slots (t ∷ l)
    → IsQueue (taken t k) l
unfolding taken set_next
taken-IsQueue k t {l} e c d s = record {
  chain =
      subst (λ o. Chain (taken t k).threads o l) (sym e)
        (Chain-frame (taken t k).threads c λ u h. ground arith);
  distinct = d.1;
  slots = s.1;
}

taken-Relinked : (k : Kernel) (t : ℕ) → Relinked k (taken t k)
unfolding taken set_next
taken-Relinked k t = record {
  threads = λ u. ground arith;
  current = refl;
  sched_started = refl;
  next_id = refl;
  rsp = refl;
}

Picked-later :
    {k : Kernel} {t : ℕ} {l : List ℕ} {r : Option ℕ × Kernel}
    → ready_in k t ≡ false
    → Relinked k (taken t k)
    → Picked (taken t k) l r
    → Picked k (t ∷ l) r
unfolding first_that
Picked-later {k} {t} {l} miss rel p =
    let same : first_that (ready_in (taken t k)) l ≡ first_that (ready_in k) l =
      ap (λ f. first_that f l) (ready-Relinked rel) in
    record {
      thread = rw miss (p.thread ∙ ap (λ r. r.0) same);
      queue = rw miss (rw same at p.queue);
      relinked = Relinked-trans rel p.relinked;
    }

Picked-nil : (k : Kernel) → k.run_queue ≡ none → Picked k [] (none, k)
unfolding first_that
Picked-nil k q = record {
  thread = refl;
  queue = record {
    chain = subst (λ o. Chain k.threads o []) (sym q) end;
    distinct = tt;
    slots = tt;
  };
  relinked = Relinked-refl k;
}

-- A round that finds the head `t` of the queue.
Picked-head :
    (again : Kernel → Option ℕ × Kernel) (k : Kernel) (t : ℕ) {l : List ℕ}
    → IsQueue (taken t k) l
    → Picked (taken t k) l (again (taken t k))
    → Picked k (t ∷ l) (pick_step again (some t, taken t k))
unfolding first_that pick_step
Picked-head again k t {l} v later =
    let rel = taken-Relinked k t in
    let same : ready_in (taken t k) t ≡ ready_in k t = ap (λ f. f t) (ready-Relinked rel) in
    elim (Bool-cases (ready_in k t)) [
      | inl hit ↦
          rw (same ∙ hit, pick_step) (record { thread = rw hit; queue = rw hit v; relinked = rel })
      | inr miss ↦ rw (same ∙ miss, pick_step) (Picked-later miss rel later)
    ]

pick_any :
    (rounds : ℕ) (k : Kernel) {p : Option ℕ} {l : List ℕ}
    → k.run_queue ≡ p
    → Chain k.threads p l
    → Distinct l
    → Slots l
    → length l ≤ rounds
    → Picked k l (pick_loop rounds k)
unfolding pick_loop pick_step dequeue dequeue_at taken
pick_any zero k q end d s h = Picked-nil k q
pick_any zero k q (link e c) d s h = absurd (omega arith)
pick_any (suc rounds) k q end d s h =
    subst (λ o. Picked k [] (pick_step (pick_loop rounds) (dequeue_at o k))) (sym q)
      (Picked-nil k q)
pick_any (suc rounds) k q (link {t} {l} e c) d s h =
    let v = taken-IsQueue k t e c d s in
    subst (λ o. Picked k (t ∷ l) (pick_step (pick_loop rounds) (dequeue_at o k))) (sym q)
      (Picked-head (pick_loop rounds) k t v
        (pick_any rounds (taken t k) refl v.chain v.distinct v.slots (omega arith)))

-- `sched_pick_next` returns the first thread of the queue that is ready, or NULL, and leaves the
-- queue behind it: what it has passed over is no longer in the queue. Of the threads it changes
-- only `next` pointers.
pub sched_pick_next-Picked :
    (k : Kernel) {l : List ℕ} → IsQueue k l → Picked k l (sched_pick_next k)
unfolding sched_pick_next
sched_pick_next-Picked k {l} v =
    pick_any max_threads k refl v.chain v.distinct v.slots (length-le-threads l v.distinct v.slots)

pub Chain-nil : {f : ℕ → Thread} {p : Option ℕ} → Chain f p [] → p ≡ none
Chain-nil end = refl

-- With an empty queue there is nothing to pick, and nothing changes.
pub sched_pick_next-none : (k : Kernel) → k.run_queue ≡ none → sched_pick_next k ≡ (none, k)
unfolding sched_pick_next pick_loop pick_step dequeue dequeue_at
sched_pick_next-none k q = ap (λ o. pick_step (pick_loop 15) (dequeue_at o k)) q
