-- ===== src/Sched/Queue.antt =====
-- kernel/sched/sched.c: the run queue as a list of threads. `sched_add` appends, and the loop of
-- `sched_pick_next` takes the first thread that is ready.
use gnuwindows.Base.{
  ℕ, zero, suc, ◌+◌, ◌≤◌, ◌<◌, ◌≡◌, refl, sym, ◌∙◌, Bool, false, Option, none, some, List, [], ◌∷◌,
  arith, ◌==◌, if◌then◌else◌, ◌||◌, ltb, length,
}
use gnuwindows.Sched.State.{Thread, Kernel, max_threads, idle, set_next}

abbrev pub has : ℕ → List ℕ → Bool
has t [] = false
has t (u ∷ l) = (u == t) || has t l

abbrev pub Distinct : List ℕ → Type 0
Distinct [] = Unit {0}
Distinct (t ∷ l) = (has t l ≡ false) × Distinct l

-- Every member is a slot of the pool.
abbrev pub Slots : List ℕ → Type 0
Slots [] = Unit {0}
Slots (t ∷ l) = (t < idle) × Slots l

-- From `p` the `next` pointers lead through `l` to NULL.
pub data Chain (f : ℕ → Thread) : Option ℕ → List ℕ → Type 0 where
  end : Chain f none []
  link :
      {t : ℕ} {n : Option ℕ} {l : List ℕ} → (f t).next ≡ n → Chain f n l → Chain f (some t) (t ∷ l)

pub record IsQueue (k : Kernel) (l : List ℕ) : Type 0 where
  pub chain : Chain k.threads k.run_queue l
  pub distinct : Distinct l
  pub slots : Slots l

-- Only `next` pointers and the head of the queue differ.
pub record Relinked (k k' : Kernel) : Type 0 where
  pub threads : (t : ℕ) → k'.threads t ≡ record (k.threads t) { next = (k'.threads t).next }
  pub current : k'.current ≡ k.current
  pub sched_started : k'.sched_started ≡ k.sched_started
  pub next_id : k'.next_id ≡ k.next_id
  pub rsp : k'.rsp ≡ k.rsp

pub Relinked-refl : (k : Kernel) → Relinked k k
Relinked-refl k = record {
  threads = λ t. refl;
  current = refl;
  sched_started = refl;
  next_id = refl;
  rsp = refl;
}

pub Relinked-trans : {a b c : Kernel} → Relinked a b → Relinked b c → Relinked a c
Relinked-trans r s = record {
  threads = λ t. cc (r.threads t, s.threads t);
  current = s.current ∙ r.current;
  sched_started = s.sched_started ∙ r.sched_started;
  next_id = s.next_id ∙ r.next_id;
  rsp = s.rsp ∙ r.rsp;
}

pub set_next-Relinked : (t : ℕ) (n : Option ℕ) (k : Kernel) → Relinked k (set_next t n k)
unfolding set_next
set_next-Relinked t n k = record {
  threads = λ u. ground arith;
  current = refl;
  sched_started = refl;
  next_id = refl;
  rsp = refl;
}

-- The members below `n`.
members_below : ℕ → List ℕ → ℕ
members_below zero l = 0
members_below (suc n) l = members_below n l + (if has n l then 1 else 0)

members_below-le : (n : ℕ) (l : List ℕ) → members_below n l ≤ n
unfolding members_below
members_below-le zero l = omega arith
members_below-le (suc n) l = ground (arith, members_below-le n l)

members_below-cons :
    (n t : ℕ) (l : List ℕ)
    → has t l ≡ false
    → members_below n (t ∷ l) ≡ members_below n l + (if ltb t n then 1 else 0)
unfolding members_below
members_below-cons zero t l h = ground arith
members_below-cons (suc n) t l h = ground (arith, members_below-cons n t l h)

members_below-nil : (n : ℕ) → members_below n [] ≡ 0
unfolding members_below
members_below-nil zero = refl
members_below-nil (suc n) = ground (arith, members_below-nil n)

length-eq-members : (l : List ℕ) → Distinct l → Slots l → length l ≡ members_below max_threads l
length-eq-members [] d s = sym (members_below-nil 16)
length-eq-members (t ∷ l) d s =
    ground (arith, length-eq-members l d.1 s.1, members_below-cons 16 t l d.0)

-- No queue is longer than the pool.
pub length-le-threads : (l : List ℕ) → Distinct l → Slots l → length l ≤ max_threads
length-le-threads l d s = omega (arith, length-eq-members l d s, members_below-le 16 l)
