-- ===== src/Sched/Switch.antt =====
-- kernel/sched/sched.c, kernel/arch/x86_64/cpu/switch.S: the invariant of the scheduler, and what a
-- switch of threads leaves.
use mathlib.Core.Path.{subst}
use gnuwindows.Base.{
  ℕ, ◌+◌, ◌-◌, ◌%◌, ◌^◌, ◌≡◌, refl, sym, ap, ◌∙◌, true, false, Option, none, some, List, arith,
  ◌==◌, if◌then◌else◌,
}
use gnuwindows.Sched.State.{
  ThreadState, Thread, Kernel, set_state, save_rsp, context_switch, run_thread,
}
use gnuwindows.Sched.Queue.{has, Chain, IsQueue, Relinked}
use gnuwindows.Sched.Add.{Chain-frame}

-- The threads of the queue `l` are ready.
abbrev pub AllReady : Kernel → List ℕ → Type 0
AllReady k l = (t : ℕ) → has t l ≡ true → (k.threads t).state ≡ ThreadState.ready

-- The scheduler runs: `c` is the current thread, and the threads of the queue `l` are ready to run.
pub record Scheduled (k : Kernel) (c : ℕ) (l : List ℕ) : Type 0 where
  pub queue : IsQueue k l
  pub started : k.sched_started ≡ true
  pub current : k.current ≡ some c
  pub running : (k.threads c).state ≡ ThreadState.running
  pub ready : AllReady k l
  pub outside : has c l ≡ false

pub state-Relinked :
    {k k' : Kernel} → Relinked k k' → (t : ℕ) → (k'.threads t).state ≡ (k.threads t).state
state-Relinked r t = ap (λ (th : Thread). th.state) (r.threads t)

pub rsp-Relinked :
    {k k' : Kernel} → Relinked k k' → (t : ℕ) → (k'.threads t).rsp ≡ (k.threads t).rsp
rsp-Relinked r t = ap (λ (th : Thread). th.rsp) (r.threads t)

-- What the switch to thread `t` leaves of a state `k`.
pub record Switched (t : ℕ) (k k' : Kernel) : Type 0 where
  pub state :
      (u : ℕ) → (k'.threads u).state ≡ (if u == t then ThreadState.running else (k.threads u).state)
  pub next : (u : ℕ) → (k'.threads u).next ≡ (k.threads u).next
  pub run_queue : k'.run_queue ≡ k.run_queue
  pub current : k'.current ≡ some t
  pub started : k'.sched_started ≡ k.sched_started
  pub rsp : k'.rsp ≡ ((k.threads t).rsp + 56) % 2 ^ 64

pub run_thread-Switched :
    (save : Option ℕ) (t : ℕ) (k : Kernel) → Switched t k (run_thread save t k)
unfolding run_thread context_switch set_state save_rsp
run_thread-Switched none t k = record {
  state = λ u. ground arith;
  next = λ u. ground arith;
  run_queue = refl;
  current = refl;
  started = refl;
  rsp = ground arith;
}
run_thread-Switched (some c) t k = record {
  state = λ u. ground arith;
  next = λ u. ground arith;
  run_queue = refl;
  current = refl;
  started = refl;
  rsp = ground arith;
}

-- The old stack pointer is kept in the thread that was left.
pub run_thread-saved :
    (c t : ℕ) (k : Kernel)
    → ((run_thread (some c) t k).threads c).rsp ≡ (k.rsp + 2 ^ 64 - 56) % 2 ^ 64
unfolding run_thread context_switch set_state save_rsp
run_thread-saved c t k = ground arith

pub Switched-Scheduled :
    {t : ℕ} {l : List ℕ} {k k' : Kernel}
    → Switched t k k'
    → IsQueue k l
    → k.sched_started ≡ true
    → AllReady k l
    → has t l ≡ false
    → Scheduled k' t l
Switched-Scheduled {t} {l} {k} {k'} w v up ready out = record {
  queue = record {
    chain =
        subst (λ o. Chain k'.threads o l) (sym w.run_queue)
          (Chain-frame k'.threads v.chain λ u h. w.next u);
    distinct = v.distinct;
    slots = v.slots;
  };
  started = w.started ∙ up;
  current = w.current;
  running = ground (arith, w.state t);
  ready = λ u h. ground (arith, w.state u, ready u);
  outside = out;
}
