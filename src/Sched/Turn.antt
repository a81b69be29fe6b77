-- ===== src/Sched/Turn.antt =====
-- kernel/sched/sched.c, kernel/sched/thread.c: one call of `sched_on_timer`, which `thread_yield`
-- is, and the order in which calls let the threads run.
use mathlib.Core.Path.{ap₂}
use gnuwindows.Base.{
  ℕ, ◌+◌, ◌-◌, ◌%◌, ◌^◌, ◌<◌, ◌≡◌, ap, ◌∙◌, Bool, true, false, Option, none, some, List, [], ◌∷◌,
  ◌++◌, arith, ◌==◌, if◌then◌else◌,
}
use gnuwindows.Sched.State.{
  ThreadState, Kernel, idle, is_ready, is_running, set_state, requeue, run_thread, switch_to,
  after_pick, sched_on_timer, sched_pick_next, sched_add,
}
use gnuwindows.Sched.Queue.{has, IsQueue, Relinked}
use gnuwindows.Sched.Add.{Chain-frame, Added, sched_add-Added, has-append}
use gnuwindows.Sched.Pick.{
  first_that, ready_in, Chain-nil, sched_pick_next-none, sched_pick_next-Picked,
}
use gnuwindows.Sched.Switch.{
  AllReady, Scheduled, run_thread-Switched, run_thread-saved, Switched-Scheduled, state-Relinked,
  rsp-Relinked,
}

pub first_that-head :
    (p : ℕ → Bool) (t : ℕ) (l : List ℕ) → p t ≡ true → first_that p (t ∷ l) ≡ (some t, l)
unfolding first_that
first_that-head p t l h = rw h

-- Where the head of the queue is ready, `sched_on_timer` goes on with it.
pub record Chosen (k : Kernel) (c t : ℕ) (l : List ℕ) (k1 : Kernel) : Type 0 where
  pub step : sched_on_timer k ≡ switch_to (some c) t k1
  pub queue : IsQueue k1 l
  pub relinked : Relinked k k1

pub choose :
    (k : Kernel) (c t : ℕ) (l : List ℕ)
    → k.sched_started ≡ true
    → k.current ≡ some c
    → IsQueue k (t ∷ l)
    → (k.threads t).state ≡ ThreadState.ready
    → Chosen k c t l (sched_pick_next k).1
unfolding sched_on_timer after_pick
choose k c t l up cur v ready =
    let p = sched_pick_next-Picked k v in
    let e : first_that (ready_in k) (t ∷ l) ≡ (some t, l) =
      first_that-head (ready_in k) t l (ap is_ready ready) in
    let k1 = (sched_pick_next k).1 in
    record {
      step = simp up (ap₂ (λ o r. after_pick o (r, k1)) cur (p.thread ∙ ap (λ r. r.0) e));
      queue = rw e at p.queue;
      relinked = p.relinked;
    }

-- the rest of `sched_on_timer`, where the current thread runs on
switch_to-requeue :
    (c t : ℕ) (k k' : Kernel)
    → (c == t) ≡ false
    → (c == idle) ≡ false
    → (k.threads c).state ≡ ThreadState.running
    → sched_add c (set_state c ThreadState.ready k) ≡ some k'
    → switch_to (some c) t k ≡ some (run_thread (some c) t k')
unfolding switch_to requeue
switch_to-requeue c t k k' other proper run added = simp (other, proper, ap is_running run, added)

-- where it has ended
pub switch_to-dead :
    (c t : ℕ) (k : Kernel)
    → (c == t) ≡ false
    → (c == idle) ≡ false
    → (k.threads c).state ≡ ThreadState.dead
    → switch_to (some c) t k ≡ some (run_thread (some c) t k)
unfolding switch_to
switch_to-dead c t k other proper stop = simp (other, proper, ap is_running stop)

-- where it is the idle thread
switch_to-idle :
    (t : ℕ) (k : Kernel)
    → (idle == t) ≡ false
    → switch_to (some idle) t k ≡ some (run_thread none t k)
unfolding switch_to
switch_to-idle t k other = simp other

-- A turn: `t` runs from the stack pointer kept for it, less the 56 bytes the switch takes off its
-- stack, and the one kept for `c` is such that a switch to it gives the stack pointer it now has.
pub record Turn (k : Kernel) (c t : ℕ) (l : List ℕ) (k' : Kernel) : Type 0 where
  pub scheduled : Scheduled k' t l
  pub resumed : k'.rsp ≡ ((k.threads t).rsp + 56) % 2 ^ 64
  pub saved : (k'.threads c).rsp ≡ (k.rsp + 2 ^ 64 - 56) % 2 ^ 64
  pub returns : ((k'.threads c).rsp + 56) % 2 ^ 64 ≡ k.rsp % 2 ^ 64

pub set_state-IsQueue :
    (c : ℕ) (st : ThreadState) {k : Kernel} {l : List ℕ}
    → IsQueue k l
    → IsQueue (set_state c st k) l
unfolding set_state
set_state-IsQueue c st {k} v = record {
  chain = Chain-frame (set_state c st k).threads v.chain λ u h. ground arith;
  distinct = v.distinct;
  slots = v.slots;
}

pub set_state-state :
    (c : ℕ) (st : ThreadState) (k : Kernel) (u : ℕ)
    → ((set_state c st k).threads u).state ≡ (if u == c then st else (k.threads u).state)
unfolding set_state
set_state-state c st k u = ground arith

set_state-rsp :
    (c : ℕ) (st : ThreadState) (k : Kernel) (u : ℕ)
    → ((set_state c st k).threads u).rsp ≡ (k.threads u).rsp
unfolding set_state
set_state-rsp c st k u = ground arith

resume_at : ℕ → ℕ
resume_at x = (x + 56) % 2 ^ 64

saved_back : (x : ℕ) → resume_at ((x + 2 ^ 64 - 56) % 2 ^ 64) ≡ x % 2 ^ 64
unfolding resume_at
saved_back x = omega arith

-- After `sched_add` of the current thread, which was running.
requeued-Turn :
    {k k1 k3 : Kernel} {c t : ℕ} {l : List ℕ}
    → Scheduled k c (t ∷ l)
    → Chosen k c t l k1
    → Added c l (set_state c ThreadState.ready k1) k3
    → Turn k c t (l ++ c ∷ []) (run_thread (some c) t k3)
unfolding set_state resume_at
requeued-Turn {k} {k1} {k3} {c} {t} {l} s ch a =
    let w = run_thread-Switched (some c) t k3 in
    let state = λ (u : ℕ). state-Relinked a.relinked u ∙ set_state-state c ThreadState.ready k1 u in
    let saved =
      run_thread-saved c t k3
      ∙ ap (λ x. (x + 2 ^ 64 - 56) % 2 ^ 64) (a.relinked.rsp ∙ ch.relinked.rsp) in
    record {
      scheduled =
          Switched-Scheduled w a.queue
            (a.relinked.sched_started ∙ ch.relinked.sched_started ∙ s.started)
            (λ u h.
              ground (arith, state u, state-Relinked ch.relinked u, s.ready u, has-append u c l))
            (rw has-append (ground arith));
      resumed =
          w.rsp
          ∙ ap resume_at (
              rsp-Relinked a.relinked t
              ∙ set_state-rsp c ThreadState.ready k1 t
              ∙ rsp-Relinked ch.relinked t);
      saved = saved;
      returns = ap resume_at saved ∙ saved_back k.rsp;
    }

module _ {k : Kernel} {c t : ℕ} {l : List ℕ} (s : Scheduled k c (t ∷ l)) (proper : c < idle) where
  -- `sched_on_timer`, called while the proper thread `c` runs, returns: the head `t` of the queue
  -- runs, from the stack pointer kept for it plus 56; `c` is ready, at the end of the queue, and the
  -- stack pointer kept for it plus 56 is the one it has now, modulo 2 ^ 64: the switch back to it
  -- gives it again.
  pub sched_on_timer-Turn :
      (k' : Kernel) × (sched_on_timer k ≡ some k') × Turn k c t (l ++ c ∷ []) k'
  sched_on_timer-Turn =
      let ch = choose k c t l s.started s.current s.queue (s.ready t (ground arith)) in
      let k1 = (sched_pick_next k).1 in
      let v = set_state-IsQueue c ThreadState.ready ch.queue in
      let (k3, added, a) =
        sched_add-Added c (set_state c ThreadState.ready k1) proper v (ground arith) in
      let run = state-Relinked ch.relinked c ∙ s.running in
      (
        run_thread (some c) t k3,
        ch.step ∙ switch_to-requeue c t k1 k3 (ground arith) (ground arith) run added,
        requeued-Turn s ch a,
      )

-- Where the current thread is not put back: it is the idle thread, or it has ended.
pub left-Scheduled :
    {k k1 : Kernel} {c t : ℕ} {l : List ℕ} (save : Option ℕ)
    → k.sched_started ≡ true
    → AllReady k (t ∷ l)
    → has t l ≡ false
    → Chosen k c t l k1
    → Scheduled (run_thread save t k1) t l
left-Scheduled {k} {k1} {c} {t} {l} save up ready out ch =
    Switched-Scheduled (run_thread-Switched save t k1) ch.queue (ch.relinked.sched_started ∙ up)
      (λ u h. state-Relinked ch.relinked u ∙ ready u (ground arith)) out

-- The idle thread leaves the processor to the head of the queue, and is not put in the queue.
pub sched_on_timer-idle :
    {k : Kernel} {t : ℕ} {l : List ℕ}
    → Scheduled k idle (t ∷ l)
    → (k' : Kernel) × (sched_on_timer k ≡ some k') × Scheduled k' t l
sched_on_timer-idle {k} {t} {l} s =
    let ch = choose k idle t l s.started s.current s.queue (s.ready t (ground arith)) in
    (
      run_thread none t (sched_pick_next k).1,
      ch.step ∙ switch_to-idle t (sched_pick_next k).1 (ground arith),
      left-Scheduled none s.started s.ready s.queue.distinct.0 ch,
    )

-- With an empty queue `sched_on_timer` changes nothing: the current thread runs on.
pub sched_on_timer-alone : {k : Kernel} {c : ℕ} → Scheduled k c [] → sched_on_timer k ≡ some k
unfolding sched_on_timer after_pick
sched_on_timer-alone {k} s =
    simp s.started (ap (after_pick k.current) (sched_pick_next-none k (Chain-nil s.queue.chain)))
