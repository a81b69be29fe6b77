-- ===== src/Sched/Exit.antt =====
-- kernel/sched/thread.c: `thread_exit` under the invariant of the scheduler.
use gnuwindows.Base.{ℕ, ◌<◌, ◌≡◌, ap, ◌∙◌, some, List, ◌∷◌, arith}
use gnuwindows.Sched.State.{
  ThreadState, Kernel, idle, run_thread, sched_on_timer, set_state, sched_pick_next,
}
use gnuwindows.Sched.Switch.{Scheduled, run_thread-Switched, state-Relinked}
use gnuwindows.Sched.Turn.{
  choose, switch_to-dead, left-Scheduled, set_state-IsQueue, set_state-state,
}
use gnuwindows.Sched.Threads.{mark_dead, thread_exit}

module _ {k : Kernel} {c t : ℕ} {l : List ℕ} (s : Scheduled k c (t ∷ l)) (proper : c < idle) where
  marked_dead : Kernel
  marked_dead = set_state c ThreadState.dead k

  exit-step : thread_exit k ≡ sched_on_timer marked_dead
  unfolding thread_exit marked_dead
  exit-step = ap (λ o. sched_on_timer (mark_dead o k)) s.current

  -- `thread_exit` of the proper thread `c` switches to the head of the queue and never comes back:
  -- `c` is dead and in no queue.
  pub thread_exit-Scheduled :
      (k' : Kernel) × (thread_exit k ≡ some k')
      × Scheduled k' t l
      × ((k'.threads c).state ≡ ThreadState.dead)
  unfolding marked_dead set_state
  thread_exit-Scheduled =
      let k0 = set_state c ThreadState.dead k in
      let state = set_state-state c ThreadState.dead k in
      let ch =
        choose k0 c t l s.started s.current (set_state-IsQueue c ThreadState.dead s.queue)
          (ground (arith, state t, s.ready t)) in
      let k1 = (sched_pick_next k0).1 in
      (
        run_thread (some c) t k1,
        exit-step
            ∙ ch.step
            ∙ switch_to-dead c t k1 (ground arith) (ground arith)
                (state-Relinked ch.relinked c ∙ ground (arith, state c)),
        left-Scheduled (some c) s.started (λ u h. ground (arith, state u, s.ready u))
            s.queue.distinct.0 ch,
        ground (
          arith,
          (run_thread-Switched (some c) t k1).state c,
          state-Relinked ch.relinked c,
          state c,
        ),
      )
