-- ===== src/Sched/Start.antt =====
-- kernel/sched/sched.c: `sched_start`.
use gnuwindows.Base.{ℕ, ◌≡◌, ap, ◌∙◌, none, some, true, List, ◌∷◌, arith}
use gnuwindows.Sched.State.{Kernel, is_ready, run_thread, start_first, sched_start, sched_pick_next}
use gnuwindows.Sched.Queue.{IsQueue}
use gnuwindows.Sched.Pick.{first_that, ready_in, sched_pick_next-Picked}
use gnuwindows.Sched.Switch.{
  AllReady, Scheduled, run_thread-Switched, Switched-Scheduled, state-Relinked,
}
use gnuwindows.Sched.Turn.{first_that-head}

-- `sched_start` returns where a thread is ready at the head of the queue, and runs it: the scheduler
-- is started, and the queue is what stood behind it.
pub sched_start-Scheduled :
    {k : Kernel} {t : ℕ} {l : List ℕ}
    → IsQueue k (t ∷ l)
    → AllReady k (t ∷ l)
    → (k' : Kernel) × (sched_start k ≡ some k') × Scheduled k' t l
unfolding sched_start start_first
sched_start-Scheduled {k} {t} {l} v ready =
    let k0 = record k { sched_started = true } in
    let v0 : IsQueue k0 (t ∷ l) = record {
      chain = v.chain;
      distinct = v.distinct;
      slots = v.slots;
    } in
    let p = sched_pick_next-Picked k0 v0 in
    let k1 = (sched_pick_next k0).1 in
    let e : first_that (ready_in k0) (t ∷ l) ≡ (some t, l) =
      first_that-head (ready_in k0) t l (ap is_ready (ready t (ground arith))) in
    (
      run_thread none t k1,
      ap (λ o. start_first (o, k1)) (p.thread ∙ ap (λ r. r.0) e),
      Switched-Scheduled (run_thread-Switched none t k1) (rw e at p.queue) p.relinked.sched_started
          (λ u h. state-Relinked p.relinked u ∙ ready u (ground arith)) v.distinct.0,
    )
