-- ===== src/Sched/Create.antt =====
-- kernel/sched/thread.c: what `thread_create` does under the invariant of the scheduler.
use gnuwindows.Base.{
  ℕ, zero, suc, ◌+◌, ◌%◌, ◌^◌, ◌≤◌, ◌<◌, ◌≡◌, ◌≢◌, refl, ap, ◌∙◌, true, false, Option, none, some,
  List, [], ◌∷◌, ◌++◌, arith, ◌==◌, ltb, leb, ◌||◌, Bool-cases, Option-cases, ◌⊎◌, inl, inr, read64,
}
use gnuwindows.Sched.State.{
  ThreadState, Thread, Kernel, max_threads, is_unused, set_thread, sched_add,
}
use gnuwindows.Sched.Queue.{has, IsQueue}
use gnuwindows.Sched.Add.{Chain-frame, Added, sched_add-Added, has-append}
use gnuwindows.Sched.Frame.{frame_slots}
use gnuwindows.Sched.Switch.{Scheduled, state-Relinked, rsp-Relinked}
use gnuwindows.Sched.Threads.{
  Allocator, Machine, find_unused, push_all, first_frame, first_rsp, align_16, new_thread,
  build_thread, with_stack, in_slot, thread_create, thread_stack_size,
}

-- A slot is free for a new thread.
abbrev pub IsFree : Kernel → ℕ → Type 0
IsFree k t = (k.threads t).state ≡ ThreadState.unused

free_slot :
    (n i : ℕ) (pool : ℕ → Thread) {t : ℕ}
    → find_unused n i pool ≡ some t
    → (t < i + n) × ((pool t).state ≡ ThreadState.unused)
unfolding find_unused
free_slot zero i pool h = absurd (ground arith)
free_slot (suc n) i pool {t} h = elim (Bool-cases (is_unused (pool i).state)) [
  | inl e ↦ ground arith
  | inr e ↦ ground (arith, free_slot n (i + 1) pool {t = t})
]

-- What `thread_create` leaves when it has a slot and a stack: the new thread `t` waits ready at the
-- end of the queue. On its first switch `ret` finds `trampoline` and then the argument and the
-- entry of the thread.
pub record Created (trampoline entry arg stack t c : ℕ) (l : List ℕ) {H : Type 0} (m' : Machine H)
    : Type 0 where
  pub scheduled : Scheduled m'.kernel c (l ++ t ∷ [])
  pub rsp : (m'.kernel.threads t).rsp ≡ first_rsp stack
  pub inside : (stack ≤ first_rsp stack) × (first_rsp stack + 72 ≤ stack + thread_stack_size)
  pub return_to : read64 m'.memory (first_rsp stack + 48) ≡ trampoline % 2 ^ 64
  pub arg_slot : read64 m'.memory (first_rsp stack + 56) ≡ arg % 2 ^ 64
  pub entry_slot : read64 m'.memory (first_rsp stack + 64) ≡ entry % 2 ^ 64

-- A free slot is neither the current thread nor in the queue.
slot_outside :
    {k : Kernel} {c t : ℕ} {l : List ℕ}
    → Scheduled k c l
    → IsFree k t
    → (has t l ≡ false) × ((t == c) ≡ false)
slot_outside {k} {c} {t} {l} s free = (ground (arith, s.ready t), ground (arith, s.running))

installed : ℕ → Thread → Kernel → Kernel
installed t th k = record (set_thread t th k) { next_id = k.next_id + 1 }

installed-IsQueue :
    (t : ℕ) (th : Thread) {k : Kernel} {l : List ℕ}
    → IsQueue k l
    → has t l ≡ false
    → IsQueue (installed t th k) l
unfolding installed set_thread
installed-IsQueue t th {k} v out = record {
  chain = Chain-frame (installed t th k).threads v.chain λ u h. ground arith;
  distinct = v.distinct;
  slots = v.slots;
}

installed-Scheduled :
    {k k' : Kernel} {c t : ℕ} {l : List ℕ} (th : Thread)
    → Scheduled k c l
    → IsFree k t
    → th.state ≡ ThreadState.ready
    → Added t l (installed t th k) k'
    → Scheduled k' c (l ++ t ∷ [])
unfolding installed set_thread
installed-Scheduled {k} {k'} {c} {t} {l} th s free new a =
    let (out, other) = slot_outside s free in
    let state = λ (u : ℕ). state-Relinked a.relinked u in
    record {
      queue = a.queue;
      started = a.relinked.sched_started ∙ s.started;
      current = a.relinked.current ∙ s.current;
      running = ground (arith, state c, s.running);
      ready = λ u h. ground (arith, state u, s.ready u, has-append u t l);
      outside = ground (arith, has-append c t l, s.outside);
    }

module _ {H : Type 0} (alloc : Allocator H) (trampoline : ℕ) (name : Option (List ℕ))
    (entry arg : ℕ) where
  -- with a slot and a stack; the check of the frame always passes
  build_thread-ok :
      (t stack : ℕ) (m : Machine H) (k' : Kernel)
      → sched_add t (installed t (new_thread m.kernel.next_id name entry arg stack) m.kernel)
        ≡ some k'
      → build_thread alloc trampoline t name entry arg stack m
        ≡ some (
          some m.kernel.next_id,
          record {
            kernel = k';
            heap = m.heap;
            memory =
                push_all
                  (align_16 (stack + thread_stack_size))
                  (first_frame entry arg trampoline)
                  m.memory;
          },
        )
  unfolding build_thread installed
  build_thread-ok t stack m k' added =
      let good : (ltb (first_rsp stack) stack || leb (stack + thread_stack_size) (first_rsp stack))
          ≡ false =
        ground arith in
      simp (good, added)

  with_slot :
      (m : Machine H) (t stack : ℕ) (heap : H)
      → find_unused max_threads 0 m.kernel.threads ≡ some t
      → alloc.kmalloc thread_stack_size m.heap ≡ (stack, heap)
      → stack ≢ 0
      → thread_create alloc trampoline name entry arg m
        ≡ build_thread alloc trampoline t name entry arg stack (record m { heap = heap })
  unfolding thread_create in_slot with_stack
  with_slot m t stack heap slot got ne =
      let nz : (stack == 0) ≡ false = ground arith in
      ap (λ o. in_slot alloc trampoline o name entry arg m) slot
      ∙ ap (λ r. with_stack alloc trampoline t name entry arg r m) got
      ∙ simp nz

  -- `thread_create` while the scheduler runs: if slot `t` is the first that is unused and the heap
  -- has a stack, it returns the next id, and the new thread is ready at the end of the queue with
  -- the frame that the first switch to it needs.
  pub thread_create-Created :
      (m : Machine H) (t stack : ℕ) (heap : H) {c : ℕ} {l : List ℕ}
      → Scheduled m.kernel c l
      → find_unused max_threads 0 m.kernel.threads ≡ some t
      → alloc.kmalloc thread_stack_size m.heap ≡ (stack, heap)
      → stack ≢ 0
      → (m' : Machine H) × (thread_create alloc trampoline name entry arg m
          ≡ some (some m.kernel.next_id, m'))
        × Created trampoline entry arg stack t c l m'
  unfolding installed set_thread
  thread_create-Created m t stack heap {c} {l} s slot got ne =
      let k = m.kernel in
      let th = new_thread k.next_id name entry arg stack in
      let (small, free) = free_slot max_threads 0 k.threads slot in
      let v = installed-IsQueue t th s.queue (slot_outside s free).0 in
      let (k', e, a) =
        sched_add-Added t (installed t th k) (omega arith) v (slot_outside s free).0 in
      let top = align_16 (stack + thread_stack_size) in
      let (return_to, arg_slot, entry_slot) =
        frame_slots top entry arg trampoline m.memory (omega arith) in
      (
        record {
          kernel = k';
          heap = heap;
          memory = push_all top (first_frame entry arg trampoline) m.memory;
        },
        with_slot m t stack heap slot got ne
            ∙ build_thread-ok t stack (record m { heap = heap }) k' e,
        record {
          scheduled = installed-Scheduled th s free refl a;
          rsp = rsp-Relinked a.relinked t ∙ ground arith;
          inside = omega arith;
          return_to = return_to;
          arg_slot = arg_slot;
          entry_slot = entry_slot;
        },
      )

  -- With no slot unused, or no stack, `thread_create` returns -1 and leaves the scheduler alone.
  pub thread_create_fails :
      (m : Machine H)
      → (find_unused max_threads 0 m.kernel.threads ≡ none)
        ⊎ ((alloc.kmalloc thread_stack_size m.heap).0 ≡ 0)
      → (m' : Machine H) × (thread_create alloc trampoline name entry arg m ≡ some (none, m'))
        × (m'.kernel ≡ m.kernel)
        × (m'.memory ≡ m.memory)
  unfolding thread_create in_slot with_stack
  thread_create_fails m (inl full) =
      (m, ap (λ o. in_slot alloc trampoline o name entry arg m) full, refl, refl)
  thread_create_fails m (inr poor) =
      elim (Option-cases (find_unused max_threads 0 m.kernel.threads)) [
        | inl full ↦ (m, ap (λ o. in_slot alloc trampoline o name entry arg m) full, refl, refl)
        | inr (t, slot) ↦
            let r = alloc.kmalloc thread_stack_size m.heap in
            let nothing : (r.0 == 0) ≡ true = ground arith in
            (
              record m { heap = r.1 },
              ap (λ o. in_slot alloc trampoline o name entry arg m) slot ∙ simp nothing,
              refl,
              refl,
            )
      ]
