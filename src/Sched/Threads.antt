-- ===== src/Sched/Threads.antt =====
-- kernel/sched/thread.c and kernel/arch/x86_64/cpu/timer.c: creating, leaving and ending threads,
-- and the flag by which the timer asks for a switch. The kernel heap is a parameter.
use gnuwindows.Base.{
  ℕ, zero, suc, ◌+◌, ◌-◌, ◌%◌, ◌^◌, Bool, true, false, Option, none, some, List, [], ◌∷◌, take,
  ◌==◌, ltb, leb, if◌then◌else◌, ◌||◌, not, ◌>>=◌, Memory, write64,
}
use gnuwindows.Sched.State.{
  ThreadState, Thread, Kernel, max_threads, idle, is_unused, set_thread, set_state, sched_add,
  sched_on_timer,
}

abbrev pub thread_stack_size : ℕ
thread_stack_size = 8192

abbrev pub thread_name_max : ℕ
thread_name_max = 24

-- `name_copy`: at most 23 characters, "?" for NULL. The text is given without its final 0.
unfoldable pub name_copy : Option (List ℕ) → List ℕ
name_copy none = b'?' ∷ []
name_copy (some src) = take (thread_name_max - 1) src

-- `kmalloc` and `kfree` on the state of the heap
pub record Allocator (H : Type 0) : Type 0 where
  pub kmalloc : ℕ → H → ℕ × H
  pub kfree : ℕ → H → H

pub record Machine (H : Type 0) : Type 0 where
  pub kernel : Kernel
  pub heap : H
  pub memory : Memory

-- the first slot that is unused, from slot `i` on
unfoldable pub find_unused : ℕ → ℕ → (ℕ → Thread) → Option ℕ
find_unused zero i pool = none
find_unused (suc n) i pool = elim (is_unused (pool i).state) [
  | true ↦ some i
  | false ↦ find_unused n (i + 1) pool
]

abbrev pub align_16 : ℕ → ℕ
align_16 sp = sp - sp % 16

-- `*(--sp) = v` for each value in turn
unfoldable pub push_all : ℕ → List ℕ → Memory → Memory
push_all sp [] mem = mem
push_all sp (v ∷ vs) mem = push_all (sp - 8) vs (write64 (sp - 8) v mem)

-- The first frame of a thread: for `context_switch` six registers and the address to return to,
-- above them the argument and the entry for `thread_trampoline`.
abbrev pub first_frame : ℕ → ℕ → ℕ → List ℕ
first_frame entry arg trampoline = entry ∷ arg ∷ trampoline ∷ 0 ∷ 0 ∷ 0 ∷ 0 ∷ 0 ∷ 0 ∷ []

-- the stack pointer after the nine pushes
abbrev pub first_rsp : ℕ → ℕ
first_rsp stack = align_16 (stack + thread_stack_size) - 72

abbrev pub new_thread : ℕ → Option (List ℕ) → ℕ → ℕ → ℕ → Thread
new_thread id name entry arg stack = record {
  id = id;
  state = ThreadState.ready;
  name = name_copy name;
  entry = entry;
  arg = arg;
  rsp = first_rsp stack;
  stack_top = stack + thread_stack_size;
  stack_base = stack;
  next = none;
}

module _ {H : Type 0} (alloc : Allocator H) (trampoline : ℕ) where
  -- `thread_create` with the slot `t` and the stack that `kmalloc` has returned
  unfoldable pub build_thread :
      ℕ → Option (List ℕ) → ℕ → ℕ → ℕ → Machine H → Option (Option ℕ × Machine H)
  build_thread t name entry arg stack m =
      let k = m.kernel in
      let k' = record (set_thread t (new_thread k.next_id name entry arg stack) k) {
        next_id = k.next_id + 1;
      } in
      let mem' =
        push_all (align_16 (stack + thread_stack_size)) (first_frame entry arg trampoline)
          m.memory in
      if ltb (first_rsp stack) stack || leb (stack + thread_stack_size) (first_rsp stack)
      then some (
        none,
        record {
          kernel = set_state t ThreadState.unused k';
          heap = alloc.kfree stack m.heap;
          memory = mem';
        },
      )
      else do
        added ← sched_add t k'
        some (some k.next_id, record { kernel = added; heap = m.heap; memory = mem' })

  unfoldable pub with_stack :
      ℕ → Option (List ℕ) → ℕ → ℕ → ℕ × H → Machine H → Option (Option ℕ × Machine H)
  with_stack t name entry arg (stack, heap) m =
      let m' = record m { heap = heap } in
      if stack == 0 then some (none, m') else build_thread t name entry arg stack m'

  unfoldable pub in_slot :
      Option ℕ → Option (List ℕ) → ℕ → ℕ → Machine H → Option (Option ℕ × Machine H)
  in_slot none name entry arg m = some (none, m)
  in_slot (some t) name entry arg m =
      with_stack t name entry arg (alloc.kmalloc thread_stack_size m.heap) m

  -- `thread_create`; the result is the new thread's id, or `none` for -1
  unfoldable pub thread_create : Option (List ℕ) → ℕ → ℕ → Machine H → Option (Option ℕ × Machine H)
  thread_create name entry arg m =
      in_slot (find_unused max_threads 0 m.kernel.threads) name entry arg m

unfoldable pub thread_yield : Kernel → Option Kernel
thread_yield k = sched_on_timer k

-- `timer_handler` counts a tick and asks for a switch; `timer_need_resched` takes the request back.
pub record Timer : Type 0 where
  pub ticks : ℕ
  pub need_resched : Bool

unfoldable pub timer_init : Timer
timer_init = record { ticks = 0; need_resched = false }

unfoldable pub timer_handler : Timer → Timer
timer_handler t = record { ticks = (t.ticks + 1) % 2 ^ 64; need_resched = true }

unfoldable pub timer_need_resched : Timer → Bool × Timer
timer_need_resched t = (t.need_resched, record t { need_resched = false })

-- `thread_current()` has a stack
abbrev pub has_stack : Option ℕ → Kernel → Bool
has_stack none k = false
has_stack (some c) k = not ((k.threads c).stack_base == 0)

resched_if : Bool → Kernel → Option Kernel
resched_if true k = sched_on_timer k
resched_if false k = some k

unfoldable pub thread_maybe_yield : Kernel → Timer → Option (Kernel × Timer)
unfolding resched_if
thread_maybe_yield k timer =
    if not (has_stack k.current k)
    then some (k, timer)
    else do k' ← resched_if (timer_need_resched timer).0 k; some (k', (timer_need_resched timer).1)

unfoldable pub mark_dead : Option ℕ → Kernel → Kernel
mark_dead none k = k
mark_dead (some t) k = set_state t ThreadState.dead k

-- `thread_exit` up to its first `sched_on_timer`; while no thread is ready it halts and tries again.
unfoldable pub thread_exit : Kernel → Option Kernel
unfolding mark_dead
thread_exit k = sched_on_timer (mark_dead k.current k)

-- `thread_init_idle`, called by `sched_init` on `idle_thread`
unfoldable pub thread_init_idle : Kernel → Kernel
thread_init_idle k = record k {
  threads = λ t.
      if t == idle
      then record (k.threads t) {
        id = 0;
        state = ThreadState.running;
        name = name_copy (some (b'i' ∷ b'd' ∷ b'l' ∷ b'e' ∷ []));
        rsp = 0;
        stack_base = 0;
        next = none;
      }
      else if ltb t max_threads
      then record (k.threads t) { state = ThreadState.unused }
      else k.threads t;
  current = some idle;
}

unfoldable pub sched_init : Kernel → Kernel
sched_init k = thread_init_idle (record k { run_queue = none; sched_started = false })
