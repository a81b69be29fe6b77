-- ===== src/Sched/State.antt =====
-- kernel/include/gw/thread.h, kernel/sched/sched.c: the threads, the run queue and the scheduler.
-- A `thread_t *` is the index of a slot of `thread_pool`, or `idle` for `idle_thread`; NULL is
-- `none`. The run queue is linked through the `next` fields, as in the code.
use gnuwindows.Base.{
  ℕ, zero, suc, ◌+◌, ◌-◌, ◌%◌, ◌^◌, Bool, true, false, Option, none, some, List, ◌==◌,
  if◌then◌else◌, ◌&&◌, not, ◌>>=◌,
}

pub data ThreadState : Type 0 where
  unused ready running blocked dead : ThreadState

pub record Thread : Type 0 where
  pub id : ℕ
  pub state : ThreadState
  pub name : List ℕ
  pub entry : ℕ
  pub arg : ℕ
  pub rsp : ℕ
  pub stack_top : ℕ
  pub stack_base : ℕ
  pub next : Option ℕ

abbrev pub max_threads : ℕ
max_threads = 16

abbrev pub idle : ℕ
idle = 16

-- The statics of both files, and the stack pointer of the processor.
pub record Kernel : Type 0 where
  pub threads : ℕ → Thread
  pub run_queue : Option ℕ
  pub sched_started : Bool
  pub current : Option ℕ
  pub next_id : ℕ
  pub rsp : ℕ

abbrev pub is_ready : ThreadState → Bool
is_ready ThreadState.ready = true
is_ready _ = false

abbrev pub is_running : ThreadState → Bool
is_running ThreadState.running = true
is_running _ = false

abbrev pub is_unused : ThreadState → Bool
is_unused ThreadState.unused = true
is_unused _ = false

unfoldable pub set_thread : ℕ → Thread → Kernel → Kernel
set_thread t th k = record k { threads = λ u. if u == t then th else k.threads u }

-- `t->next = n`
unfoldable pub set_next : ℕ → Option ℕ → Kernel → Kernel
unfolding set_thread
set_next t n k = set_thread t (record (k.threads t) { next = n }) k

-- `t->state = st`
unfoldable pub set_state : ℕ → ThreadState → Kernel → Kernel
unfolding set_thread
set_state t st k = set_thread t (record (k.threads t) { state = st }) k

-- `while (p->next) p = p->next;`
unfoldable pub last_from : ℕ → ℕ → Kernel → Option ℕ
last_from zero p k = none
last_from (suc fuel) p k = elim ((k.threads p).next) [ none ↦ some p | some q ↦ last_from fuel q k ]

-- `p->next = t` at the last thread `p` of a queue that is not empty
unfoldable pub append_after : ℕ → ℕ → Kernel → Option Kernel
append_after first t k = do p ← last_from (max_threads + 1) first k; some (set_next p (some t) k)

unfoldable pub add_at : Option ℕ → ℕ → Kernel → Option Kernel
add_at none t k = some (record k { run_queue = some t })
add_at (some first) t k = append_after first t k

unfoldable pub sched_add : ℕ → Kernel → Option Kernel
sched_add t k = let k' = set_next t none k in add_at k'.run_queue t k'

unfoldable pub dequeue_at : Option ℕ → Kernel → Option ℕ × Kernel
dequeue_at none k = (none, k)
dequeue_at (some t) k = (some t, set_next t none (record k { run_queue = (k.threads t).next }))

unfoldable pub dequeue : Kernel → Option ℕ × Kernel
dequeue k = dequeue_at k.run_queue k

-- A round of the loop of `sched_pick_next`, after `dequeue`: a thread that is not ready is dropped.
unfoldable pub pick_step : (Kernel → Option ℕ × Kernel) → Option ℕ × Kernel → Option ℕ × Kernel
pick_step again (none, k) = (none, k)
pick_step again (some t, k) = elim (is_ready (k.threads t).state) [
  | true ↦ (some t, k)
  | false ↦ again k
]

-- `while (scanned < MAX_THREADS)`, with the rounds left
unfoldable pub pick_loop : ℕ → Kernel → Option ℕ × Kernel
pick_loop zero k = (none, k)
pick_loop (suc rounds) k = pick_step (pick_loop rounds) (dequeue k)

unfoldable pub sched_pick_next : Kernel → Option ℕ × Kernel
sched_pick_next k = pick_loop max_threads k

unfoldable pub save_rsp : Option ℕ → ℕ → Kernel → Kernel
unfolding set_thread
save_rsp none out k = k
save_rsp (some t) out k = set_thread t (record (k.threads t) { rsp = out }) k

-- A call of `context_switch` of switch.S, from the stack pointer `k.rsp` of the caller: the call
-- pushes the return address, six registers are pushed, and the stack pointer is stored at
-- `*old_rsp` (`none` is a local that is thrown away); on the new stack six are popped and `ret`
-- takes the address.
unfoldable pub context_switch : Option ℕ → ℕ → Kernel → Kernel
unfolding save_rsp
context_switch save new_rsp k = record (save_rsp save ((k.rsp + 2 ^ 64 - 56) % 2 ^ 64) k) {
  rsp = (new_rsp + 56) % 2 ^ 64;
}

-- `cur && cur != &idle_thread`
abbrev pub is_proper : Option ℕ → Bool
is_proper none = false
is_proper (some c) = not (c == idle)

-- `cur->state == THREAD_RUNNING`, for a thread pointer that is not NULL
abbrev pub runs : Option ℕ → Kernel → Bool
runs none k = false
runs (some c) k = is_running (k.threads c).state

-- the running thread goes to the end of the queue
unfoldable pub requeue : Option ℕ → Kernel → Option Kernel
requeue none k = some k
requeue (some c) k = sched_add c (set_state c ThreadState.ready k)

-- `next->state = THREAD_RUNNING; thread_set_current(next);` and the switch
unfoldable pub run_thread : Option ℕ → ℕ → Kernel → Kernel
run_thread save next k =
    let k' = record (set_state next ThreadState.running k) { current = some next } in
    context_switch save (k'.threads next).rsp k'

abbrev pub is_same : Option ℕ → ℕ → Bool
is_same none t = false
is_same (some c) t = c == t

-- `sched_on_timer` from the point where `next` is known not to be NULL
unfoldable pub switch_to : Option ℕ → ℕ → Kernel → Option Kernel
switch_to cur next k = if is_same cur next then some k else do
  k' ← (if is_proper cur && runs cur k then requeue cur k else some k)
  some (run_thread (if is_proper cur then cur else none) next k')

unfoldable pub after_pick : Option ℕ → Option ℕ × Kernel → Option Kernel
after_pick cur (none, k) = some k
after_pick cur (some next, k) = switch_to cur next k

unfoldable pub sched_on_timer : Kernel → Option Kernel
sched_on_timer k = if not k.sched_started then some k else after_pick k.current (sched_pick_next k)

unfoldable pub start_first : Option ℕ × Kernel → Option Kernel
start_first (none, k) = none
start_first (some next, k) = some (run_thread none next k)

-- With no thread to run the processor halts for ever.
unfoldable pub sched_start : Kernel → Option Kernel
unfolding start_first
sched_start k = start_first (sched_pick_next (record k { sched_started = true }))
