-- ===== src/Sched/Tests.antt =====
-- kernel/sched: three threads, and the theorems at them.
use gnuwindows.Base.{
  ℕ, ◌+◌, ◌*◌, ◌≡◌, refl, true, Option, none, some, [], ◌∷◌, arith, ◌==◌, if◌then◌else◌,
}
use gnuwindows.Sched.State.{
  ThreadState, Thread, Kernel, idle, max_threads, sched_add, sched_on_timer, sched_pick_next,
}
use gnuwindows.Sched.Queue.{end, link}
use gnuwindows.Sched.Add.{Added, sched_add-Added}
use gnuwindows.Sched.Pick.{Picked, sched_pick_next-Picked}
use gnuwindows.Sched.Switch.{Scheduled}
use gnuwindows.Sched.Turn.{Turn, sched_on_timer-Turn, sched_on_timer-alone}
use gnuwindows.Sched.Rounds.{turns, turns-reach}
use gnuwindows.Sched.Threads.{Allocator, Machine, thread_create, thread_exit, find_unused}
use gnuwindows.Sched.Create.{Created, thread_create-Created}
use gnuwindows.Sched.Exit.{thread_exit-Scheduled}

abbrev thread : ThreadState → ℕ → Option ℕ → Thread
thread st id next = record {
  id = id;
  state = st;
  name = [];
  entry = 0;
  arg = 0;
  rsp = 0x1000 * id;
  stack_top = 0x1000 * id + 0x800;
  stack_base = 0x1000 * id;
  next = next;
}

-- Threads 0, 1 and 2 of the pool: 0 runs, 1 and 2 wait.
abbrev pool : ℕ → Thread
pool t =
    if t == 0
    then thread ThreadState.running 1 none
    else if t == 1
    then thread ThreadState.ready 2 (some 2)
    else if t == 2
    then thread ThreadState.ready 3 none
    else thread ThreadState.unused 0 none

abbrev kernel : Kernel
kernel = record {
  threads = pool;
  run_queue = some 1;
  sched_started = true;
  current = some 0;
  next_id = 4;
  rsp = 0x1800;
}

kernel-Scheduled : Scheduled kernel 0 (1 ∷ 2 ∷ [])
kernel-Scheduled = record {
  queue = record {
    chain = link refl (link refl end);
    distinct = (refl, (refl, tt));
    slots = (omega arith, (omega arith, tt));
  };
  started = refl;
  current = refl;
  running = refl;
  ready = λ t h. ground arith;
  outside = refl;
}

-- The idle thread runs, and 1 and 2 wait.
abbrev idling : Kernel
idling = record kernel {
  threads = λ t. if t == idle then thread ThreadState.running 0 none else pool t;
  current = some idle;
}

idling-Scheduled : Scheduled idling idle (1 ∷ 2 ∷ [])
idling-Scheduled = record {
  queue = record {
    chain = link refl (link refl end);
    distinct = (refl, (refl, tt));
    slots = (omega arith, (omega arith, tt));
  };
  started = refl;
  current = refl;
  running = refl;
  ready = λ t h. ground arith;
  outside = refl;
}

-- Thread 0 runs alone.
abbrev alone : Kernel
alone = record kernel { run_queue = none }

alone-Scheduled : Scheduled alone 0 []
alone-Scheduled = record {
  queue = record { chain = end; distinct = tt; slots = tt };
  started = refl;
  current = refl;
  running = refl;
  ready = λ t h. ground arith;
  outside = refl;
}

add_example : (k' : Kernel) × (sched_add 5 kernel ≡ some k') × Added 5 (1 ∷ 2 ∷ []) kernel k'
add_example = sched_add-Added 5 kernel (omega arith) kernel-Scheduled.queue refl

pick_example : Picked kernel (1 ∷ 2 ∷ []) (sched_pick_next kernel)
pick_example = sched_pick_next-Picked kernel kernel-Scheduled.queue

switch_example : (k' : Kernel) × (sched_on_timer kernel ≡ some k') × Turn kernel 0 1 (2 ∷ 0 ∷ []) k'
switch_example = sched_on_timer-Turn kernel-Scheduled (omega arith)

alone_example : sched_on_timer alone ≡ some alone
alone_example = sched_on_timer-alone alone-Scheduled

reach_example : (k' : Kernel) × (turns 2 kernel ≡ some k') × Scheduled k' 2 (0 ∷ 1 ∷ [])
reach_example = turns-reach (1 ∷ []) [] 2 kernel-Scheduled (omega arith)

exit_example :
    (k' : Kernel) × (thread_exit kernel ≡ some k')
    × Scheduled k' 1 (2 ∷ [])
    × ((k'.threads 0).state ≡ ThreadState.dead)
exit_example = thread_exit-Scheduled kernel-Scheduled (omega arith)

-- a heap that hands out one stack after another
abbrev bump : Allocator ℕ
bump = record { kmalloc = λ size top. (top, top + size); kfree = λ at top. top }

abbrev machine : Machine ℕ
machine = record { kernel = kernel; heap = 0x20000; memory = λ a. 0 }

slot_3 : find_unused max_threads 0 pool ≡ some 3
unfolding find_unused
slot_3 = refl

create_example :
    (m' : Machine ℕ) × (thread_create bump 0x500 none 0x1234 7 machine ≡ some (some 4, m'))
    × Created 0x500 0x1234 7 0x20000 3 0 (1 ∷ 2 ∷ []) m'
create_example =
    thread_create-Created bump 0x500 none 0x1234 7 machine 3 0x20000 0x22000 kernel-Scheduled slot_3
      refl (omega arith)
