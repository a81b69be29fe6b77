-- ===== src/Sched.antt =====
-- kernel/sched/sched.c and kernel/sched/thread.c: cooperative threads, scheduled round robin.
pub mod State
pub mod Queue
pub mod Add
pub mod Pick
pub mod Switch
pub mod Turn
pub mod Start
pub mod Threads
pub mod Frame
pub mod Create
pub mod Rounds
pub mod Exit
mod Tests
