-- ===== src/Sched.antt =====
-- The scheduler: kernel/scheduler/scheduler.c and the changes of state of kernel/processes/threads.c.
pub mod Start
pub mod State
pub mod FastQueue
pub mod RunQueue
pub mod Tests
pub mod Threads
pub mod Timers
