-- ===== src/Process.antt =====
-- process/process.c and process/scheduler.c: the process table, the ready queues, the scheduler and
-- the life of a process. The children Table, Ready, Schedule and Lifecycle hold the code, the others
-- what is proved of it.
pub mod Table
pub mod Chains
pub mod Ready
pub mod Schedule
pub mod Lifecycle
mod Tests
