-- ===== src/WorkQueue.antt =====
-- The master of queue/cctools/work_queue/src/work_queue.c and the resources that it accounts for.
pub mod Resources
pub mod Task
pub mod Transfer
pub mod Submit
pub mod Start
pub mod Receive
pub mod Cancel
pub mod Wait
pub mod Join
pub mod Release
pub mod Steps
pub mod Aggregate
pub mod Failure
pub mod Master
pub mod Accounting
pub mod Cleanup
pub mod Commit
pub mod Admit
pub mod Places
pub mod Schedule
