-- ===== src/Scheduler.antt =====
-- worker/scheduler: the capture scheduler that decides which trading dates to capture, and when.
pub mod Schedule
pub mod Planner
pub mod Wakeup
