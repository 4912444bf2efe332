-- ===== src/Tasks.antt =====
-- internal/tasks: the schedules of the background tasks, and their scheduler.
pub mod Schedule
pub mod Scheduler
pub mod Rename
