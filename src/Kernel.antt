-- ===== src/Kernel.antt =====
-- kernel: tasks, the scheduler, and what tasks synchronise by.
pub mod State
pub mod Task
pub mod Scheduler
pub mod Alloc
pub mod Page
pub mod Sync
pub mod Ipc
pub mod System
