-- ===== src/Kernel/Sync.antt =====
-- kernel/sync.hpp: semaphores, locks, mutexes, condition variables and barriers.
-- `IrqGuard_t` makes an operation one step. An operation in which a task waits is two: the second
-- one is what the task does when it runs again.
pub mod Placed
pub mod RxBuf
pub mod Sema
pub mod Lock
pub mod Mutex
pub mod CondVar
pub mod Barrier
