-- ===== src/Lib.antt =====
-- MOS, a small real-time operating system for Cortex-M: the containers, the kernel's tasks, its
-- scheduler, and what tasks synchronise by.
--
-- The parts of the program and the files that model them:
-- * kernel/data_type/queue.hpp (QueueImpl_t, Queue_t): DataType/Queue. The record has the three indices
--   and the array; `push`, `pop`, `serve`, `iter` and the others are the members of the same names.
-- * kernel/data_type/list.hpp (ListNode_t, ListImpl_t): DataType/LinkedList, with the pointers of every
--   node as two functions on addresses. DataType/Sequence has the sequences of nodes that they stand for.
-- * kernel/data_type/bitmap.hpp (BitMap_t): DataType/BitMap, words of 32 bits.
-- * kernel/data_type/tcb.hpp and kernel/global.hpp (TCB_t, TcbList_t, DebugTcbs_t and the global
--   variables): Kernel/State. The record `Kernel` is the whole state: the TCBs by address, the task
--   lists, cur_tcb, os_ticks, the bitmap of task numbers, the table of debugged tasks, the PendSV bit
--   and the interrupt mask. A task list is the sequence of its nodes, as DataType/LinkedList shows of
--   the list in memory, beside the counter `len`; removing a task unlinks it from whichever list it is
--   in and counts down the list that is named, as the code does. `empty()` reads the counter (`is_empty`),
--   `begin()` the nodes (`begin_of`).
-- * kernel/task.hpp (namespace Task): Kernel/Task, one function for each operation, of the same name.
--   Kernel/Task/Create has the functions that allocate the page first, on the memory of
--   DataType/LinkedList.
--   Kernel/Task/Numbers is about the numbers of tasks, with their invariant in Kernel/State/Tids, and
--   Kernel/Task/Recycle about the tasks that have ended, whose pages `recycle` gives back to a `Heap`
--   of pages. `create_raw` asserts that its function is not null; the function is a number, and the
--   stack that `load_context` writes for it is in Kernel/Page.
-- * kernel/data_type/page.hpp, `load_context` of kernel/task.hpp and the setters and usage figures of
--   TCB_t: Kernel/Page. The memory is a function on addresses of words.
-- * kernel/scheduler.hpp (next_tcb, launch, the handlers): Kernel/Scheduler. Kernel/Scheduler/Turns puts the
--   tick handler and the context switch that it asks for together. SuspendGuard_t has a state of its
--   own in Kernel/Scheduler/Suspend.
-- * kernel/sync.hpp (Sema_t, Lock_t, MutexImpl_t, CondVar_t, Barrier_t): Kernel/Sync. They call
--   `block_to_raw` and `resume_raw` of Kernel/Task with their own waiting list, which is one more
--   number among the kernel's lists. Kernel/Sync/Mutex/Hold has `hold` and the guard of Mutex_t.
--   `Barrier_t::wait` is `enter`, and `wait_round` where the task waits; Kernel/Sync/Barrier/Release
--   composes the arrivals of several tasks (`gather`).
-- * kernel/ipc.hpp (MsgQueue_t): Kernel/Ipc. `send` and `recv` are the calls up to the point where the
--   task waits, `send_again` and `recv_again` what it does when it runs again. The message of a result
--   of `recv` is `none` for TimeOut.
-- * kernel/alloc.hpp (palloc): Kernel/Alloc, on the memory of DataType/LinkedList; what `new` returns is
--   a parameter.
-- * kernel/data_type/buffer.hpp (Buffer_t): DataType/Buffer. SyncRxBuf_t is in Kernel/Sync/RxBuf.
-- * kernel/async.hpp (Executor, FixedFn_t): Async. A posted function is of a type that is a parameter, as is what it
--   does; the vector of the ETL is a list and its priority queue a record of operations.
--   Async/Coroutine has Promise_t, Future_t and CallbackAwaiter. A coroutine is given as data, its
--   frames are a map from handles, and one step runs it to its next suspension point.
-- * shell.hpp (Command_t::match, the commands on tasks, uname, the parser): Shell.
-- * kernel/utils.hpp (strlen, strcmp, strncmp, memcpy, memset, the literals, IrqGuard_t, Range): Utils.
-- * Kernel/System puts the operations of tasks, scheduler and semaphores together as one step
--   relation. Each step names what its caller has to see to. Mutexes are no steps, since inheritance
--   leaves the ready list out of order.
--
-- How they interact: an operation of Kernel/Task or Kernel/Sync changes the lists and may set the
-- PendSV bit (`yield`); the handler of that interrupt calls `next_tcb`, which wakes the sleepers that
-- are due and picks the next task. `IrqGuard_t` makes the body of an operation one step of the model.
-- A failed MOS_ASSERT, and a use of the end of an empty list as a task, is `none`.
--
-- Numbers: unsigned members wrap at 2 ^ 32. An `int8_t` priority is kept as its value plus 128 and an
-- `int32_t` count as its value plus 2 ^ 31, so that the order of the numbers is the signed order.
--
-- Bounds and fuel: the loops of `wake_up_sleeper`, `notify_all`, `recycle`, `insert_in_order` and
-- the `iter` functions recurse on fuel; one round more than the list has nodes is enough, which the
-- results on these loops state. The loops of `notify_all` and `recycle` test the counter, which
-- wraps at 2 ^ 32, and their results ask for fewer nodes than that. `next_tcb` gives that much
-- itself. `clean_sleepers` needs one round more than the queue has elements. The theorems on the
-- ring ask for a capacity below 2 ^ 32, which the type of the template parameter gives.
--
-- Kernel/State/Invariant has the invariant of the kernel: a task is in one list at most and once, each
-- counter is the length of its list modulo 2 ^ 32, the status of a task goes with its list, every
-- runnable task is in the ready list and only the current one is running, the ready list is sorted by
-- priority and the sleepers by wake point. Priority inheritance can leave the ready list unsorted;
-- Kernel/Sync/Placed has the rest of the invariant, which the mutex keeps.
--
-- Not modelled: the context switch and the handlers' assembly (arch/), the printing of tasks, the
-- copy of a printf library (kernel/printf.c), the system call stubs (kernel/syscall.c), the concepts
-- (kernel/concepts.hpp), the other commands of the shell that only print, and the pool from which the
-- frames of coroutines are allocated.
pub mod Prelude
pub mod DataType
pub mod Utils
pub mod Kernel
pub mod Shell
pub mod Tests
pub mod Async
