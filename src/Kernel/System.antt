-- ===== src/Kernel/System.antt =====
-- The kernel as a whole: the operations of kernel/task.hpp, the tick and the context switch of
-- kernel/scheduler.hpp and the semaphores of kernel/sync.hpp, in any order.
pub mod Sound
pub mod Reachable
pub mod Preemption
use mos_core.Prelude.{ℕ, ◌≡◌, ◌≢◌, true, false, Option, some, leb}
use mos_core.DataType.Sequence.{has}
use mos_core.Kernel.State.{
  Status, blocked, terminated, PagePolicy, Kernel, nodes_of, status_of, is_status, task_max,
}
use mos_core.Kernel.State.Lists.{Homeless}
use mos_core.Kernel.State.Invariant.{is_runnable}
use mos_core.Kernel.Task.{
  block_to, delay, resume, resume_from_isr, change_pri, terminate, home_guess, create_raw,
}
use mos_core.Kernel.Task.Block.{IsQueue}
use mos_core.Kernel.Sync.Sema.{Sema, down, up, up_raw}
use mos_core.Kernel.Scheduler.{next_tcb, preempt_pri, sys_tick}

-- One operation on the kernel that succeeds, with what its caller has to see to. The idle task is
-- neither blocked nor ended. A task that waits on a semaphore is not in the list that `terminate` takes
-- it from, which is why the list is asked for. Mutexes are no steps: by inheritance they leave the
-- ready list out of order.
pub data Step (idle : ℕ) (k : Kernel) : Kernel → Type 0 where
  blocking :
      {k' : Kernel} (t dest : ℕ)
      → block_to k t dest ≡ some k'
      → t ≢ 0
      → t ≢ idle
      → is_runnable (status_of k t) ≡ true
      → IsQueue dest
      → Step idle k k'
  delaying :
      {k' : Kernel} (ticks : ℕ)
      → delay k ticks ≡ some k'
      → k.cur_tcb ≢ 0
      → k.cur_tcb ≢ idle
      → is_runnable (status_of k k.cur_tcb) ≡ true
      → Step idle k k'
  resuming :
      {k' : Kernel} (t src : ℕ)
      → resume k t src ≡ some k'
      → t ≢ 0
      → status_of k t ≡ blocked
      → has t (nodes_of k src) ≡ true
      → Step idle k k'
  resuming_from_isr :
      {k' : Kernel} (t src : ℕ)
      → resume_from_isr k t src ≡ some k'
      → t ≢ 0
      → status_of k t ≡ blocked
      → has t (nodes_of k src) ≡ true
      → Step idle k k'
  changing_pri :
      {k' : Kernel} (t pri : ℕ)
      → change_pri k t pri ≡ some k'
      → is_runnable (status_of k t) ≡ true
      → Step idle k k'
  terminating :
      {k' : Kernel} (t : ℕ)
      → terminate k t ≡ some k'
      → t ≢ 0
      → t ≢ idle
      → is_status (status_of k t) terminated ≡ false
      → has t (nodes_of k (home_guess (k.tcbs t))) ≡ true
      → Step idle k k'
  creating :
      {k' : Kernel} (fn pri page : ℕ) (policy : PagePolicy)
      → create_raw k fn pri policy page ≡ some (page, k')
      → fn ≢ 0
      → page ≢ 0
      → leb task_max k.debug_len ≡ false
      → Homeless k.lists page
      → Step idle k k'
  switching : {k' : Kernel} → next_tcb preempt_pri k ≡ some k' → Step idle k k'
  downing :
      {k' : Kernel} (sem : Sema) {sem' : Sema}
      → down k sem ≡ some (k', sem')
      → k.cur_tcb ≢ idle
      → is_runnable (status_of k k.cur_tcb) ≡ true
      → IsQueue sem.waiting_list
      → Step idle k k'
  upping : {k' : Kernel} (sem : Sema) {sem' : Sema} → up k sem ≡ some (k', sem') → Step idle k k'
  upping_from_isr :
      {k' : Kernel} (sem : Sema) {sem' : Sema} → up_raw k sem ≡ some (k', sem') → Step idle k k'
  ticking : Step idle k (sys_tick k)

-- Any number of operations.
pub data Reach (idle : ℕ) (k : Kernel) : Kernel → Type 0 where
  start : Reach idle k k
  then_step : {k' k'' : Kernel} → Reach idle k k' → Step idle k' k'' → Reach idle k k''
