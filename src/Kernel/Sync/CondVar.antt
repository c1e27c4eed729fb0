-- ===== src/Kernel/Sync/CondVar.antt =====
-- kernel/sync.hpp, `CondVar_t`. `wait` is `unlock` of the mutex, then `check` each time the task runs,
-- and `lock` when the predicate has held.
pub mod Broadcast
use mos_core.Prelude.{ℕ, zero, suc, Bool, Option, none, some, if◌then◌else◌}
use mos_core.Kernel.State.{Kernel, is_empty, begin_of, yield}
use mos_core.Kernel.Task.{block_to_raw, resume_raw}
use mos_core.Kernel.Sync.Mutex.{MutexImpl, lock}

unfoldable pub block_this : Kernel → (waiting_list : ℕ) → Kernel
unfolding block_to_raw
block_this k waiting_list = yield (block_to_raw k k.cur_tcb waiting_list)

-- One round of the loop of `wait`: with the predicate false the task waits again.
unfoldable pub check :
    Kernel → MutexImpl → (waiting_list : ℕ) → (pred : Bool) → Option (Kernel × MutexImpl)
unfolding lock block_this
check k m waiting_list pred = if pred then lock k m else some (block_this k waiting_list, m)

-- `has_waiters` reads the counter; `begin()` of a list without nodes is no task.
unfoldable pub notify : Kernel → (waiting_list : ℕ) → Option Kernel
unfolding resume_raw
notify k waiting_list =
    if is_empty k waiting_list then some (yield k) else elim (begin_of k waiting_list) [
      | none ↦ none
      | some t ↦ some (yield (resume_raw k t waiting_list))
    ]

-- The loop of `notify_all`; `none` when the fuel runs out.
unfoldable pub wake_all : ℕ → Kernel → (waiting_list : ℕ) → Option Kernel
wake_all zero k waiting_list = none
wake_all (suc fuel) k waiting_list =
    let rest : Option Kernel = elim (begin_of k waiting_list) [
      | none ↦ none
      | some t ↦ wake_all fuel (resume_raw k t waiting_list) waiting_list
    ] in
    if is_empty k waiting_list then some k else rest

unfoldable pub notify_all : ℕ → Kernel → (waiting_list : ℕ) → Option Kernel
notify_all fuel k waiting_list = elim (wake_all fuel k waiting_list) [
  | none ↦ none
  | some k1 ↦ some (yield k1)
]
