-- ===== src/Kernel/Sync/Barrier.antt =====
-- kernel/sync.hpp, `Barrier_t`. `wait` is `lock` of the mutex and `arrive`; a task that is not the
-- last one waits in `wait_round` for a new generation, and `unlock` ends `hold`.
pub mod Release
use mos_core.Prelude.{ℕ, Bool, not, Option, none, some, ◌==◌, if◌then◌else◌}
use mos_core.Kernel.State.{Kernel}
use mos_core.Kernel.Sync.Sema.{null_count, inc}
use mos_core.Kernel.Sync.Mutex.{MutexImpl, lock, unlock}
use mos_core.Kernel.Sync.CondVar.{check, notify_all}

-- `cv` is the number of the condition variable's list.
pub record Barrier : Type 0 where
  pub mtx : MutexImpl
  pub cv : ℕ
  pub total : ℕ
  pub cnt : ℕ
  pub gen : ℕ

-- What a task does with the mutex held; the generation that it has to see pass, if it waits.
unfoldable pub arrive : ℕ → Kernel → Barrier → Option (Kernel × Barrier × Option ℕ)
unfolding notify_all unlock
arrive fuel k b =
    let cnt = inc b.cnt in
    if cnt == b.total
    then elim (notify_all fuel k b.cv) [
      | none ↦ none
      | some k1 ↦ some (k1, record b { cnt = null_count; gen = inc b.gen }, none)
    ]
    else elim (unlock k b.mtx) [
      | none ↦ none
      | some (k1, m1) ↦ some (k1, record b { cnt = cnt; mtx = m1 }, some b.gen)
    ]

-- The predicate of the waiting loop.
abbrev pub passed : Barrier → (my_gen : ℕ) → Bool
passed b my_gen = not (b.gen == my_gen)

-- One round of `cv.wait`: the task waits, again, or goes on with the mutex.
unfoldable pub wait_round : Kernel → Barrier → (my_gen : ℕ) → Option (Kernel × MutexImpl)
unfolding check
wait_round k b my_gen = check k b.mtx b.cv (passed b my_gen)

-- `wait` of a task that gets the mutex at once; `none` also where it would have to wait for it.
unfoldable pub enter : ℕ → Kernel → Barrier → Option (Kernel × Barrier × Option ℕ)
enter fuel k b = elim (lock k b.mtx) [
  | none ↦ none
  | some (k1, m1) ↦ if m1.owner == k.cur_tcb then arrive fuel k1 (record b { mtx = m1 }) else none
]
