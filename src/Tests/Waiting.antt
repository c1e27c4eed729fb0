-- ===== src/Tests/Waiting.antt =====
-- kernel/sync.hpp at the kernel of `Demo`: a semaphore on which 5 waits, and mutexes held by 1 and 2.
use mos_core.Prelude.{ℕ, suc, ◌+◌, ◌-◌, ◌≡◌, refl, ◌≢◌, true, [], ◌∷◌, some, arith}
use mos_core.Kernel.State.{Kernel, nodes_of, status_of, blocked}
use mos_core.Kernel.Sync.Sema.{Sema, null_count, down, up}
use mos_core.Kernel.Sync.Sema.Waiters.{SemaOk, WokeFirst, down-SemaOk, up-SemaOk}
use mos_core.Kernel.Task.Resume.{Preempts}
use mos_core.Kernel.Sync.Placed.{IsValid-IsPlaced}
use mos_core.Kernel.Sync.Mutex.{MutexImpl, lock, unlock}
use mos_core.Kernel.Sync.Mutex.Ownership.{MutexOk}
use mos_core.Kernel.Sync.Mutex.Acquire.{Locked, lock-MutexOk}
use mos_core.Kernel.Sync.Mutex.Handoff.{Unlocked, unlock-MutexOk}
use mos_core.Kernel.Sync.CondVar.{notify_all}
use mos_core.Kernel.Sync.CondVar.Broadcast.{AllWoken, notify_all-AllWoken}
use mos_core.Tests.Demo.{demo, demo-IsValid}

abbrev pub sema : Sema
sema = record { waiting_list = 10; cnt = null_count - 1 }

pub sema-SemaOk : SemaOk demo sema
sema-SemaOk = record {
  valid = demo-IsValid;
  queue = (omega arith, omega arith, omega arith);
  waits = refl;
}

down-SemaOk_example :
    (k' : Kernel) × (s' : Sema) × (down demo sema ≡ some (k', s'))
    × SemaOk k' s'
    × (suc s'.cnt ≡ null_count - 1)
    × ((nodes_of k' 10 ≡ 5 ∷ 1 ∷ []) × (status_of k' 1 ≡ blocked) × (k'.pend ≡ true))
down-SemaOk_example = down-SemaOk sema-SemaOk refl refl (omega arith) (omega arith)

up-SemaOk_example :
    (k' : Kernel) × (s' : Sema) × (up demo sema ≡ some (k', s'))
    × SemaOk k' s'
    × (s'.cnt ≡ null_count)
    × WokeFirst demo k' 10
    × Preempts k'
up-SemaOk_example = up-SemaOk sema-SemaOk refl (omega arith)

abbrev mutex : ℕ → MutexImpl
mutex owner = record { sema = sema; recursive = null_count + 1; owner = owner }

mutex-MutexOk : (owner : ℕ) → owner ≢ 0 → owner ≢ 5 → MutexOk demo (mutex owner)
mutex-MutexOk owner nz ne = record {
  placed = IsValid-IsPlaced demo-IsValid;
  queue = (omega arith, omega arith, omega arith);
  waits = refl;
  tasks = refl;
  apart = ground arith;
  free = λ e. absurd (nz e);
  held = λ e. (omega arith, omega arith);
}

lock-MutexOk_example :
    (k' : Kernel) × (m' : MutexImpl) × (lock demo (mutex 2) ≡ some (k', m'))
    × MutexOk k' m'
    × Locked demo (mutex 2) k' m'
lock-MutexOk_example =
    lock-MutexOk (mutex-MutexOk 2 (omega arith) (omega arith)) refl (omega arith) refl (omega arith)
      (omega arith)

unlock-MutexOk_example :
    (k' : Kernel) × (m' : MutexImpl) × (unlock demo (mutex 1) ≡ some (k', m'))
    × MutexOk k' m'
    × Unlocked demo (mutex 1) k' m'
unlock-MutexOk_example =
    unlock-MutexOk (mutex-MutexOk 1 (omega arith) (omega arith)) refl (omega arith) refl
      (omega arith)

notify_all-AllWoken_example :
    (k' : Kernel) × (notify_all 2 demo 10 ≡ some k')
    × AllWoken demo k' 10 (5 ∷ [])
    × (k'.pend ≡ true)
notify_all-AllWoken_example =
    notify_all-AllWoken 2 10 demo-IsValid (omega arith, omega arith, omega arith) (omega arith)
      (omega arith)
