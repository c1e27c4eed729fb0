-- ===== src/Tests/Holding.antt =====
-- kernel/sync.hpp at the kernel of `Demo`: a mutex that is free, a lock that 1 has, and a barrier of
-- two tasks at which 5 waits.
use mos_core.Prelude.{◌+◌, ◌≡◌, refl, ◌≢◌, ℕ, List, length, true, [], ◌∷◌, none, some, arith}
use mos_core.Kernel.State.{Kernel, nodes_of, status_of, blocked, set_tcb, store_pri}
use mos_core.Kernel.Sync.Sema.{null_count}
use mos_core.Kernel.Sync.Sema.Waiters.{SemaOk, WokeFirst}
use mos_core.Kernel.Sync.Lock.{Lock, acquire, take, release}
use mos_core.Kernel.Sync.Lock.Ownership.{acquire-self_deadlock, release-handoff}
use mos_core.Kernel.Sync.Mutex.{MutexImpl}
use mos_core.Kernel.Sync.CondVar.Broadcast.{AllWoken}
use mos_core.Kernel.Sync.Barrier.{Barrier, enter}
use mos_core.Kernel.Sync.Barrier.Release.{gather, AllPass, AllWait, arrive-last}
use mos_core.Tests.Demo.{demo, demo-IsValid}
use mos_core.Tests.Waiting.{sema, sema-SemaOk}

abbrev free_mutex : MutexImpl
free_mutex = record {
  sema = record { waiting_list = 11; cnt = null_count + 1 };
  recursive = null_count;
  owner = 0;
}

-- The kernel when 1 has inherited the priority 129.
abbrev boosted : Kernel
boosted = set_tcb demo 1 (store_pri 129 (demo.tcbs 1))

abbrev owned : Lock
owned = record { sema = sema; owner = 1 }

acquire-self_deadlock_example :
    (k' : Kernel) × (l' : Lock) × (acquire demo owned ≡ some (k', l'))
    × (l'.owner ≡ 1)
    × (status_of k' 1 ≡ blocked)
    × (nodes_of k' 10 ≡ 5 ∷ 1 ∷ [])
    × (k'.pend ≡ true)
acquire-self_deadlock_example =
    acquire-self_deadlock sema-SemaOk refl refl refl (omega arith) (omega arith)

release-handoff_example :
    (k' : Kernel) × (l' : Lock) × (release demo owned ≡ some (k', l'))
    × SemaOk k' l'.sema
    × (l'.owner ≡ 0)
    × WokeFirst demo k' 10
    × ((k2 : Kernel) → k2.cur_tcb ≢ 0 → take k2 l' ≡ some (record l' { owner = k2.cur_tcb }))
release-handoff_example = release-handoff owned sema-SemaOk refl (omega arith)

abbrev barrier : Barrier
barrier = record {
  mtx = free_mutex;
  cv = 10;
  total = null_count + 2;
  cnt = null_count;
  gen = null_count;
}

-- When 5 has come.
abbrev earlier : Kernel
earlier = record demo { cur_tcb = 5 }

arrive-last_example :
    (gens : List ℕ) × (ends : List Kernel) × (b1 : Barrier) × (k' : Kernel) × (b' : Barrier)
    × (gather 2 (earlier ∷ []) barrier ≡ some (gens, ends, b1))
    × (length gens ≡ 1)
    × AllWait (earlier ∷ []) ends 10
    × (enter 2 demo b1 ≡ some (k', b', none))
    × AllPass b1 b' gens
    × AllWoken demo k' 10 (5 ∷ [])
    × (b'.cnt ≡ null_count)
    × (b'.mtx.owner ≡ 1)
    × (k'.pend ≡ true)
arrive-last_example =
    arrive-last 2 (earlier ∷ []) barrier (refl, refl, refl) refl (omega arith) refl (omega arith)
      ((refl, omega arith, refl), tt) refl (omega arith) demo-IsValid
      (omega arith, omega arith, omega arith) (omega arith) (omega arith)
