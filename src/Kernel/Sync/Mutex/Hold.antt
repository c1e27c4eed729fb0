-- ===== src/Kernel/Sync/Mutex/Hold.antt =====
-- kernel/sync.hpp: `hold` of `MutexImpl_t`, and `Mutex_t` with its guard.
use mos_core.Prelude.{
  ℕ, ◌+◌, ◌^◌, ◌<◌, ◌≡◌, refl, ◌≢◌, true, false, Option, none, some, arith, ◌==◌, if◌then◌else◌,
  ltb, ap, ==_self,
}
use mos_core.Kernel.State.{Kernel, is_empty, set_tcb, restore_pri, store_pri, Tcb, pri_of, pri_inv}
use mos_core.Kernel.Sync.Sema.{null_count, dec, inc}
use mos_core.Kernel.Sync.Mutex.{MutexImpl, lock, unlock}
use mos_core.Kernel.Sync.Mutex.Ownership.{inherit-free}

-- What `hold` has come to: the scope has run and the mutex is released, or the task waits for it.
pub data Held : Type 0 where
  held waiting : Kernel → MutexImpl → Held

-- What runs with the mutex held, when the task has it: the scope, and `unlock`.
unfoldable pub hold_again :
    (Kernel → MutexImpl → Option (Kernel × MutexImpl)) → Kernel → MutexImpl → Option Held
hold_again scope k m = elim (scope k m) [
  | none ↦ none
  | some (k1, m1) ↦ elim (unlock k1 m1) [ none ↦ none | some (k2, m2) ↦ some (held k2 m2) ]
]

unfoldable pub hold :
    (Kernel → MutexImpl → Option (Kernel × MutexImpl)) → Kernel → MutexImpl → Option Held
unfolding hold_again
hold scope k m = elim (lock k m) [
  | none ↦ none
  | some (k1, m1) ↦ if m1.owner == k1.cur_tcb then hold_again scope k1 m1 else some (waiting k1 m1)
]

-- `Mutex_t<T>`: a value behind a mutex. The guard's constructor is `lock`, its destructor `unlock`,
-- and `get` reads the value.
pub record Mutex (T : Type 0) : Type 0 where
  pub impl : MutexImpl
  pub raw : T

unfoldable pub guard_begin : {T : Type 0} → Kernel → Mutex T → Option (Kernel × Mutex T)
guard_begin k m = elim (lock k m.impl) [
  | none ↦ none
  | some (k1, impl) ↦ some (k1, record m { impl = impl })
]

unfoldable pub guard_end : {T : Type 0} → Kernel → Mutex T → Option (Kernel × Mutex T)
guard_end k m = elim (unlock k m.impl) [
  | none ↦ none
  | some (k1, impl) ↦ some (k1, record m { impl = impl })
]

abbrev pub get : {T : Type 0} → Mutex T → T
get m = m.raw

-- The mutex is free, or the task has it and can count once more.
abbrev pub IsFree : MutexImpl → Type 0
IsFree m = (m.owner ≡ 0) × (m.sema.cnt ≡ null_count + 1) × (m.recursive ≡ null_count)

abbrev pub IsMine : Kernel → MutexImpl → Type 0
IsMine k m = (m.owner ≡ k.cur_tcb) × (null_count < m.recursive) × (m.recursive + 1 < 2 ^ 32)

pub lock-free :
    (k : Kernel) (m : MutexImpl)
    → k.masked ≡ false
    → k.cur_tcb ≢ 0
    → IsFree m
    → lock k m
      ≡ some (
        k,
        record {
          sema = record m.sema { cnt = null_count };
          recursive = null_count + 1;
          owner = k.cur_tcb;
        },
      )
unfolding lock
lock-free k m on nz free =
    let other : (m.owner == k.cur_tcb) ≡ false = ground (arith, free.0) in
    let taken : dec m.sema.cnt ≡ null_count = omega (arith, free.1) in
    let got : ltb (dec m.sema.cnt) null_count ≡ false = ground (arith, taken) in
    simp (on, other, inherit-free k m free.0, got)
      (ap
        (λ (c : ℕ). some (
          k,
          record {
            sema = record m.sema { cnt = c };
            recursive = null_count + 1;
            owner = k.cur_tcb;
          },
        ))
        taken)

pub unlock-last :
    (k : Kernel) (m : MutexImpl)
    → k.masked ≡ false
    → is_empty k m.sema.waiting_list ≡ true
    → unlock k (record m { recursive = null_count + 1; owner = k.cur_tcb })
      ≡ some (
        set_tcb k k.cur_tcb (restore_pri (k.tcbs k.cur_tcb)),
        record { sema = record m.sema { cnt = inc m.sema.cnt }; recursive = null_count; owner = 0 },
      )
unfolding unlock
unlock-last k m on empty = simp (on, ==_self k.cur_tcb, empty) refl

pub released :
    (m : MutexImpl)
    → IsFree m
    → record m { sema = record m.sema { cnt = inc null_count }; recursive = null_count; owner = 0 }
      ≡ m
released m (z, c, r) = ground arith

-- What the priority of a task can come to while it holds mutexes: `lock` of other tasks raises it, and
-- all but the two members of the priority may change.
pub data Inherits (pri : ℕ) : Tcb → Type 0 where
  original : {t : Tcb} → t.pri ≡ pri → t.sub_pri ≡ pri_inv → Inherits pri t
  raised : {t : Tcb} (new_pri : ℕ) → Inherits pri t → Inherits pri (store_pri new_pri t)
  otherwise : {t u : Tcb} → Inherits pri t → u.pri ≡ t.pri → u.sub_pri ≡ t.sub_pri → Inherits pri u

-- Where the mutex is free, nobody waits for it when it is released, and the task has inherited
-- priorities at most since it had its own.
abbrev pub TakesFree : Kernel → MutexImpl → Kernel → Type 0
TakesFree k m k2 =
    IsFree m
    × (is_empty k2 m.sema.waiting_list ≡ true)
    × (pri_of k k.cur_tcb ≢ pri_inv)
    × Inherits (pri_of k k.cur_tcb) (k2.tcbs k.cur_tcb)
