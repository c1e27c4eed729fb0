-- ===== src/Kernel/Sync/Mutex.antt =====
-- kernel/sync.hpp, `MutexImpl_t`: ownership, recursion, priority inheritance and the handoff.
pub mod Ownership
pub mod Acquire
pub mod Handoff
pub mod Hold
use mos_core.Prelude.{
  ℕ, ◌+◌, ◌≡◌, Bool, true, false, not, ◌&&◌, Option, none, some, ◌==◌, if◌then◌else◌, ltb,
}
use mos_core.Kernel.State.{
  Kernel, is_empty, begin_of, yield, pri_of, set_tcb, store_pri, restore_pri,
}
use mos_core.Kernel.Task.{block_to_raw, resume_raw, any_higher, yield_if}
use mos_core.Kernel.Sync.Sema.{Sema, null_count, dec, inc}

-- The owner 0 is `nullptr`; `recursive` is a `Count_t`.
pub record MutexImpl : Type 0 where
  pub sema : Sema
  pub recursive : ℕ
  pub owner : ℕ

-- Priority inheritance: the owner gets the priority of a higher task that asks for the lock.
unfoldable pub inherit : Kernel → MutexImpl → Kernel
inherit k m =
    if not (m.owner == 0) && ltb (pri_of k k.cur_tcb) (pri_of k m.owner)
    then set_tcb k m.owner (store_pri (pri_of k k.cur_tcb) (k.tcbs m.owner))
    else k

unfoldable pub lock : Kernel → MutexImpl → Option (Kernel × MutexImpl)
lock k m =
    if k.masked
    then none
    else if m.owner == k.cur_tcb
    then some (k, record m { recursive = inc m.recursive })
    else (let k1 = inherit k m in
        let s1 = record m.sema { cnt = dec m.sema.cnt } in
        if ltb s1.cnt null_count
        then some (yield (block_to_raw k1 k.cur_tcb s1.waiting_list), record m { sema = s1 })
        else some (k1, record m { sema = s1; owner = k.cur_tcb; recursive = null_count + 1 }))

unfoldable pub unlock : Kernel → MutexImpl → Option (Kernel × MutexImpl)
unlock k m =
    if k.masked
    then none
    else if not (m.owner == k.cur_tcb)
    then none
    else (let left = dec m.recursive in
        if ltb null_count left
        then some (k, record m { recursive = left })
        else (let k1 = set_tcb k m.owner (restore_pri (k.tcbs m.owner)) in
            let s1 = record m.sema { cnt = inc m.sema.cnt } in
            if is_empty k1 m.sema.waiting_list
            then some (k1, record { sema = s1; recursive = left; owner = 0 })
            else elim (begin_of k1 m.sema.waiting_list) [
              | none ↦ none
              | some t ↦
                  let k2 = resume_raw k1 t m.sema.waiting_list in
                  some (
                    yield_if (any_higher k2 k2.cur_tcb) k2,
                    record { sema = s1; recursive = null_count + 1; owner = t },
                  )
            ]))
