-- ===== src/Kernel/Sync/Mutex/Ownership.antt =====
-- `MutexImpl_t`: the invariant of a lock, and what priority inheritance changes.
use mos_core.Prelude.{
  ℕ, ◌+◌, ◌-◌, ◌≤◌, ◌<◌, min, ◌≡◌, refl, ◌≢◌, false, not, ◌&&◌, List, arith, ◌==◌, ltb, length,
  Bool-cases, inl, inr, ap, ◌∙◌, ==_ne,
}
use mos_core.DataType.Sequence.{has}
use mos_core.Kernel.State.{Tcb, Kernel, nodes_of, pri_of, store_pri, restore_pri}
use mos_core.Kernel.State.Invariant.{update_self}
use mos_core.Kernel.Task.Block.{IsQueue}
use mos_core.Kernel.Sync.Placed.{IsPlaced, set_tcb-IsPlaced}
use mos_core.Kernel.Sync.Sema.{null_count}
use mos_core.Kernel.Sync.Mutex.{MutexImpl, inherit}

abbrev pub waiters : Kernel → MutexImpl → List ℕ
waiters k m = nodes_of k m.sema.waiting_list

pub record MutexOk (k : Kernel) (m : MutexImpl) : Type 0 where
  pub placed : IsPlaced k
  pub queue : IsQueue m.sema.waiting_list
  pub waits : length (waiters k m) ≡ null_count - m.sema.cnt
  pub tasks : has 0 (waiters k m) ≡ false
  pub apart : has m.owner (waiters k m) ≡ false
  pub free : m.owner ≡ 0 → m.sema.cnt ≡ null_count + 1
  pub held : m.owner ≢ 0 → (m.sema.cnt ≤ null_count) × (null_count < m.recursive)

store_pri-status : (p : ℕ) (t : Tcb) → (store_pri p t).status ≡ t.status
unfolding store_pri
store_pri-status p t = ground arith

store_pri-pri : (p : ℕ) (t : Tcb) → p < t.pri → (store_pri p t).pri ≡ p
unfolding store_pri
store_pri-pri p t lt = ground arith

pub restore_pri-status : (t : Tcb) → (restore_pri t).status ≡ t.status
unfolding restore_pri
restore_pri-status t = ground arith

module _ (k : Kernel) (m : MutexImpl) where
  pub inherit-IsPlaced : IsPlaced k → IsPlaced (inherit k m)
  unfolding inherit
  inherit-IsPlaced p =
      elim (Bool-cases (not (m.owner == 0) && ltb (pri_of k k.cur_tcb) (pri_of k m.owner))) [
        | inl e ↦ rw e (
            set_tcb-IsPlaced m.owner (store_pri (pri_of k k.cur_tcb) (k.tcbs m.owner))
              (store_pri-status (pri_of k k.cur_tcb) (k.tcbs m.owner)) p)
        | inr e ↦ rw e p
      ]

  pub inherit-lists : (inherit k m).lists ≡ k.lists
  unfolding inherit
  inherit-lists =
      elim (Bool-cases (not (m.owner == 0) && ltb (pri_of k k.cur_tcb) (pri_of k m.owner))) [
        | inl e ↦ rw e refl
        | inr e ↦ rw e refl
      ]

  pub inherit-free : m.owner ≡ 0 → inherit k m ≡ k
  unfolding inherit
  inherit-free z = rw z refl

  -- The owner ends with the higher one of the two priorities.
  pub inherit-pri :
      m.owner ≢ 0 → pri_of (inherit k m) m.owner ≡ min (pri_of k m.owner) (pri_of k k.cur_tcb)
  unfolding inherit
  inherit-pri nz = elim (Bool-cases (ltb (pri_of k k.cur_tcb) (pri_of k m.owner))) [
    | inl e ↦
        rw (==_ne m.owner 0 nz, e, pri_of)
          (ap (λ (u : Tcb). u.pri)
              (update_self k.tcbs m.owner (store_pri (pri_of k k.cur_tcb) (k.tcbs m.owner)))
            ∙ store_pri-pri (pri_of k k.cur_tcb) (k.tcbs m.owner) (ground arith)
            ∙ ground arith)
    | inr e ↦ rw (==_ne m.owner 0 nz, e, pri_of) (ground arith)
  ]
