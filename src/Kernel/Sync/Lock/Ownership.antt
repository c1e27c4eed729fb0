-- ===== src/Kernel/Sync/Lock/Ownership.antt =====
-- `Lock_t`: the handoff of a lock, and what happens to an owner that asks for it again.
use mos_core.Prelude.{
  ◌+◌, ◌^◌, ◌≤◌, ◌<◌, ◌≡◌, refl, ◌≢◌, true, false, [], ◌∷◌, ◌++◌, none, some, arith, if◌then◌else◌,
  ltb, ◌==◌, Bool-cases, inl, inr,
}
use mos_core.Kernel.State.{blocked, Kernel, nodes_of, status_of}
use mos_core.Kernel.State.Invariant.{is_runnable}
use mos_core.Kernel.Task.{any_higher, yield_if}
use mos_core.Kernel.Sync.Sema.{null_count}
use mos_core.Kernel.Sync.Sema.Waiters.{SemaOk, is_free, down-SemaOk, WokeFirst, up-SemaOk}
use mos_core.Kernel.Sync.Lock.{Lock, acquire, take, release}

-- The owner of a lock that acquires it again is blocked in the lock's own waiting list and stays the
-- owner: only it could release the lock, and the assertion against this case stands behind the wait.
pub acquire-self_deadlock :
    {k : Kernel} {l : Lock}
    → SemaOk k l.sema
    → k.masked ≡ false
    → is_runnable (status_of k k.cur_tcb) ≡ true
    → l.owner ≡ k.cur_tcb
    → 0 < l.sema.cnt
    → l.sema.cnt ≤ null_count
    → (k' : Kernel) × (l' : Lock) × (acquire k l ≡ some (k', l'))
      × (l'.owner ≡ k.cur_tcb)
      × (status_of k' k.cur_tcb ≡ blocked)
      × (nodes_of k' l.sema.waiting_list ≡ nodes_of k l.sema.waiting_list ++ k.cur_tcb ∷ [])
      × (k'.pend ≡ true)
unfolding acquire
acquire-self_deadlock {k} {l} ok on r mine low held =
    let (k', s', e, ok', less, waits) = down-SemaOk ok on r low (omega arith) in
    let taken : is_free l.sema ≡ false = ground arith in
    let (queue, status, pend) = rw taken at waits in
    (k', record l { sema = s' }, rw (e, acquire) refl, mine, status, queue, pend)

-- `release` by the owner with interrupts enabled, on a count that has room: nobody owns the lock, and
-- the first task that waits is ready if there is one. Any task that runs can then take the lock, and
-- owns it. `release` by another task stops at the assertion.
pub release-handoff :
    {k : Kernel} (l : Lock)
    → SemaOk k l.sema
    → k.masked ≡ false
    → l.sema.cnt + 1 < 2 ^ 32
    → (if l.owner == k.cur_tcb
        then ((k' : Kernel) × (l' : Lock) × (release k l ≡ some (k', l'))
            × SemaOk k' l'.sema
            × (l'.owner ≡ 0)
            × (if ltb l.sema.cnt null_count
                then WokeFirst k k' l.sema.waiting_list
                else k' ≡ yield_if (any_higher k k.cur_tcb) k)
            × ((k2 : Kernel)
                → k2.cur_tcb ≢ 0
                → take k2 l' ≡ some (record l' { owner = k2.cur_tcb })))
        else release k l ≡ none)
unfolding release take
release-handoff {k} l ok on high = elim (Bool-cases (l.owner == k.cur_tcb)) [
  | inl mine ↦
      let (k', s', e, ok', more, woke, switch) = up-SemaOk ok on high in
      simp (mine) (
        k',
        record { owner = 0; sema = s' },
        simp (mine, e) refl,
        ok',
        refl,
        woke,
        λ k2 nz. let other : (0 == k2.cur_tcb) ≡ false = ground arith in rw other refl,
      )
  | inr other ↦ simp (other) refl
]
