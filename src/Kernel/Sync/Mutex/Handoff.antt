-- ===== src/Kernel/Sync/Mutex/Handoff.antt =====
-- `MutexImpl_t.unlock`: a lock held more than once, a lock that nobody waits for, and the handoff.
use mos_core.Prelude.{
  ℕ, suc, ◌+◌, ◌-◌, ◌^◌, ◌<◌, ◌≡◌, refl, ◌≢◌, ◌⊎◌, Bool, true, false, List, [], ◌∷◌, some, arith,
  ◌==◌, if◌then◌else◌, ltb, length, Bool-cases, inl, inr, sym, ap, ◌∙◌, subst,
}
use mos_core.DataType.Sequence.{has, Distinct}
use mos_core.Kernel.State.{
  ready, Tcb, Kernel, nodes_of, status_of, is_empty, begin_of, first, set_tcb, restore_pri,
}
use mos_core.Kernel.State.Invariant.{update_self}
use mos_core.Kernel.Task.{resume_raw, any_higher, yield_if}
use mos_core.Kernel.Sync.Placed.{
  resume_raw-IsPlaced, nodes-resume_raw, set_tcb-IsPlaced, yield_if-IsPlaced,
}
use mos_core.Kernel.Sync.Sema.{null_count, dec, inc}
use mos_core.Kernel.Sync.Mutex.{MutexImpl, unlock}
use mos_core.Kernel.Sync.Mutex.Ownership.{waiters, MutexOk, restore_pri-status}

-- What the last `unlock` does: with nobody waiting the lock is free; otherwise the first task that
-- waits is ready and has the lock, held once.
abbrev pub HandedOver : Kernel → MutexImpl → Kernel → MutexImpl → Type 0
HandedOver k m k' m' =
    ((waiters k m ≡ []) × (m'.owner ≡ 0))
    ⊎ ((t : ℕ) × (ts : List ℕ) × (waiters k m ≡ t ∷ ts)
        × (waiters k' m ≡ ts)
        × (m'.owner ≡ t)
        × (m'.recursive ≡ null_count + 1)
        × (status_of k' t ≡ ready))

abbrev pub Unlocked : Kernel → MutexImpl → Kernel → MutexImpl → Type 0
Unlocked k m k' m' =
    if ltb (null_count + 1) m.recursive
    then (k' ≡ k) × (m'.owner ≡ m.owner) × (suc m'.recursive ≡ m.recursive)
    else HandedOver k m k' m'

resume_raw-status : (k : Kernel) (t src : ℕ) → status_of (resume_raw k t src) t ≡ ready
unfolding resume_raw
resume_raw-status k t src =
    ap (λ (u : Tcb). u.status) (update_self k.tcbs t (record (k.tcbs t) { status = ready }))

yield_if-status : (b : Bool) (k : Kernel) (t : ℕ) → status_of (yield_if b k) t ≡ status_of k t
yield_if-status true k t = refl
yield_if-status false k t = refl

yield_if-nodes : (b : Bool) (k : Kernel) (l : ℕ) → nodes_of (yield_if b k) l ≡ nodes_of k l
yield_if-nodes true k l = refl
yield_if-nodes false k l = refl

first-cases : (xs : List ℕ) → (xs ≡ []) ⊎ ((t : ℕ) × (ts : List ℕ) × (xs ≡ t ∷ ts))
first-cases [] = inl refl
first-cases (x ∷ xs) = inr (x, xs, refl)

not_null : (t : ℕ) (ts : List ℕ) → has 0 (t ∷ ts) ≡ false → t ≢ 0
not_null t ts out e = ground (arith, ap (λ a. has 0 (a ∷ ts)) e)

-- `unlock` of the owner with interrupts enabled, on a count that has room, keeps the lock's
-- invariant. A lock that is held more than once is held once less. Otherwise the lock is free if
-- nobody waits, and else the first task that waits is ready and the new owner.
pub unlock-MutexOk :
    {k : Kernel} {m : MutexImpl}
    → MutexOk k m
    → k.masked ≡ false
    → k.cur_tcb ≢ 0
    → m.owner ≡ k.cur_tcb
    → m.recursive < 2 ^ 32
    → (k' : Kernel) × (m' : MutexImpl) × (unlock k m ≡ some (k', m'))
      × MutexOk k' m'
      × Unlocked k m k' m'
unfolding unlock
unlock-MutexOk {k} {m} ok on nz own high =
    let held = ok.held (λ z. nz (sym own ∙ z)) in
    let owner : (m.owner == k.cur_tcb) ≡ true = ground arith in
    elim (Bool-cases (ltb (null_count + 1) m.recursive)) [
      | inl e ↦
          let test : ltb null_count (dec m.recursive) ≡ true = ground (arith, held.1) in
          (
            k,
            record m { recursive = dec m.recursive },
            rw (owner, test, on) refl,
            record {
              placed = ok.placed;
              queue = ok.queue;
              waits = ok.waits;
              tasks = ok.tasks;
              apart = ok.apart;
              free = ok.free;
              held = λ z. (held.0, ground arith);
            },
            rw e (refl, refl, omega (arith, held.1)),
          )
      | inr e ↦
          let test : ltb null_count (dec m.recursive) ≡ false = ground (arith, held.1) in
          let new = restore_pri (k.tcbs m.owner) in
          let k1 = set_tcb k m.owner new in
          let p1 = set_tcb-IsPlaced m.owner new (restore_pri-status (k.tcbs m.owner)) ok.placed in
          let l = m.sema.waiting_list in
          elim (first-cases (waiters k m)) [
            | inl empty ↦
                let no_waiters : is_empty k l ≡ true =
                  ground (arith, ok.placed.lists_ok.counted l, ap length empty) in
                (
                  k1,
                  record {
                    sema = record m.sema { cnt = inc m.sema.cnt };
                    recursive = dec m.recursive;
                    owner = 0;
                  },
                  rw (owner, test, no_waiters, on) refl,
                  record {
                    placed = p1;
                    queue = ok.queue;
                    waits = ap length empty ∙ omega (arith, ok.waits, held.0, ap length empty);
                    tasks = ok.tasks;
                    apart = ok.tasks;
                    free = λ a. omega (arith, ok.waits, held.0, ap length empty);
                    held = λ a. absurd (a refl);
                  },
                  rw e (inl (empty, refl)),
                )
            | inr (t, ts, found) ↦
                let i : has t (waiters k m) ≡ true = ap (has t) found ∙ ground arith in
                let some_waiter : is_empty k l ≡ false =
                  ground (arith, ok.placed.lists_ok.counted l, ok.waits, ap length found) in
                let k2 = resume_raw k1 t l in
                let b = any_higher k2 k2.cur_tcb in
                let rest = yield_if-nodes b k2 l ∙ nodes-resume_raw t p1 l ts ok.queue.0 found in
                let alone = subst Distinct found (ok.placed.lists_ok.distinct l) in
                let tasks = sym (ap (has 0) found) ∙ ok.tasks in
                let more : null_count - m.sema.cnt ≡ suc (length ts) =
                  sym ok.waits ∙ ap length found in
                (
                  yield_if b k2,
                  record {
                    sema = record m.sema { cnt = inc m.sema.cnt };
                    recursive = null_count + 1;
                    owner = t;
                  },
                  rw (owner, test, some_waiter, begin_of, ap first found, on) refl,
                  record {
                    placed = yield_if-IsPlaced b (resume_raw-IsPlaced t p1 l i);
                    queue = ok.queue;
                    waits = ap length rest ∙ omega (arith, more);
                    tasks = ap (has 0) rest ∙ ground (arith, tasks);
                    apart = ap (has t) rest ∙ alone.0;
                    free = λ a. absurd (not_null t ts tasks a);
                    held = λ a. (omega (arith, more), omega arith);
                  },
                  rw e (
                      inr (
                        t,
                        ts,
                        found,
                        rest,
                        refl,
                        refl,
                        yield_if-status b k2 t ∙ resume_raw-status k1 t l,
                      )),
                )
          ]
    ]
