-- ===== src/Kernel/Sync/Mutex/Acquire.antt =====
-- `MutexImpl_t.lock`, for the owner, on a free lock, and on a lock that another task holds.
use mos_core.Prelude.{
  ℕ, suc, ◌+◌, ◌^◌, ◌<◌, min, ◌≡◌, refl, ◌≢◌, true, false, List, [], ◌∷◌, ◌++◌, some, arith, ◌==◌,
  if◌then◌else◌, ltb, length, length-append, Bool-cases, inl, inr, sym, ap, ◌∙◌,
}
use mos_core.DataType.Sequence.{has, has-append}
use mos_core.Kernel.State.{blocked, Kernel, status_of, pri_of, yield, ready_list}
use mos_core.Kernel.State.Invariant.{is_runnable}
use mos_core.Kernel.Task.{block_to_raw}
use mos_core.Kernel.Sync.Placed.{block_to_raw-IsPlaced, nodes-block_to_raw, yield_if-IsPlaced}
use mos_core.Kernel.Sync.Sema.{null_count, dec, inc}
use mos_core.Kernel.Sync.Sema.Waiters.{block_to_raw-status}
use mos_core.Kernel.Sync.Mutex.{MutexImpl, inherit, lock}
use mos_core.Kernel.Sync.Mutex.Ownership.{
  waiters, MutexOk, inherit-IsPlaced, inherit-lists, inherit-free, inherit-pri,
}

-- What `lock` of a task does, by who holds the lock: the task itself, nobody, or another task.
abbrev pub Locked : Kernel → MutexImpl → Kernel → MutexImpl → Type 0
Locked k m k' m' =
    if m.owner == k.cur_tcb
    then (k' ≡ k) × (m'.owner ≡ m.owner) × (m'.recursive ≡ suc m.recursive)
    else if m.owner == 0
    then (k' ≡ k) × (m'.owner ≡ k.cur_tcb) × (m'.recursive ≡ null_count + 1)
    else (m'.owner ≡ m.owner)
      × (waiters k' m ≡ waiters k m ++ k.cur_tcb ∷ [])
      × (status_of k' k.cur_tcb ≡ blocked)
      × (pri_of k' m.owner ≡ min (pri_of k m.owner) (pri_of k k.cur_tcb))
      × (k'.pend ≡ true)

has-empty : (a : ℕ) (xs : List ℕ) → length xs ≡ 0 → has a xs ≡ false
has-empty a [] e = refl
has-empty a (x ∷ xs) e = ground (arith, e)

block_to_raw-pri : (k : Kernel) (t dest x : ℕ) → pri_of (block_to_raw k t dest) x ≡ pri_of k x
unfolding block_to_raw
block_to_raw-pri k t dest x = elim (Bool-cases (x == t)) [
  | inl e ↦ let here : x ≡ t = ground arith in rw (e, pri_of) (ap (λ a. pri_of k a) (sym here))
  | inr e ↦ rw (e, pri_of) refl
]

-- `lock` of a running task with interrupts enabled, on counts that have room, keeps the lock's
-- invariant. The owner counts once more; a free lock gets the task as its owner; otherwise the owner
-- stays, with the higher one of the two priorities, and the task is blocked behind those that wait.
pub lock-MutexOk :
    {k : Kernel} {m : MutexImpl}
    → MutexOk k m
    → k.masked ≡ false
    → k.cur_tcb ≢ 0
    → is_runnable (status_of k k.cur_tcb) ≡ true
    → 0 < m.sema.cnt
    → m.recursive + 1 < 2 ^ 32
    → (k' : Kernel) × (m' : MutexImpl) × (lock k m ≡ some (k', m'))
      × MutexOk k' m'
      × Locked k m k' m'
unfolding lock
lock-MutexOk {k} {m} ok on nz r low high = elim (Bool-cases (m.owner == k.cur_tcb)) [
  | inl e ↦
      let here : m.owner ≡ k.cur_tcb = ground arith in
      let held = ok.held (λ z. nz (sym here ∙ z)) in
      (
        k,
        record m { recursive = inc m.recursive },
        rw (on, e) refl,
        record {
          placed = ok.placed;
          queue = ok.queue;
          waits = ok.waits;
          tasks = ok.tasks;
          apart = ok.apart;
          free = ok.free;
          held = λ z. (held.0, omega (arith, held.1));
        },
        rw e (refl, refl, omega arith),
      )
  | inr e ↦ elim (Bool-cases (m.owner == 0)) [
    | inl z ↦
        let nobody : m.owner ≡ 0 = ground arith in
        let count = ok.free nobody in
        let test : ltb (dec m.sema.cnt) null_count ≡ false = ground arith in
        let none_waits : length (waiters k m) ≡ 0 = omega (arith, ok.waits, count) in
        (
          k,
          record m {
            sema = record m.sema { cnt = dec m.sema.cnt };
            owner = k.cur_tcb;
            recursive = null_count + 1;
          },
          rw (e, test, inherit-free k m nobody, on) refl,
          record {
            placed = ok.placed;
            queue = ok.queue;
            waits = omega (arith, none_waits, count);
            tasks = ok.tasks;
            apart = has-empty k.cur_tcb (waiters k m) none_waits;
            free = λ a. absurd (nz a);
            held = λ a. (omega (arith, count), omega arith);
          },
          rw (e, z) (refl, refl, refl),
        )
    | inr z ↦
        let taken : m.owner ≢ 0 = ground arith in
        let held = ok.held taken in
        let test : ltb (dec m.sema.cnt) null_count ≡ true = ground (arith, held.0) in
        let k1 = inherit k m in
        let l = m.sema.waiting_list in
        let p1 = inherit-IsPlaced k m ok.placed in
        let same = λ (n : ℕ). ap (λ f. (f n).nodes) (inherit-lists k m) in
        let home = ap (has k.cur_tcb) (same ready_list) ∙ ok.placed.homes.ready_home k.cur_tcb r in
        let queued =
          nodes-block_to_raw k.cur_tcb p1 home l ok.queue.0
          ∙ ap (λ xs. xs ++ k.cur_tcb ∷ []) (same l) in
        let k2 = yield (block_to_raw k1 k.cur_tcb l) in
        let member = λ (x : ℕ). ap (has x) queued ∙ has-append x (waiters k m) (k.cur_tcb ∷ []) in
        (
          k2,
          record m { sema = record m.sema { cnt = dec m.sema.cnt } },
          rw (e, test, on) refl,
          record {
            placed = yield_if-IsPlaced true (block_to_raw-IsPlaced k.cur_tcb p1 home l ok.queue);
            queue = ok.queue;
            waits =
                ap length queued
                ∙ omega (arith, length-append (waiters k m) (k.cur_tcb ∷ []), ok.waits, held.0);
            tasks = ground (arith, member 0, ok.tasks);
            apart = ground (arith, member m.owner, ok.apart);
            free = λ a. absurd (taken a);
            held = λ a. (omega (arith, held.0), held.1);
          },
          rw (e, z)
              (
                refl,
                queued,
                block_to_raw-status k1 k.cur_tcb l,
                block_to_raw-pri k1 k.cur_tcb l m.owner ∙ inherit-pri k m taken,
                refl,
              ),
        )
  ]
]
