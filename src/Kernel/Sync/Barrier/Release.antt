-- ===== src/Kernel/Sync/Barrier/Release.antt =====
-- `Barrier_t`: the last task that arrives lets all pass.
use mos_core.Prelude.{
  ℕ, zero, suc, ◌+◌, ◌^◌, ◌<◌, ◌≡◌, refl, ◌≢◌, true, false, List, [], ◌∷◌, Option, none, some, ◌==◌,
  arith, length, if◌then◌else◌, replicate, length-replicate, ap, ◌∙◌, ==_self, subst,
}
use mos_core.Kernel.State.{Kernel, blocked, status_of, nodes_of, is_empty, set_tcb, restore_pri}
use mos_core.Kernel.State.Invariant.{IsValid}
use mos_core.DataType.Sequence.{has, erase, has-append}
use mos_core.Kernel.Task.{block_to_raw}
use mos_core.Kernel.Task.Block.{IsQueue}
use mos_core.Kernel.Sync.Sema.{null_count, inc}
use mos_core.Kernel.Sync.Mutex.{MutexImpl}
use mos_core.Kernel.Sync.Mutex.Hold.{IsFree, lock-free, unlock-last, released}
use mos_core.Kernel.Sync.CondVar.{block_this, check}
use mos_core.Kernel.Sync.CondVar.Broadcast.{AllWoken, notify_all-AllWoken}
use mos_core.Kernel.Sync.Barrier.{Barrier, arrive, passed, enter, wait_round}

-- Tasks come to the barrier one after the other and wait there, each as the current task of its own
-- state of the kernel. The result has the generations that they have to see pass, and the kernel as
-- each of them leaves it.
unfoldable pub gather : (fuel : ℕ) → List Kernel → Barrier → Option (List ℕ × List Kernel × Barrier)
gather fuel [] b = some ([], [], b)
gather fuel (k ∷ ks) b = elim (enter fuel k b) [
  | none ↦ none
  | some (k1, b1, none) ↦ none
  | some (k1, b1, some my_gen) ↦ elim (wait_round k1 b1 my_gen) [
    | none ↦ none
    | some (k2, m2) ↦ elim (gather fuel ks (record b1 { mtx = m2 })) [
      | none ↦ none
      | some (gens, ends, b3) ↦ some (my_gen ∷ gens, k2 ∷ ends, b3)
    ]
  ]
]

-- A task with interrupts enabled, when nobody waits for the mutex.
abbrev pub Comes : Kernel → (waiting_list : ℕ) → Type 0
Comes k waiting_list = (k.masked ≡ false) × (k.cur_tcb ≢ 0) × (is_empty k waiting_list ≡ true)

abbrev pub AllCome : List Kernel → (waiting_list : ℕ) → Type 0
AllCome [] waiting_list = Unit {0}
AllCome (k ∷ ks) waiting_list = Comes k waiting_list × AllCome ks waiting_list

-- The task is blocked in the list of the condition variable, and asks for a switch.
abbrev pub Waits : (t : ℕ) → Kernel → (cv : ℕ) → Type 0
Waits t k' cv = (status_of k' t ≡ blocked) × (has t (nodes_of k' cv) ≡ true) × (k'.pend ≡ true)

abbrev pub AllWait : List Kernel → List Kernel → (cv : ℕ) → Type 0
AllWait [] [] cv = Unit {0}
AllWait (k ∷ ks) (k' ∷ ks') cv = Waits k.cur_tcb k' cv × AllWait ks ks' cv
AllWait [] (k' ∷ ks') cv = ⊥
AllWait (k ∷ ks) [] cv = ⊥

-- The predicate of a task that waits, before the last one has come and afterwards.
abbrev pub AllPass : (before after : Barrier) → List ℕ → Type 0
AllPass before after [] = Unit {0}
AllPass before after (my_gen ∷ gens) =
    (passed before my_gen ≡ false) × (passed after my_gen ≡ true) × AllPass before after gens

module _ (k : Kernel) (b : Barrier) where
  -- The barrier when the task has the mutex.
  abbrev taken : Barrier
  taken = record b {
    mtx = record {
      sema = record b.mtx.sema { cnt = null_count };
      recursive = null_count + 1;
      owner = k.cur_tcb;
    };
  }

  enter-taken :
      (fuel : ℕ)
      → k.masked ≡ false
      → k.cur_tcb ≢ 0
      → IsFree b.mtx
      → enter fuel k b ≡ arrive fuel k taken
  unfolding enter
  enter-taken fuel on nz free =
      ap
        (λ (r : Option (Kernel × MutexImpl)).
          elim r as (λ x. Option (Kernel × Barrier × Option ℕ)) [
            | none ↦ none
            | some (k1, m1) ↦
                if m1.owner == k.cur_tcb then arrive fuel k1 (record b { mtx = m1 }) else none
          ])
        (lock-free k b.mtx on nz free)
      ∙ ap (λ c. if c then arrive fuel k taken else none) (==_self k.cur_tcb)

  -- A task that is not the last one waits, and leaves the mutex free.
  enter-waits :
      (fuel : ℕ)
      → Comes k b.mtx.sema.waiting_list
      → IsFree b.mtx
      → (inc b.cnt == b.total) ≡ false
      → (k' : Kernel) × (enter fuel k b ≡ some (k', record b { cnt = inc b.cnt }, some b.gen))
        × (k'.cur_tcb ≡ k.cur_tcb)
  unfolding arrive
  enter-waits fuel (on, nz, empty) free more =
      let k1 = set_tcb k k.cur_tcb (restore_pri (k.tcbs k.cur_tcb)) in
      let waits = λ (r : Option (Kernel × MutexImpl)).
        let result : Option (Kernel × Barrier × Option ℕ) = elim r [
          | none ↦ none
          | some (k', m') ↦ some (k', record taken { cnt = inc b.cnt; mtx = m' }, some b.gen)
        ] in
        result in
      (
        k1,
        enter-taken fuel on nz free
            ∙ simp more (
                ap waits (
                  unlock-last k (record b.mtx { sema = record b.mtx.sema { cnt = null_count } }) on
                    empty)
                ∙ ap
                    (λ (m : MutexImpl).
                      some (k1, record b { cnt = inc b.cnt; mtx = m }, some b.gen))
                    (released b.mtx free)),
        refl,
      )

block_this-Waits : (k : Kernel) (cv : ℕ) → Waits k.cur_tcb (block_this k cv) cv
unfolding block_this block_to_raw
block_this-Waits k cv =
    let t = k.cur_tcb in
    let here = ==_self t in
    (
      rw (here, status_of) refl,
      rw (==_self cv, has) (has-append t (erase t (nodes_of k cv)) (t ∷ []) ∙ ground (arith, here)),
      refl,
    )

-- With its generation not passed, the task waits.
wait_round-Waits :
    (k : Kernel) (b : Barrier) → wait_round k b b.gen ≡ some (block_this k b.cv, b.mtx)
unfolding wait_round
wait_round-Waits k b = rw (==_self b.gen, check) refl

gather-gens :
    (fuel : ℕ) (ks : List Kernel) (b : Barrier)
    → AllCome ks b.mtx.sema.waiting_list
    → IsFree b.mtx
    → b.cnt + length ks < b.total
    → b.total < 2 ^ 32
    → (ends : List Kernel) × (gather fuel ks b
        ≡ some (replicate (length ks) b.gen, ends, record b { cnt = b.cnt + length ks }))
      × AllWait ks ends b.cv
unfolding gather
gather-gens fuel [] b come free few small =
    let same : b.cnt ≡ b.cnt + 0 = omega arith in
    ([], ap (λ c. some ([], [], record b { cnt = c })) same, tt)
gather-gens fuel (k ∷ ks) b (comes, come) free few small =
    let counted : inc b.cnt ≡ b.cnt + 1 = omega arith in
    let more : (inc b.cnt == b.total) ≡ false = ground (arith, counted) in
    let (k1, waits, cur) = enter-waits k b fuel comes free more in
    let b1 = record b { cnt = inc b.cnt } in
    let (ends, rest, all_wait) = gather-gens fuel ks b1 come free (omega arith) small in
    let total : inc b.cnt + length ks ≡ b.cnt + suc (length ks) = omega arith in
    (
      block_this k1 b.cv ∷ ends,
      rw (waits, gather)
          (rw (wait_round-Waits k1 b1, gather)
            (rw (rest, gather)
              (ap
                (λ c. some (
                  b.gen ∷ replicate (length ks) b.gen,
                  block_this k1 b.cv ∷ ends,
                  record b { cnt = c },
                ))
                total))),
      (subst (λ t. Waits t (block_this k1 b.cv) b.cv) cur (block_this-Waits k1 b.cv), all_wait),
    )

replicate-AllPass :
    (n : ℕ) (before after : Barrier) (my_gen : ℕ)
    → passed before my_gen ≡ false
    → passed after my_gen ≡ true
    → AllPass before after (replicate n my_gen)
replicate-AllPass zero before after my_gen shut open_ = tt
replicate-AllPass (suc n) before after my_gen shut open_ =
    (shut, open_, replicate-AllPass n before after my_gen shut open_)

-- A barrier at which nobody has arrived, with its mutex free. All tasks but the last one come one
-- after the other, with interrupts enabled and nobody waiting for the mutex, whatever else has become
-- of the kernel; then the last one, and fewer tasks than the fuel and than 2 ^ 32 wait for the
-- condition variable. Each task but the last gets the mutex, leaves it free and waits, blocked
-- in the list of the condition variable with a switch asked for: the predicate of its loop, for the
-- generation that it has captured, is false until the last one has come and true afterwards. The last one does not wait and has the mutex. Every task that waits for the condition
-- variable is ready, the count starts again, and a switch is asked for.
pub arrive-last :
    (fuel : ℕ) (ks : List Kernel) {k : Kernel} (b : Barrier)
    → IsFree b.mtx
    → b.cnt ≡ null_count
    → b.gen < 2 ^ 32
    → b.total ≡ null_count + suc (length ks)
    → b.total < 2 ^ 32
    → AllCome ks b.mtx.sema.waiting_list
    → k.masked ≡ false
    → k.cur_tcb ≢ 0
    → IsValid k
    → IsQueue b.cv
    → length (nodes_of k b.cv) < fuel
    → length (nodes_of k b.cv) < 2 ^ 32
    → (gens : List ℕ) × (ends : List Kernel) × (b1 : Barrier) × (k' : Kernel) × (b' : Barrier)
      × (gather fuel ks b ≡ some (gens, ends, b1))
      × (length gens ≡ length ks)
      × AllWait ks ends b.cv
      × (enter fuel k b1 ≡ some (k', b', none))
      × AllPass b1 b' gens
      × AllWoken k k' b.cv (nodes_of k b.cv)
      × (b'.cnt ≡ null_count)
      × (b'.mtx.owner ≡ k.cur_tcb)
      × (k'.pend ≡ true)
unfolding arrive
arrive-last fuel ks {k} b free start gen_small total small come on nz v q enough few =
    let b1 = record b { cnt = b.cnt + length ks } in
    let b2 = record (taken k b1) { cnt = null_count; gen = inc b.gen } in
    let (k', run, woken, pend) = notify_all-AllWoken fuel b.cv v q enough few in
    let (ends, came, all_wait) =
      gather-gens fuel ks b come free (omega (arith, start, total)) small in
    let full : (inc b1.cnt == b.total) ≡ true = ground (arith, start, total) in
    let same : (b.gen == b.gen) ≡ true = ==_self b.gen in
    (
      replicate (length ks) b.gen,
      ends,
      b1,
      k',
      b2,
      came,
      length-replicate (length ks) b.gen,
      all_wait,
      enter-taken k b1 fuel on nz free ∙ simp (full, run) refl,
      replicate-AllPass (length ks) b1 b2 b.gen (ground (arith, same)) (ground arith),
      woken,
      refl,
      refl,
      pend,
    )
