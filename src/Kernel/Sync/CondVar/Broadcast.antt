-- ===== src/Kernel/Sync/CondVar/Broadcast.antt =====
-- `CondVar_t.notify_all`: every task that waits becomes ready.
use mos_core.Prelude.{
  ℕ, zero, suc, ◌^◌, ◌<◌, ◌≡◌, refl, true, false, List, [], ◌∷◌, some, arith, length, Bool-cases,
  inl, inr, ap, ◌∙◌,
}
use mos_core.DataType.Sequence.{has}
use mos_core.Kernel.State.{
  ready, Tcb, Kernel, nodes_of, status_of, is_empty, begin_of, first, yield,
}
use mos_core.Kernel.State.Invariant.{IsValid, IsValid-core}
use mos_core.Kernel.Task.{resume_raw}
use mos_core.Kernel.Task.Block.{IsQueue}
use mos_core.Kernel.Task.Resume.{resume_raw-ResumedAt}
use mos_core.Kernel.Sync.Placed.{IsValid-IsPlaced, nodes-resume_raw}
use mos_core.Kernel.Sync.CondVar.{wake_all, notify_all}

-- The tasks of the list are ready, no task waits, and the tasks of no list but this have moved.
pub record AllWoken (k k' : Kernel) (l : ℕ) (ts : List ℕ) : Type 0 where
  pub valid : IsValid k'
  pub empty : nodes_of k' l ≡ []
  pub woken : (x : ℕ) → has x ts ≡ true → status_of k' x ≡ ready
  pub others : (x : ℕ) → has x ts ≡ false → k'.tcbs x ≡ k.tcbs x
  pub alone : (x m : ℕ) → has x ts ≡ false → has x (nodes_of k' m) ≡ has x (nodes_of k m)

wake_all-AllWoken :
    (fuel : ℕ) (k : Kernel) (l : ℕ) (ts : List ℕ)
    → IsValid k
    → IsQueue l
    → nodes_of k l ≡ ts
    → length ts < fuel
    → length ts < 2 ^ 32
    → (k' : Kernel) × (wake_all fuel k l ≡ some k') × AllWoken k k' l ts
unfolding wake_all
wake_all-AllWoken zero k l ts v q e enough small = elim enough [ ]
wake_all-AllWoken (suc fuel) k l [] v q e enough small =
    let none_waits : is_empty k l ≡ true = ground (arith, v.lists_ok.counted l, ap length e) in
    (
      k,
      rw (none_waits, wake_all) refl,
      record {
        valid = v;
        empty = e;
        woken = λ x i. cc;
        others = λ x o. refl;
        alone = λ x m o. refl;
      },
    )
wake_all-AllWoken (suc fuel) k l (t ∷ ts) v q e enough small =
    let waits : is_empty k l ≡ false = ground (arith, v.lists_ok.counted l, ap length e) in
    let i : has t (nodes_of k l) ≡ true = ap (has t) e ∙ ground arith in
    let r = resume_raw-ResumedAt t l v i in
    let rest = nodes-resume_raw t (IsValid-IsPlaced v) l ts q.0 e in
    let (k', run, w) =
      wake_all-AllWoken fuel (resume_raw k t l) l ts r.valid q rest (omega arith) (omega arith) in
    (
      k',
      rw (waits, wake_all) (rw (begin_of, ap first e, wake_all) run),
      record {
        valid = w.valid;
        empty = w.empty;
        woken = λ x j. elim (Bool-cases (has x ts)) [
          | inl in_ts ↦ w.woken x in_ts
          | inr out ↦
              let here : x ≡ t = ground arith in
              ap (λ (u : Tcb). u.status) (w.others x out)
              ∙ ap (status_of (resume_raw k t l)) here
              ∙ r.status
        ];
        others = λ x o. w.others x (ground arith) ∙ r.others x (ground arith);
        alone = λ x m o. w.alone x m (ground arith) ∙ r.alone x m (ground arith);
      },
    )

-- `notify_all` with more fuel than tasks wait ends, with no task left to wait: those that waited are
-- ready, the other tasks are as they were and in the lists that they were in, the invariant holds,
-- and a switch is asked for.
pub notify_all-AllWoken :
    (fuel : ℕ) {k : Kernel} (l : ℕ)
    → IsValid k
    → IsQueue l
    → length (nodes_of k l) < fuel
    → length (nodes_of k l) < 2 ^ 32
    → (k' : Kernel) × (notify_all fuel k l ≡ some k')
      × AllWoken k k' l (nodes_of k l)
      × (k'.pend ≡ true)
unfolding notify_all
notify_all-AllWoken fuel {k} l v q enough small =
    let (k1, run, w) = wake_all-AllWoken fuel k l (nodes_of k l) v q refl enough small in
    (
      yield k1,
      rw (run, notify_all) refl,
      record {
        valid = IsValid-core (yield k1) w.valid;
        empty = w.empty;
        woken = w.woken;
        others = w.others;
        alone = w.alone;
      },
      refl,
    )
