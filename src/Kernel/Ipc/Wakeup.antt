-- ===== src/Kernel/Ipc/Wakeup.antt =====
-- `try_wake_up` and `wait_on`: who is woken, and who waits.
use mos_core.Prelude.{
  ℕ, ◌+◌, ◌%◌, ◌^◌, ◌<◌, ◌≡◌, refl, ◌≢◌, true, false, ◌||◌, List, [], ◌∷◌, some, arith, ◌==◌,
  length, ap, ◌∙◌, ==_ne, ==_self, Bool-cases, inl, inr,
}
use mos_core.DataType.Sequence.{
  has, Distinct, Distinct-insert_sorted, erase, insert_sorted, has-insert_sorted,
  length-insert_sorted,
}
use mos_core.Kernel.State.{
  Status, blocked, is_status, TcbList, Kernel, nodes_of, status_of, wkpt_of, first, sleeping_list,
  no_tick, u32,
}
use mos_core.Kernel.State.Invariant.{is_runnable, IsValid}
use mos_core.Kernel.Task.{wake_raw, any_higher, yield_if}
use mos_core.Kernel.Task.Block.{BlockedAt, delay-BlockedAt, yield_if-tcbs}
use mos_core.Kernel.Task.Resume.{
  ResumedAt, Preempts, wake_raw-ResumedAt, yield_if-ResumedAt, any_higher-Preempts,
}
use mos_core.Kernel.Ipc.{pri_wkpt_cmp, event_remove, wait_on, try_wake_up}

-- The list is counted, and its tasks sleep until somebody wakes them or their time has come.
pub record EventsOk (k : Kernel) (src : TcbList) : Type 0 where
  pub counted : src.len ≡ length src.nodes
  pub small : length src.nodes < 2 ^ 32
  pub distinct : Distinct src.nodes
  pub asleep : (x : ℕ) → has x src.nodes ≡ true → has x (nodes_of k sleeping_list) ≡ true

-- Nobody waited, or the first task that waited is ready and has left the list.
pub data WokenFrom (k : Kernel) (src : TcbList) : Kernel → TcbList → Type 0 where
  nobody : src.nodes ≡ [] → WokenFrom k src k src
  woken :
      {k' : Kernel} {src' : TcbList} (t : ℕ) (ts : List ℕ)
      → src.nodes ≡ t ∷ ts
      → src'.nodes ≡ ts
      → src'.len ≡ length ts
      → ResumedAt k k' t
      → wkpt_of k' t ≡ no_tick
      → Preempts k'
      → WokenFrom k src k' src'

try_wake_up_from :
    {k : Kernel} (src : TcbList) (nodes : List ℕ)
    → src.nodes ≡ nodes
    → IsValid k
    → EventsOk k src
    → (k' : Kernel) × (src' : TcbList) × (try_wake_up k src ≡ some (k', src'))
      × WokenFrom k src k' src'
unfolding try_wake_up erase
try_wake_up_from {k} src [] e v ok =
    let none_waits : src.len ≡ 0 = ok.counted ∙ ap length e in
    (k, src, rw none_waits refl, nobody e)
try_wake_up_from {k} src (t ∷ ts) e v ok =
    let some_wait : src.len ≢ 0 = λ z. ground (arith, ok.counted, ap length e) in
    let i : has t src.nodes ≡ true = ap (has t) e ∙ ground arith in
    let (r, w) = wake_raw-ResumedAt t v (ok.asleep t i) in
    let k1 = wake_raw k t in
    let b = any_higher k1 k1.cur_tcb in
    (
      yield_if b k1,
      event_remove src t,
      rw (==_ne src.len 0 some_wait, ap first e) refl,
      woken t ts e (ap (erase t) e ∙ rw (==_self t) refl)
          (omega (arith, ok.counted, ap length e, ok.small)) (yield_if-ResumedAt t b r)
          (ap (λ f. (f t).wake_point) (yield_if-tcbs b k1) ∙ w) (any_higher-Preempts r.valid),
    )

pub try_wake_up-WokenFrom :
    {k : Kernel} (src : TcbList)
    → IsValid k
    → EventsOk k src
    → (k' : Kernel) × (src' : TcbList) × (try_wake_up k src ≡ some (k', src'))
      × WokenFrom k src k' src'
try_wake_up-WokenFrom src v ok = try_wake_up_from src src.nodes refl v ok

-- The running task is among the sleepers and in the event list.
pub record WaitsIn (k k' : Kernel) (dest dest' : TcbList) (timeout : ℕ) : Type 0 where
  pub blocked : BlockedAt k k' k.cur_tcb sleeping_list
  pub wake_at : wkpt_of k' k.cur_tcb ≡ (k.os_ticks + timeout) % 2 ^ 32
  pub linked : (x : ℕ) → has x dest'.nodes ≡ ((x == k.cur_tcb) || has x dest.nodes)
  pub events : EventsOk k' dest'

-- A task that runs waits in no event list.
runs_not-asleep :
    {k : Kernel} {src : TcbList}
    → IsValid k
    → EventsOk k src
    → is_runnable (status_of k k.cur_tcb) ≡ true
    → has k.cur_tcb src.nodes ≡ false
runs_not-asleep {k} {src} v ok r = elim (Bool-cases (has k.cur_tcb src.nodes)) [
  | inl i ↦
      let fit = v.homes.status_at k.cur_tcb sleeping_list (ok.asleep k.cur_tcb i) in
      absurd (both (status_of k k.cur_tcb) r fit)
  | inr o ↦ o
]
  where
    both : (s : Status) → is_runnable s ≡ true → is_status s blocked ≡ true → ⊥
    both s a b = ground arith

pub wait_on-WaitsIn :
    {k : Kernel} (dest : TcbList) (timeout : ℕ)
    → IsValid k
    → EventsOk k dest
    → length dest.nodes + 1 < 2 ^ 32
    → k.masked ≡ false
    → k.cur_tcb ≢ 0
    → is_runnable (status_of k k.cur_tcb) ≡ true
    → (k' : Kernel) × (dest' : TcbList) × (wait_on k dest timeout ≡ some (k', dest'))
      × WaitsIn k k' dest dest' timeout
unfolding wait_on
wait_on-WaitsIn {k} dest timeout v ok room on nz r =
    let (k1, e, b, w) = delay-BlockedAt timeout v on nz r in
    let grown = length-insert_sorted (pri_wkpt_cmp k) k.cur_tcb dest.nodes in
    let member = λ (x : ℕ). has-insert_sorted (pri_wkpt_cmp k) x k.cur_tcb dest.nodes in
    (
      k1,
      record {
        nodes = insert_sorted (pri_wkpt_cmp k) k.cur_tcb dest.nodes;
        len = (dest.len + 1) % u32;
      },
      rw (e, wait_on) refl,
      record {
        blocked = b;
        wake_at = w;
        linked = member;
        events = record {
          counted = omega (arith, grown, ok.counted);
          small = omega (arith, grown);
          distinct =
              Distinct-insert_sorted (pri_wkpt_cmp k) k.cur_tcb dest.nodes (runs_not-asleep v ok r)
                ok.distinct;
          asleep = λ x i. elim (Bool-cases (x == k.cur_tcb)) [
            | inl c ↦
                let here : x ≡ k.cur_tcb = ground arith in
                ap (λ a. has a (nodes_of k1 sleeping_list)) here ∙ b.listed
            | inr c ↦
                b.alone x sleeping_list (ground arith) ∙ ok.asleep x (ground (arith, member x))
          ];
        };
      },
    )
