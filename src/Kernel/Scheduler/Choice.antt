-- ===== src/Kernel/Scheduler/Choice.antt =====
-- `next_tcb`: which task runs next.
use mos_core.Prelude.{
  ℕ, suc, ◌≤◌, ◌≡◌, refl, ◌≢◌, true, false, ◌||◌, List, [], ◌∷◌, some, arith, ◌==◌, if◌then◌else◌,
  ltb, length, Bool-cases, Option-cases, inl, inr, sym, ap, ◌∙◌, subst, ==_self,
}
use mos_core.DataType.Sequence.{has}
use mos_core.Kernel.State.{
  ready, running, blocked, terminated, Kernel, Tcb, TcbList, nodes_of, status_of, pri_of, wkpt_of,
  ready_list, sleeping_list, begin_of, is_status, set_tcb, slice_width,
}
use mos_core.Kernel.State.Invariant.{IsValid, is_runnable, first-le}
use mos_core.Kernel.Scheduler.{preempt_pri, next_of, switch_to, expire, preempt, choose, next_tcb}
use mos_core.Kernel.Scheduler.Restate.{
  Restated, OneRuns, Restated-IsValid, Restated-refl, Restated-trans, Restated-set,
  Restated-runnable, switch_to-Restated, switch_to-OneRuns, none_runs, none_runs-set,
}
use mos_core.Kernel.Scheduler.Wake.{Woke, is_due, wake_up_sleeper-Woke, first-has, no_first}

-- The task that runs is at the head of its priority: no ready task is above it.
pub record Runs (k k' : Kernel) : Type 0 where
  pub valid : IsValid k'
  pub runnable : is_runnable (status_of k' k'.cur_tcb) ≡ true
  pub listed : has k'.cur_tcb (nodes_of k' ready_list) ≡ true
  pub highest : (x : ℕ) → has x (nodes_of k' ready_list) ≡ true → pri_of k' k'.cur_tcb ≤ pri_of k' x
  pub lists : k'.lists ≡ k.lists
  pub pris : (x : ℕ) → pri_of k' x ≡ pri_of k x

make-Runs :
    {k k' : Kernel}
    → IsValid k
    → Restated k k'
    → OneRuns k'
    → has k'.cur_tcb (nodes_of k ready_list) ≡ true
    → ((x : ℕ) → has x (nodes_of k ready_list) ≡ true → pri_of k k'.cur_tcb ≤ pri_of k x)
    → is_runnable (status_of k' k'.cur_tcb) ≡ true
    → Runs k k'
make-Runs {k} {k'} v r one i least runs =
    let same = λ (x : ℕ). ap (λ (f : ℕ → TcbList). has x (f ready_list).nodes) r.lists in
    record {
      valid = Restated-IsValid v r one;
      runnable = runs;
      listed = same k'.cur_tcb ∙ i;
      highest = λ x j. omega (arith, r.pris k'.cur_tcb, r.pris x, least x (sym (same x) ∙ j));
      lists = r.lists;
      pris = r.pris;
    }

-- A task at the head of its priority takes over from one that does not run any more.
leave-Runs :
    {k : Kernel} (t : ℕ)
    → IsValid k
    → status_of k k.cur_tcb ≢ running
    → has t (nodes_of k ready_list) ≡ true
    → ((x : ℕ) → has x (nodes_of k ready_list) ≡ true → pri_of k t ≤ pri_of k x)
    → Runs k (switch_to k t)
unfolding switch_to
leave-Runs {k} t v stopped i least =
    make-Runs v (switch_to-Restated k t (v.homes.status_at t ready_list i))
      (switch_to-OneRuns k t (none_runs v stopped)) i least (rw (==_self t, status_of))

-- And from one that is made ready.
over-Runs :
    {k : Kernel} (new : Tcb) (t : ℕ)
    → IsValid k
    → new.pri ≡ pri_of k k.cur_tcb
    → new.wake_point ≡ wkpt_of k k.cur_tcb
    → new.status ≡ ready
    → is_runnable (status_of k k.cur_tcb) ≡ true
    → has t (nodes_of k ready_list) ≡ true
    → ((x : ℕ) → has x (nodes_of k ready_list) ≡ true → pri_of k t ≤ pri_of k x)
    → Runs k (switch_to (set_tcb k k.cur_tcb new) t)
unfolding switch_to
over-Runs {k} new t v p w s on i least =
    let k1 = set_tcb k k.cur_tcb new in
    let r = Restated-set k k.cur_tcb new p w (ap is_runnable s) on in
    make-Runs v
      (Restated-trans r
        (switch_to-Restated k1 t (Restated-runnable t r (v.homes.status_at t ready_list i))))
      (switch_to-OneRuns k1 t (none_runs-set new v s)) i least (rw (==_self t, status_of))

next_of-has : (t : ℕ) (xs : List ℕ) {n : ℕ} → next_of t xs ≡ some n → has n xs ≡ true
next_of-has t [] e = cc
next_of-has t (x ∷ xs) e = elim (Bool-cases (t == x)) [
  | inl y ↦ ground (arith, first-has xs (rw y at e))
  | inr y ↦ ground (arith, next_of-has t xs (rw y at e))
]

-- The first task of the ready list, and what no test has found above the current task.
module _ {k : Kernel} (st : ℕ) (v : IsValid k) (s : begin_of k ready_list ≡ some st) where
  first_least : (x : ℕ) → has x (nodes_of k ready_list) ≡ true → pri_of k st ≤ pri_of k x
  first_least x i = first-le (pri_of k) (nodes_of k ready_list) x v.sorted s i

  listed_first : has st (nodes_of k ready_list) ≡ true
  listed_first = first-has (nodes_of k ready_list) s

  module _ (on : is_runnable (status_of k k.cur_tcb) ≡ true)
      (above : ltb (pri_of k st) (pri_of k k.cur_tcb) ≡ false) where
    cur_least : (x : ℕ) → has x (nodes_of k ready_list) ≡ true → pri_of k k.cur_tcb ≤ pri_of k x
    cur_least x i = ground (arith, first_least x i)

    expire-Runs : Runs k (expire k st (next_of k.cur_tcb (nodes_of k ready_list)))
    unfolding expire
    expire-Runs =
        let new = record (k.tcbs k.cur_tcb) { time_slice = slice_width; status = ready } in
        let k1 = set_tcb k k.cur_tcb new in
        let to_first = over-Runs new st v refl refl refl on listed_first first_least in
        elim (Option-cases (next_of k.cur_tcb (nodes_of k ready_list))) [
          | inl e ↦ rw (e, expire) to_first
          | inr (n, e) ↦ elim (Bool-cases (pri_of k1 n == pri_of k1 k.cur_tcb)) [
            | inl same ↦
                let r = Restated-set k k.cur_tcb new refl refl refl on in
                let equal : pri_of k n ≡ pri_of k k.cur_tcb =
                  sym (r.pris n) ∙ ground (arith, same) ∙ r.pris k.cur_tcb in
                subst (λ o. Runs k (expire k st o)) (sym e)
                  (subst (λ b. Runs k (if b then switch_to k1 n else switch_to k1 st)) (sym same)
                    (over-Runs new n v refl refl refl on
                      (next_of-has k.cur_tcb (nodes_of k ready_list) e)
                      (λ x i. omega (arith, equal, cur_least x i))))
            | inr other ↦
                subst (λ o. Runs k (expire k st o)) (sym e)
                  (subst (λ b. Runs k (if b then switch_to k1 n else switch_to k1 st)) (sym other)
                    to_first)
          ]
        ]

  preempt-Runs :
      is_runnable (status_of k k.cur_tcb) ≡ true
      → Runs k (preempt k st (next_of k.cur_tcb (nodes_of k ready_list)))
  unfolding preempt
  preempt-Runs on =
      let nx = next_of k.cur_tcb (nodes_of k ready_list) in
      let home = v.homes.ready_home k.cur_tcb on in
      elim (Bool-cases (ltb (pri_of k st) (pri_of k k.cur_tcb))) [
        | inl e ↦
            rw (e, preempt)
              (over-Runs (record (k.tcbs k.cur_tcb) { status = ready }) st v refl refl refl on
                listed_first first_least)
        | inr e ↦ elim (Bool-cases ((k.tcbs k.cur_tcb).time_slice == 0)) [
          | inl z ↦ rw (e, preempt) (rw z (expire-Runs on e))
          | inr z ↦
              rw (e, preempt)
                (rw z (make-Runs v (Restated-refl k) v.homes.one_runs home (cur_least on e) on))
        ]
      ]

  -- With the policy `PreemptPri` and a ready task, the branches of `next_tcb` leave a task running
  -- that no ready task is above.
  choose-Runs : Runs k (choose preempt_pri k st (next_of k.cur_tcb (nodes_of k ready_list)))
  unfolding choose
  choose-Runs =
      elim (Bool-cases (
        is_status (status_of k k.cur_tcb) terminated
        || is_status (status_of k k.cur_tcb) blocked)) [
          | inl gone ↦
              rw (gone, choose) (leave-Runs st v (λ r. ground (arith, r)) listed_first first_least)
          | inr on ↦ rw (on, choose) (preempt-Runs (ground arith))
        ]

pub not_due :
    {k : Kernel} (x : ℕ) → IsValid k → has x (nodes_of k ready_list) ≡ true → is_due k x ≡ false
not_due {k} x v i = elim (Bool-cases (has x (nodes_of k sleeping_list))) [
  | inl j ↦ absurd (omega (arith, v.lists_ok.one_home x sleeping_list ready_list j i))
  | inr o ↦ rw o
]

-- PendSV with the policy `PreemptPri`: as long as some task is ready and does not sleep, `next_tcb`
-- succeeds. The tasks whose time has come are woken, the invariant holds, and the task that runs is
-- a runnable one that no ready task is above in priority.
pub next_tcb-Runs :
    {k : Kernel} (idle : ℕ)
    → IsValid k
    → has idle (nodes_of k ready_list) ≡ true
    → (k' : Kernel) × (k1 : Kernel) × (next_tcb preempt_pri k ≡ some k') × Woke k k1 × Runs k1 k'
unfolding next_tcb
next_tcb-Runs {k} idle v i =
    let (k1, e, w) =
      wake_up_sleeper-Woke (suc (length (nodes_of k sleeping_list))) v (omega arith) in
    let here = w.placed idle ready_list (not_due idle v i) ∙ i in
    elim (Option-cases (begin_of k1 ready_list)) [
      | inl empty ↦ absurd (no_first (nodes_of k1 ready_list) empty idle here)
      | inr (st, s) ↦ (
        choose preempt_pri k1 st (next_of k1.cur_tcb (nodes_of k1 ready_list)),
        k1,
        rw (e, next_tcb) (rw (s, next_tcb)),
        w,
        choose-Runs st w.valid s,
      )
    ]
