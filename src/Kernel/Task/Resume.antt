-- ===== src/Kernel/Task/Resume.antt =====
-- `resume`, `wake_raw` and `change_pri` keep the invariant, and where the task is afterwards.
use mos_core.Prelude.{
  ℕ, ◌<◌, ◌≡◌, refl, ◌≢◌, Bool, true, false, some, arith, Bool-cases, Option-cases, inl, inr, sym,
  ap, ◌∙◌, ==_ne, subst,
}
use mos_core.DataType.Sequence.{has}
use mos_core.Kernel.State.{
  ready, blocked, Kernel, nodes_of, status_of, pri_of, wkpt_of, ready_list, sleeping_list, set_tcb,
  send_to_in_order, begin_of, pri_cmp, yield, Tcb, no_tick,
}
use mos_core.Kernel.State.Lists.{send_to_in_order-Moved}
use mos_core.Kernel.State.Invariant.{
  is_runnable, IsValid, IsValid-core, ready-IsValid, update_self, update_ne, first-le,
}
use mos_core.Kernel.Task.{
  yield_if, any_higher, resume_raw, resume, resume_from_isr, change_pri, wake_raw,
}
use mos_core.Kernel.Task.Block.{timed, set_status-set_wkpt, yield_if-IsValid, yield_if-tcbs}

-- The task is ready, in the ready list, and the other tasks are where they were.
pub record ResumedAt (k k' : Kernel) (t : ℕ) : Type 0 where
  pub valid : IsValid k'
  pub status : status_of k' t ≡ ready
  pub listed : has t (nodes_of k' ready_list) ≡ true
  pub alone : (x m : ℕ) → x ≢ t → has x (nodes_of k' m) ≡ has x (nodes_of k m)
  pub others : (x : ℕ) → x ≢ t → k'.tcbs x ≡ k.tcbs x
  pub same_cur : k'.cur_tcb ≡ k.cur_tcb

-- `resume_raw` takes a blocked task from its list to its place in the ready list.
pub resume_raw-ResumedAt :
    {k : Kernel} (t src : ℕ)
    → IsValid k
    → has t (nodes_of k src) ≡ true
    → ResumedAt k (resume_raw k t src) t
unfolding resume_raw
resume_raw-ResumedAt {k} t src v i =
    let new = record (k.tcbs t) { status = ready } in
    let m =
      send_to_in_order-Moved (set_tcb k t new) src ready_list t v.lists_ok i
        (pri_cmp (set_tcb k t new)) in
    record {
      valid = ready-IsValid v t new src i (λ e. cc) refl;
      status = ap (λ (u : Tcb). u.status) (update_self k.tcbs t new);
      listed = ground (arith, m.has_at t ready_list);
      alone = λ x n ne. ground (arith, m.has_at x n);
      others = λ x ne. update_ne k.tcbs t x new ne;
      same_cur = refl;
    }

-- What the scheduler does not have to find out: a ready task above the current one brings a switch.
abbrev pub Preempts : Kernel → Type 0
Preempts k =
    (x : ℕ) → has x (nodes_of k ready_list) ≡ true → pri_of k x < pri_of k k.cur_tcb → k.pend ≡ true

not_first :
    {k : Kernel} (x : ℕ)
    → IsValid k
    → has x (nodes_of k ready_list) ≡ true
    → pri_of k x < pri_of k k.cur_tcb
    → any_higher k k.cur_tcb ≡ false
    → ⊥
not_first {k} x v i lt e = elim (Option-cases (begin_of k ready_list)) [
  | inl empty ↦ ground arith
  | inr (st, found) ↦
      let cur : k.cur_tcb ≡ st = ground arith in
      let least = first-le (pri_of k) (nodes_of k ready_list) x v.sorted found i in
      absurd (omega (arith, least, ap (pri_of k) cur))
]

pub any_higher-Preempts : {k : Kernel} → IsValid k → Preempts (yield_if (any_higher k k.cur_tcb) k)
any_higher-Preempts {k} v = elim (Bool-cases (any_higher k k.cur_tcb)) [
  | inl e ↦ subst (λ b. Preempts (yield_if b k)) (sym e) (λ x i lt. refl)
  | inr e ↦ subst (λ b. Preempts (yield_if b k)) (sym e) (λ x i lt. absurd (not_first x v i lt e))
]

pub yield_if-ResumedAt :
    {k k' : Kernel} (t : ℕ) (b : Bool) → ResumedAt k k' t → ResumedAt k (yield_if b k') t
yield_if-ResumedAt {k} {k'} t true r = record {
  valid = IsValid-core (yield k') r.valid;
  status = r.status;
  listed = r.listed;
  alone = r.alone;
  others = r.others;
  same_cur = r.same_cur;
}
yield_if-ResumedAt t false r = r

-- `resume` of a task that is blocked in the list `src` succeeds with interrupts enabled: it is ready,
-- at its place in the ready list, the other tasks are as they were, the invariant holds, and a
-- switch is asked for if a ready task is above the current one.
pub resume-ResumedAt :
    {k : Kernel} (t src : ℕ)
    → IsValid k
    → k.masked ≡ false
    → t ≢ 0
    → status_of k t ≡ blocked
    → has t (nodes_of k src) ≡ true
    → (k' : Kernel) × (resume k t src ≡ some k') × ResumedAt k k' t × Preempts k'
unfolding resume
resume-ResumedAt {k} t src v on nz s i =
    let k1 = resume_raw k t src in
    let r = resume_raw-ResumedAt t src v i in
    let b = any_higher k1 k1.cur_tcb in
    (yield_if b k1, rw (on, ==_ne t 0 nz, s), yield_if-ResumedAt t b r, any_higher-Preempts r.valid)

-- `resume_from_isr` of a blocked task does the same and asks for no switch.
pub resume_from_isr-ResumedAt :
    {k : Kernel} (t src : ℕ)
    → IsValid k
    → k.masked ≡ false
    → t ≢ 0
    → status_of k t ≡ blocked
    → has t (nodes_of k src) ≡ true
    → (k' : Kernel) × (resume_from_isr k t src ≡ some k') × ResumedAt k k' t × (k'.pend ≡ k.pend)
unfolding resume_from_isr
resume_from_isr-ResumedAt {k} t src v on nz s i =
    (resume_raw k t src, rw (on, ==_ne t 0 nz, s), resume_raw-ResumedAt t src v i, refl)

-- The sleeper that `wake_raw` is given becomes ready, without a wake point.
pub wake_raw-ResumedAt :
    {k : Kernel} (t : ℕ)
    → IsValid k
    → has t (nodes_of k sleeping_list) ≡ true
    → ResumedAt k (wake_raw k t) t × (wkpt_of (wake_raw k t) t ≡ no_tick)
unfolding wake_raw resume_raw
wake_raw-ResumedAt {k} t v i =
    let new = timed k t no_tick ready in
    let m =
      send_to_in_order-Moved (set_tcb k t new) sleeping_list ready_list t v.lists_ok i
        (pri_cmp (set_tcb k t new)) in
    subst
      (λ k1.
        ResumedAt k (send_to_in_order k1 sleeping_list ready_list (pri_cmp k1) t) t
        × (wkpt_of k1 t ≡ no_tick))
      (sym (set_status-set_wkpt k t no_tick ready))
      (
        record {
          valid = ready-IsValid v t new sleeping_list i (λ e. cc) refl;
          status = ap (λ (u : Tcb). u.status) (update_self k.tcbs t new);
          listed = ground (arith, m.has_at t ready_list);
          alone = λ x n ne. ground (arith, m.has_at x n);
          others = λ x ne. update_ne k.tcbs t x new ne;
          same_cur = refl;
        },
        ap (λ (u : Tcb). u.wake_point) (update_self k.tcbs t new),
      )

-- `change_pri` of a runnable task gives it the priority and its place in the ready list; the other
-- tasks are as they were, the invariant holds, and a switch is asked for if a ready task is above
-- the current one.
pub change_pri-IsValid :
    {k : Kernel} (t pri : ℕ)
    → IsValid k
    → k.masked ≡ false
    → is_runnable (status_of k t) ≡ true
    → (k' : Kernel) × (change_pri k t pri ≡ some k')
      × IsValid k'
      × (pri_of k' t ≡ pri)
      × (status_of k' t ≡ status_of k t)
      × ((x : ℕ) → x ≢ t → k'.tcbs x ≡ k.tcbs x)
      × Preempts k'
unfolding change_pri
change_pri-IsValid {k} t pri v on r =
    let new = record (k.tcbs t) { pri = pri } in
    let k1 = set_tcb k t new in
    let k2 = send_to_in_order k1 ready_list ready_list (pri_cmp k1) t in
    let valid = ready-IsValid v t new ready_list (v.homes.ready_home t r) (v.homes.one_runs t) r in
    let b = any_higher k2 k2.cur_tcb in
    let tcbs = yield_if-tcbs b k2 in
    (
      yield_if b k2,
      rw on,
      yield_if-IsValid b valid,
      ap (λ f. (f t).pri) tcbs ∙ ap (λ (u : Tcb). u.pri) (update_self k.tcbs t new),
      ap (λ f. (f t).status) tcbs ∙ ap (λ (u : Tcb). u.status) (update_self k.tcbs t new),
      λ x ne. ap (λ f. f x) tcbs ∙ update_ne k.tcbs t x new ne,
      any_higher-Preempts valid,
    )
