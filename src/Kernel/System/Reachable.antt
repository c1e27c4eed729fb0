-- ===== src/Kernel/System/Reachable.antt =====
-- The invariant holds in every state that the steps of `Step` reach, and the context switch always
-- finds a task to run.
use mos_core.Prelude.{
  ℕ, ◌+◌, ◌-◌, ◌%◌, ◌≡◌, refl, ◌≢◌, Bool, true, false, Option, none, some, arith, ◌==◌, leb,
  Bool-cases, inl, inr, sym, ap, ◌∙◌, if◌then◌else◌, subst,
}
use mos_core.DataType.Sequence.{has}
use mos_core.Kernel.State.{
  blocked, Tcb, TcbList, Kernel, nodes_of, status_of, ready_list, slice_width, u32, yield,
}
use mos_core.Kernel.State.Lists.{Homeless}
use mos_core.Kernel.State.Invariant.{is_runnable, IsValid, IsValid-core}
use mos_core.Kernel.Task.{
  assert_irq, block_to, block_to_in_order, delay, resume, resume_from_isr, change_pri, terminate,
  create_raw, dec_tmslc, inc_ticks,
}
use mos_core.Kernel.Task.Block.{block_to-BlockedAt, delay-BlockedAt}
use mos_core.Kernel.Task.Resume.{resume-ResumedAt, resume_from_isr-ResumedAt, change_pri-IsValid}
use mos_core.Kernel.Task.Lifecycle.{terminate-EndedIn}
use mos_core.Kernel.Task.Create.Created.{create_raw-Created}
use mos_core.Kernel.Scheduler.{next_tcb, preempt_pri, sys_tick}
use mos_core.Kernel.Scheduler.Restate.{Restated-IsValid}
use mos_core.Kernel.Scheduler.Wake.{Woke}
use mos_core.Kernel.Scheduler.Choice.{Runs, next_tcb-Runs, not_due}
use mos_core.Kernel.Sync.Placed.{same_member, same_status}
use mos_core.Kernel.System.Sound.{Sound, still_listed, down-Sound, up_raw-Sound, up-Sound}
use mos_core.Kernel.System.{
  Step, blocking, delaying, resuming, resuming_from_isr, changing_pri, terminating, creating,
  switching, ticking, downing, upping, upping_from_isr, Reach, start, then_step,
}

none-ne : {k : Kernel} → ◌≡◌ {A = Option Kernel} none (some k) → ⊥
none-ne e = cc

-- An operation behind `MOS_ASSERT` that succeeds was called with interrupts enabled.
assert_irq-masked :
    (k : Kernel) (r : Option Kernel) {k' : Kernel} → assert_irq k r ≡ some k' → k.masked ≡ false
assert_irq-masked k r e = elim (Bool-cases k.masked) [
  | inl on ↦ absurd (none-ne (rw on at e))
  | inr off ↦ off
]

same_result : {a b : Kernel} (o : Option Kernel) → o ≡ some a → o ≡ some b → a ≡ b
same_result o e f = cc

same_task :
    {a b : Kernel} {page : ℕ} (o : Option (ℕ × Kernel))
    → o ≡ some (page, a)
    → o ≡ some (page, b)
    → a ≡ b
same_task o e f = cc

dec_tmslc-IsValid : {k : Kernel} → IsValid k → IsValid (dec_tmslc k)
unfolding dec_tmslc
dec_tmslc-IsValid {k} v =
    let s =
      if leb (k.tcbs k.cur_tcb).time_slice slice_width
      then ((k.tcbs k.cur_tcb).time_slice + u32 - 1) % u32
      else 0 in
    let new = record (k.tcbs k.cur_tcb) { time_slice = s } in
    let same = same_status k k.cur_tcb new refl in
    Restated-IsValid v
      (record {
        lists = refl;
        pris = λ x. same_member k k.cur_tcb new (λ u. u.pri) refl x;
        wkpts = λ x. same_member k k.cur_tcb new (λ u. u.wake_point) refl x;
        states = λ x. inl (same x);
      })
      (λ x r. v.homes.one_runs x (sym (same x) ∙ r))

inc_ticks-Sound : {idle : ℕ} {k : Kernel} → Sound idle k → Sound idle (inc_ticks k)
unfolding inc_ticks
inc_ticks-Sound {idle} {k} s = record {
  valid = IsValid-core (inc_ticks k) s.valid;
  listed = s.listed;
}

counted_down :
    {idle : ℕ} {k : Kernel} (b : Bool)
    → Sound idle k
    → Sound idle (if b then yield (dec_tmslc k) else k)
unfolding dec_tmslc
counted_down {idle} {k} true s = record {
  valid = IsValid-core (yield (dec_tmslc k)) (dec_tmslc-IsValid s.valid);
  listed = s.listed;
}
counted_down false s = s

sys_tick-Sound : {idle : ℕ} {k : Kernel} → Sound idle k → Sound idle (sys_tick k)
unfolding sys_tick
sys_tick-Sound {idle} {k} s = counted_down (inc_ticks k).scheduling (inc_ticks-Sound s)

not_idle : {idle : ℕ} {k : Kernel} (t : ℕ) → Sound idle k → status_of k t ≡ blocked → idle ≢ t
not_idle {idle} {k} t s b e = absurd (
    blocked-ne (
      sym (ap is_runnable b)
      ∙ ap (λ a. is_runnable (status_of k a)) (sym e)
      ∙ s.valid.homes.status_at idle ready_list s.listed))
  where
    blocked-ne : is_runnable blocked ≢ true
    blocked-ne e = cc

listed-Homeless : {idle : ℕ} {k : Kernel} (t : ℕ) → Sound idle k → Homeless k.lists t → idle ≢ t
listed-Homeless {idle} {k} t s out e =
    ground (arith, s.listed, out ready_list, ap (λ a. has a (nodes_of k ready_list)) e)

by_task :
    (k k' : Kernel) (t x : ℕ)
    → status_of k' t ≡ status_of k t
    → ((y : ℕ) → y ≢ t → k'.tcbs y ≡ k.tcbs y)
    → status_of k' x ≡ status_of k x
by_task k k' t x same others = elim (Bool-cases (x == t)) [
  | inl e ↦
      let here : x ≡ t = ground arith in subst (λ a. status_of k' a ≡ status_of k a) (sym here) same
  | inr e ↦ ap (λ (u : Tcb). u.status) (others x (ground arith))
]

Step-Sound : {idle : ℕ} {k k' : Kernel} → Sound idle k → Step idle k k' → Sound idle k'
unfolding block_to delay block_to_in_order resume resume_from_isr change_pri terminate
Step-Sound {idle} {k} s (blocking t dest e nz ni r q) =
    let (k1, f, b) = block_to-BlockedAt t dest s.valid (assert_irq-masked k _ e) nz r q in
    subst (Sound idle) (same_result (block_to k t dest) f e)
      (still_listed s b.valid (ap (λ (u : Tcb). u.status) (b.others idle (λ x. ni (sym x)))))
Step-Sound {idle} {k} s (delaying ticks e nz ni r) =
    let (k1, f, b, _) = delay-BlockedAt ticks s.valid (assert_irq-masked k _ e) nz r in
    subst (Sound idle) (same_result (delay k ticks) f e)
      (still_listed s b.valid (ap (λ (u : Tcb). u.status) (b.others idle (λ x. ni (sym x)))))
Step-Sound {idle} {k} s (resuming t src e nz b i) =
    let (k1, f, r, _) = resume-ResumedAt t src s.valid (assert_irq-masked k _ e) nz b i in
    subst (Sound idle) (same_result (resume k t src) f e)
      (still_listed s r.valid (ap (λ (u : Tcb). u.status) (r.others idle (not_idle t s b))))
Step-Sound {idle} {k} s (resuming_from_isr t src e nz b i) =
    let (k1, f, r, _) = resume_from_isr-ResumedAt t src s.valid (assert_irq-masked k _ e) nz b i in
    subst (Sound idle) (same_result (resume_from_isr k t src) f e)
      (still_listed s r.valid (ap (λ (u : Tcb). u.status) (r.others idle (not_idle t s b))))
Step-Sound {idle} {k} s (changing_pri t pri e r) =
    let (k1, f, v, _, same, others, _) =
      change_pri-IsValid t pri s.valid (assert_irq-masked k _ e) r in
    subst (Sound idle) (same_result (change_pri k t pri) f e)
      (still_listed s v (by_task k k1 t idle same others))
Step-Sound {idle} {k} s (terminating t e nz ni st i) =
    let (k1, f, r, _) = terminate-EndedIn t s.valid (assert_irq-masked k _ e) nz st i in
    subst (Sound idle) (same_result (terminate k t) f e)
      (still_listed s r.valid (ap (λ (u : Tcb). u.status) (r.others idle (λ x. ni (sym x)))))
Step-Sound {idle} {k} s (creating fn pri page policy e some_fn nz room out) =
    let (k1, f, c) = create_raw-Created pri policy page s.valid nz room out fn some_fn in
    subst (Sound idle) (same_task (create_raw k fn pri policy page) f e) (
      still_listed s c.valid
        (ap (λ (u : Tcb). u.status) (c.others idle (listed-Homeless page s out))))
Step-Sound {idle} {k} s (switching e) =
    let (k1, k0, f, w, r) = next_tcb-Runs idle s.valid s.listed in
    subst (Sound idle) (same_result (next_tcb preempt_pri k) f e) record {
      valid = r.valid;
      listed =
          ap (λ (g : ℕ → TcbList). has idle (g ready_list).nodes) r.lists
          ∙ w.placed idle ready_list (not_due idle s.valid s.listed)
          ∙ s.listed;
    }
Step-Sound s (downing sem e ni r q) = down-Sound sem s e ni r q
Step-Sound s (upping sem e) = up-Sound sem s e
Step-Sound s (upping_from_isr sem e) = up_raw-Sound sem s e
Step-Sound s ticking = sys_tick-Sound s

Reach-Sound : {idle : ℕ} {k k' : Kernel} → Sound idle k → Reach idle k k' → Sound idle k'
Reach-Sound s start = s
Reach-Sound s (then_step r step) = Step-Sound (Reach-Sound s r) step

-- From a state with the invariant, in which the idle task is in the ready list, any sequence of
-- these operations, each called as said here: `block_to` of a runnable task to `blocked_list` or
-- to the list of a semaphore or the like, and `delay` of a runnable one; `resume` and
-- `resume_from_isr` of a blocked task with the list that it is in; `change_pri` of a runnable task;
-- `terminate` of a task in the list that its status and its wake point name; `create_raw` on a page
-- in no list, with room in the table; `down` of a runnable task, `up` and `up_from_isr`; ticks and
-- context switches. The idle task is neither blocked nor ended. Then the invariant holds, and the
-- context switch succeeds and runs a runnable task that no ready task is above in priority.
pub Reach-Runs :
    {idle : ℕ} {k k' : Kernel}
    → Sound idle k
    → Reach idle k k'
    → IsValid k'
      × ((k2 : Kernel) × (k1 : Kernel) × (next_tcb preempt_pri k' ≡ some k2)
          × Woke k' k1
          × Runs k1 k2)
Reach-Runs {idle} s r =
    let end_state = Reach-Sound s r in
    (end_state.valid, next_tcb-Runs idle end_state.valid end_state.listed)
