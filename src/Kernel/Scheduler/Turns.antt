-- ===== src/Kernel/Scheduler/Turns.antt =====
-- SysTick and PendSV one after the other, as long as nobody sleeps: the tasks of one priority take
-- turns.
pub mod Ticked
pub mod Tick
pub mod Fairness
use mos_core.Prelude.{
  ℕ, zero, suc, ◌+◌, ◌-◌, ◌*◌, ◌%◌, ◌^◌, ◌≤◌, ◌<◌, ◌≡◌, refl, ◌≢◌, Bool, true, false, not, ◌&&◌,
  ◌||◌, List, [], ◌∷◌, ◌++◌, Option, none, some, arith, ◌==◌, if◌then◌else◌, ltb, leb, length, ap,
  ap₂, sym, ◌∙◌, subst, ==_self, ==_ne, Bool-cases, inl, inr, append_assoc,
}
use mos_core.DataType.Sequence.{has, Distinct, Distinct-remove, has-append}
use mos_core.Kernel.State.{
  running, ready, Tcb, TcbList, Kernel, nodes_of, status_of, pri_of, ready_list, sleeping_list,
  begin_of, first, set_tcb, slice_width, u32, yield,
}
use mos_core.Kernel.State.Invariant.{is_runnable, update_self, update_ne}
use mos_core.Kernel.Task.{dec_tmslc, inc_ticks}
use mos_core.Kernel.Scheduler.{
  preempt_pri, next_of, switch_to, wake_up_sleeper, expire, preempt, choose, next_tcb, pend_sv,
  sys_tick,
}
use mos_core.Kernel.Scheduler.RoundRobin.{refilled, choose-preempt, preempt-expire, expire-switch}

-- One SysTick interrupt, and the PendSV interrupt that it asks for.
unfoldable pub tick : Kernel → Option Kernel
tick k = pend_sv preempt_pri (sys_tick k)

unfoldable pub ticks : ℕ → Kernel → Option Kernel
unfolding tick
ticks zero k = some k
ticks (suc n) k = elim (tick k) [ none ↦ none | some k' ↦ ticks n k' ]

abbrev pub slice_of : Kernel → ℕ → ℕ
slice_of k t = (k.tcbs t).time_slice

-- Interrupts and the scheduler are on, nobody sleeps, and the current task is the one in the middle of
-- the ready list, with no task of a higher priority there and some of its time slice left.
pub record Turn (k : Kernel) (front : List ℕ) (x : ℕ) (back : List ℕ) : Type 0 where
  pub irq_on : k.masked ≡ false
  pub scheduled : k.scheduling ≡ true
  pub awake : nodes_of k sleeping_list ≡ []
  pub order : nodes_of k ready_list ≡ front ++ x ∷ back
  pub current : k.cur_tcb ≡ x
  pub runs : is_runnable (status_of k x) ≡ true
  pub distinct : Distinct (front ++ x ∷ back)
  pub highest : (st : ℕ) → begin_of k ready_list ≡ some st → pri_of k x ≤ pri_of k st
  pub left : 0 < slice_of k x
  pub narrow : slice_of k x ≤ slice_width

-- The lists and the priorities are as they were, and so are the slices of the tasks but `x`.
pub record Kept (k k' : Kernel) (x : ℕ) : Type 0 where
  pub lists : k'.lists ≡ k.lists
  pub pris : (t : ℕ) → pri_of k' t ≡ pri_of k t
  pub slices : (t : ℕ) → t ≢ x → slice_of k' t ≡ slice_of k t
  pub irq : k'.masked ≡ k.masked
  pub scheduling : k'.scheduling ≡ k.scheduling

pub Kept-trans : {a b c : Kernel} {x : ℕ} → Kept a b x → Kept b c x → Kept a c x
Kept-trans p q = record {
  lists = q.lists ∙ p.lists;
  pris = λ t. q.pris t ∙ p.pris t;
  slices = λ t ne. q.slices t ne ∙ p.slices t ne;
  irq = q.irq ∙ p.irq;
  scheduling = q.scheduling ∙ p.scheduling;
}

-- A turn of another task of the same priority in a kernel that has kept its lists.
pub Kept-Turn :
    {k k' : Kernel} {front back front' back' : List ℕ} {x z : ℕ}
    → Turn k front x back
    → Kept k k' x
    → front ++ x ∷ back ≡ front' ++ z ∷ back'
    → k'.cur_tcb ≡ z
    → is_runnable (status_of k' z) ≡ true
    → pri_of k z ≡ pri_of k x
    → 0 < slice_of k' z
    → slice_of k' z ≤ slice_width
    → Turn k' front' z back'
Kept-Turn {k} {x = x} {z = z} turn kept places cur runs same left narrow = record {
  irq_on = kept.irq ∙ turn.irq_on;
  scheduled = kept.scheduling ∙ turn.scheduled;
  awake = ap (λ (f : ℕ → TcbList). (f sleeping_list).nodes) kept.lists ∙ turn.awake;
  order = ap (λ (f : ℕ → TcbList). (f ready_list).nodes) kept.lists ∙ turn.order ∙ places;
  current = cur;
  runs = runs;
  distinct = subst Distinct places turn.distinct;
  highest = λ st h.
      let old = ap (λ (f : ℕ → TcbList). first (f ready_list).nodes) (sym kept.lists) ∙ h in
      omega (arith, kept.pris z, kept.pris st, same, turn.highest st old);
  left = left;
  narrow = narrow;
}
