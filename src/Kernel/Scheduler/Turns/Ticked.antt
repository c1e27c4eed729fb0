-- ===== src/Kernel/Scheduler/Turns/Ticked.antt =====
-- The two handlers of a tick when nobody sleeps, and what they leave as it was.
use mos_core.Prelude.{
  ℕ, suc, ◌≤◌, ◌≡◌, refl, ◌≢◌, true, false, List, [], ◌∷◌, ◌++◌, Option, none, some, arith, ◌==◌,
  ltb, length, ap, sym, ◌∙◌, ==_self, ==_ne, Bool-cases, inl, inr,
}
use mos_core.DataType.Sequence.{has}
use mos_core.Kernel.State.{
  running, Kernel, nodes_of, status_of, pri_of, ready_list, sleeping_list, begin_of, first,
  slice_width, yield,
}
use mos_core.Kernel.Task.{dec_tmslc, inc_ticks}
use mos_core.Kernel.Scheduler.{
  preempt_pri, next_of, switch_to, wake_up_sleeper, preempt, choose, next_tcb, pend_sv, sys_tick,
}
use mos_core.Kernel.Scheduler.RoundRobin.{refilled}
use mos_core.Kernel.Scheduler.Turns.{tick, slice_of, Kept}

pub next_of-middle :
    (x : ℕ) (front : List ℕ) (back : List ℕ)
    → has x front ≡ false
    → next_of x (front ++ x ∷ back) ≡ first back
next_of-middle x [] back out = rw (==_self x)
next_of-middle x (y ∷ ys) back out = ground (arith, next_of-middle x ys back)

pub first-middle : (x : ℕ) (front back : List ℕ) → (st : ℕ) × (first (front ++ x ∷ back) ≡ some st)
first-middle x [] back = (x, refl)
first-middle x (y ∷ ys) back = (y, refl)

-- The kernel after the SysTick handler, when PendSV has been taken.
abbrev pub ticked : Kernel → Kernel
ticked k = record (dec_tmslc (inc_ticks k)) { pend = false }

pub next_tcb-awake :
    (k : Kernel) (st : ℕ)
    → begin_of k sleeping_list ≡ none
    → begin_of k ready_list ≡ some st
    → next_tcb preempt_pri k
      ≡ some (choose preempt_pri k st (next_of k.cur_tcb (nodes_of k ready_list)))
unfolding next_tcb
next_tcb-awake k st awake head =
    rw (stopped (length (nodes_of k sleeping_list)), next_tcb) (rw (head, next_tcb) refl)
  where
    stopped : (n : ℕ) → wake_up_sleeper (suc n) k ≡ some k
    stopped n = unfold wake_up_sleeper in rw (awake, wake_up_sleeper) refl

pub pend_sv-go :
    (k : Kernel)
    → k.pend ≡ true
    → k.masked ≡ false
    → pend_sv preempt_pri k ≡ next_tcb preempt_pri (record k { pend = false })
unfolding pend_sv
pend_sv-go k on irq = rw (on, irq) refl

pub sys_tick-go : (k : Kernel) → k.scheduling ≡ true → sys_tick k ≡ yield (dec_tmslc (inc_ticks k))
unfolding sys_tick inc_ticks
sys_tick-go k go = rw go refl

-- What `tick` comes to when nobody sleeps.
pub tick-choose :
    (k : Kernel) (st : ℕ)
    → k.masked ≡ false
    → k.scheduling ≡ true
    → nodes_of k sleeping_list ≡ []
    → begin_of k ready_list ≡ some st
    → tick k ≡ some (choose preempt_pri (ticked k) st (next_of k.cur_tcb (nodes_of k ready_list)))
unfolding tick dec_tmslc inc_ticks
tick-choose k st on go awake head =
    ap (pend_sv preempt_pri) (sys_tick-go k go)
    ∙ pend_sv-go (yield (dec_tmslc (inc_ticks k))) refl on
    ∙ next_tcb-awake (ticked k) st (ap first awake) head

-- The tick itself: the current task has one unit of its slice less.
pub ticked-slice :
    (k : Kernel) (s : ℕ)
    → slice_of k k.cur_tcb ≡ suc s
    → suc s ≤ slice_width
    → slice_of (ticked k) k.cur_tcb ≡ s
unfolding dec_tmslc inc_ticks
ticked-slice k s e le = rw (==_self k.cur_tcb, slice_of) (ground (arith, e))

pub ticked-Kept : (k : Kernel) → Kept k (ticked k) k.cur_tcb
unfolding dec_tmslc inc_ticks
ticked-Kept k = record {
  lists = refl;
  pris = λ t. elim (Bool-cases (t == k.cur_tcb)) [
    | inl e ↦ let here : t ≡ k.cur_tcb = ground arith in rw (e, pri_of) (ap (pri_of k) (sym here))
    | inr e ↦ rw (e, pri_of) refl
  ];
  slices = λ t ne. rw (==_ne t k.cur_tcb ne, slice_of) refl;
  irq = refl;
  scheduling = refl;
}

pub ticked-status : (k : Kernel) (t : ℕ) → status_of (ticked k) t ≡ status_of k t
unfolding dec_tmslc inc_ticks
ticked-status k t = elim (Bool-cases (t == k.cur_tcb)) [
  | inl e ↦
      let here : t ≡ k.cur_tcb = ground arith in rw (e, status_of) (ap (status_of k) (sym here))
  | inr e ↦ rw (e, status_of) refl
]

pub ticked-cur : (k : Kernel) → (ticked k).cur_tcb ≡ k.cur_tcb
unfolding dec_tmslc inc_ticks
ticked-cur k = refl

-- The switch at the end of a slice.
abbrev pub passed : Kernel → (st z : ℕ) → Kernel
passed k st z = switch_to (refilled k st z) z

pub passed-Kept : (k : Kernel) (st z : ℕ) → Kept k (passed k st z) k.cur_tcb
unfolding switch_to
passed-Kept k st z = record {
  lists = refl;
  pris = λ t. elim (Bool-cases (t == z)) [
    | inl e ↦
        let here : t ≡ z = ground arith in
        rw (e, pri_of) (pri_refilled z ∙ ap (pri_of k) (sym here))
    | inr e ↦ rw (e, pri_of) (pri_refilled t)
  ];
  slices = λ t ne. elim (Bool-cases (t == z)) [
    | inl e ↦
        let here : t ≡ z = ground arith in
        rw (e, slice_of) (slice_refilled z (λ y. ne (here ∙ y)) ∙ ap (slice_of k) (sym here))
    | inr e ↦ rw (e, slice_of) (slice_refilled t ne)
  ];
  irq = refl;
  scheduling = refl;
}
  where
    pri_refilled : (t : ℕ) → pri_of (refilled k st z) t ≡ pri_of k t
    pri_refilled t = elim (Bool-cases (t == k.cur_tcb)) [
      | inl e ↦ let here : t ≡ k.cur_tcb = ground arith in rw (e, pri_of) (ap (pri_of k) (sym here))
      | inr e ↦ rw (e, pri_of) refl
    ]

    slice_refilled : (t : ℕ) → t ≢ k.cur_tcb → slice_of (refilled k st z) t ≡ slice_of k t
    slice_refilled t ne = rw (==_ne t k.cur_tcb ne, slice_of) refl

pub passed-running :
    (k : Kernel) (st z : ℕ)
    → ((passed k st z).cur_tcb ≡ z) × (status_of (passed k st z) z ≡ running)
unfolding switch_to
passed-running k st z = (refl, rw (==_self z, status_of) refl)

pub preempt-stay :
    (k : Kernel) (st s x : ℕ) (nx : Option ℕ)
    → k.cur_tcb ≡ x
    → ltb (pri_of k st) (pri_of k x) ≡ false
    → slice_of k x ≡ suc s
    → preempt k st nx ≡ k
unfolding preempt
preempt-stay k st s x nx cur low e =
    let top : ltb (pri_of k st) (pri_of k k.cur_tcb) ≡ false =
      ap (λ t. ltb (pri_of k st) (pri_of k t)) cur ∙ low in
    let on : (slice_of k k.cur_tcb == 0) ≡ false = ground (arith, ap (slice_of k) cur ∙ e) in
    rw (top, on) refl
