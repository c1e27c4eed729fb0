-- ===== src/Kernel/Scheduler/RoundRobin.antt =====
-- The branches of `next_tcb` for a task that has used up its time slice.
use mos_core.Prelude.{ℕ, ◌≤◌, ◌≡◌, refl, true, false, ◌||◌, Option, some, arith, ◌==◌, ltb}
use mos_core.Kernel.State.{
  ready, blocked, terminated, Kernel, status_of, pri_of, is_status, set_tcb, slice_width,
}
use mos_core.Kernel.State.Invariant.{is_runnable}
use mos_core.Kernel.Scheduler.{preempt_pri, switch_to, expire, preempt, choose}
use mos_core.Kernel.Scheduler.Restate.{Restated-set}

-- The branches taken when the slice is used up and the next task has the same priority.
module _ (k : Kernel) (st n : ℕ) where
  abbrev pub refilled : Kernel
  refilled =
      set_tcb k k.cur_tcb (record (k.tcbs k.cur_tcb) { time_slice = slice_width; status = ready })

  pub choose-preempt :
      (nx : Option ℕ)
      → is_runnable (status_of k k.cur_tcb) ≡ true
      → choose preempt_pri k st nx ≡ preempt k st nx
  unfolding choose
  choose-preempt nx on =
      let here : (is_status (status_of k k.cur_tcb) terminated
            || is_status (status_of k k.cur_tcb) blocked)
          ≡ false =
        ground arith in
      rw (here, choose)

  pub preempt-expire :
      (nx : Option ℕ)
      → (k.tcbs k.cur_tcb).time_slice ≡ 0
      → pri_of k k.cur_tcb ≤ pri_of k st
      → preempt k st nx ≡ expire k st nx
  unfolding preempt
  preempt-expire nx z le =
      let above : ltb (pri_of k st) (pri_of k k.cur_tcb) ≡ false = ground arith in
      let used : ((k.tcbs k.cur_tcb).time_slice == 0) ≡ true = ground arith in
      rw (above, used, preempt)

  pub expire-switch :
      is_runnable (status_of k k.cur_tcb) ≡ true
      → pri_of k n ≡ pri_of k k.cur_tcb
      → expire k st (some n) ≡ switch_to refilled n
  unfolding expire
  expire-switch on same =
      let new = record (k.tcbs k.cur_tcb) { time_slice = slice_width; status = ready } in
      let r = Restated-set k k.cur_tcb new refl refl refl on in
      let equal : (pri_of refilled n == pri_of refilled k.cur_tcb) ≡ true =
        ground (arith, r.pris n, r.pris k.cur_tcb) in
      rw (equal, expire)
