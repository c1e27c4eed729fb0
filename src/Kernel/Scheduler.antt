-- ===== src/Kernel/Scheduler.antt =====
-- kernel/scheduler.hpp: the choice of the next task, the guard that suspends scheduling, the start
-- of the system, and the SysTick and PendSV handlers.
pub mod Wake
pub mod Restate
pub mod Choice
pub mod RoundRobin
pub mod Turns
pub mod Suspend
use mos_core.Prelude.{
  ℕ, zero, suc, ◌+◌, ◌-◌, ◌≡◌, Bool, true, false, not, ◌&&◌, ◌||◌, List, [], ◌∷◌, Option, none,
  some, ◌==◌, if◌then◌else◌, ltb, length,
}
use mos_core.Kernel.State.{
  Status, terminated, ready, running, blocked, Tcb, is_status, Kernel, ready_list, sleeping_list,
  nodes_of, status_of, pri_of, wkpt_of, set_tcb, set_status, yield, first, is_empty, begin_of,
  slice_width,
}
use mos_core.Kernel.Task.{wake_raw, inc_ticks, dec_tmslc}

pub data SchedPolicy : Type 0 where
  round_robin preempt_pri : SchedPolicy

-- `cr->next()` in the ready list, `none` for `end()`.
abbrev pub next_of : ℕ → List ℕ → Option ℕ
next_of t [] = none
next_of t (x ∷ xs) = if t == x then first xs else next_of t xs

unfoldable pub switch_to : Kernel → ℕ → Kernel
switch_to k t = record (set_status k t running) { cur_tcb = t; debug_tid = (k.tcbs t).tid }

-- The loop of `wake_up_sleeper`; `none` when the fuel runs out.
unfoldable pub wake_up_sleeper : ℕ → Kernel → Option Kernel
wake_up_sleeper zero k = none
wake_up_sleeper (suc fuel) k = elim (begin_of k sleeping_list) [
  | none ↦ some k
  | some t ↦
      let rest = wake_up_sleeper fuel (wake_raw k t) in
      if ltb k.os_ticks (wkpt_of k t) then some k else rest
]

-- The branches behind `wake_up_sleeper`, with `st` the first task of the ready list and `nx` the
-- one behind the current task. First the branch for a time slice that is used up.
unfoldable pub expire : Kernel → (st : ℕ) → (nx : Option ℕ) → Kernel
unfolding switch_to
expire k st nx =
    let cr = k.cur_tcb in
    let k1 = set_tcb k cr (record (k.tcbs cr) { time_slice = slice_width; status = ready }) in
    elim nx [
      | none ↦ switch_to k1 st
      | some n ↦ if pri_of k1 n == pri_of k1 cr then switch_to k1 n else switch_to k1 st
    ]

unfoldable pub preempt : Kernel → (st : ℕ) → (nx : Option ℕ) → Kernel
unfolding switch_to expire
preempt k st nx =
    let cr = k.cur_tcb in
    if ltb (pri_of k st) (pri_of k cr)
    then switch_to (set_status k cr ready) st
    else if (k.tcbs cr).time_slice == 0
    then expire k st nx
    else k

unfoldable pub choose : SchedPolicy → Kernel → (st : ℕ) → (nx : Option ℕ) → Kernel
unfolding switch_to preempt
choose policy k st nx =
    let cr = k.cur_tcb in
    if is_status (status_of k cr) terminated || is_status (status_of k cr) blocked
    then switch_to k st
    else elim policy [ round_robin ↦ k | preempt_pri ↦ preempt k st nx ]

-- `next_tcb`: `none` when no task is ready, for then the head of the list would be run. There is
-- one round of fuel for each sleeper, and one to stop.
unfoldable pub next_tcb : SchedPolicy → Kernel → Option Kernel
unfolding wake_up_sleeper choose
next_tcb policy k = elim (wake_up_sleeper (suc (length (nodes_of k sleeping_list))) k) [
  | none ↦ none
  | some k1 ↦ elim (begin_of k1 ready_list) [
    | none ↦ none
    | some st ↦ some (choose policy k1 st (next_of k1.cur_tcb (nodes_of k1 ready_list)))
  ]
]

-- The PendSV handler, which saves the context, calls `next_tcb` and loads the context of `cur_tcb`.
unfoldable pub pend_sv : SchedPolicy → Kernel → Option Kernel
unfolding next_tcb
pend_sv policy k =
    if k.pend && not k.masked then next_tcb policy (record k { pend = false }) else some k

-- The SysTick handler.
unfoldable pub sys_tick : Kernel → Kernel
sys_tick k = let k1 = inc_ticks k in if k1.scheduling then yield (dec_tmslc k1) else k1

-- `launch` behind the creation of the idle task.
unfoldable pub launch : Kernel → Option Kernel
launch k = if is_empty k ready_list then none else elim (begin_of k ready_list) [
  | none ↦ none
  | some t ↦ some (record (set_status k t running) { cur_tcb = t; scheduling = true })
]
