-- ===== src/Kernel/Task.antt =====
-- kernel/task.hpp: creating, ending, blocking, resuming and delaying tasks.
-- An operation that stops in `MOS_ASSERT`, or that would go on with `end()` or `nullptr` as a task,
-- returns `none`. `IrqGuard_t` makes the body of an operation one step; the switch that `yield` asks
-- for comes after it (`Scheduler.pend_sv`).
pub mod Block
pub mod Resume
pub mod Lifecycle
pub mod Numbers
pub mod Recycle
pub mod Create
use mos_core.Prelude.{
  ℕ, zero, suc, ◌+◌, ◌-◌, ◌%◌, ◌^◌, ◌≡◌, Bool, true, false, not, ◌&&◌, ◌||◌, List, [], ◌∷◌, ◌++◌,
  Option, none, some, ◌==◌, if◌then◌else◌, ltb, leb,
}
use mos_core.Kernel.Page
use mos_core.Kernel.Page.{Page}
use mos_core.DataType.BitMap.{first_zero, set_bit, reset_bit}
use mos_core.Kernel.State.{
  Status, terminated, ready, running, blocked, PagePolicy, static_page, pool_page, dynamic_page,
  error_page, Tcb, is_status, is_dynamic, is_sleeping, build, Kernel, ready_list, blocked_list,
  sleeping_list, zombie_list, nodes_of, status_of, pri_of, update, set_tcb, set_status, set_wkpt,
  yield, first, is_empty, begin_of, remove_from, add_to, insert_in_order, pri_cmp, wkpt_cmp,
  send_to, send_to_in_order, debug_add, debug_remove, find_slot, slice_width, task_max, no_tick,
  u32,
}

-- `MOS_ASSERT(test_irq(), …)` in front of an operation.
abbrev pub assert_irq : Kernel → Option Kernel → Option Kernel
assert_irq k r = if k.masked then none else r

-- Whether the task is not the first one of the ready list.
abbrev pub any_higher : Kernel → ℕ → Bool
any_higher k t = elim (begin_of k ready_list) [ none ↦ true | some st ↦ not (t == st) ]

abbrev pub yield_if : Bool → Kernel → Kernel
yield_if b k = if b then yield k else k

unfoldable pub dec_tmslc : Kernel → Kernel
dec_tmslc k =
    let t = k.tcbs k.cur_tcb in
    set_tcb k k.cur_tcb (record t {
      time_slice = if leb t.time_slice slice_width then (t.time_slice + u32 - 1) % u32 else 0;
    })

unfoldable pub inc_ticks : Kernel → Kernel
inc_ticks k = record k { os_ticks = (k.os_ticks + 1) % u32 }

-- The page of each task, and the memory that has been given back to the heap.
pub record Heap : Type 0 where
  pub pages : ℕ → Page
  pub deleted : List ℕ

-- `release`: the page is recycled; `remove` has linked the node to itself already.
unfoldable pub release : Heap → (t : ℕ) → Heap
release h t =
    let (page, deleted) = Page.recycle (h.pages t) h.deleted in
    record { pages = update h.pages t page; deleted = deleted }

-- The loop of `recycle`: each zombie leaves its list and is released. `none` is the end of the fuel,
-- or `begin()` of a list without nodes as a task.
unfoldable pub recycle_zombies : ℕ → Kernel → Heap → Option (Kernel × Heap)
unfolding release
recycle_zombies zero k h = none
recycle_zombies (suc fuel) k h =
    let rest : Option (Kernel × Heap) = elim (begin_of k zombie_list) [
      | none ↦ none
      | some t ↦ recycle_zombies fuel (remove_from k zombie_list t) (release h t)
    ] in
    if is_empty k zombie_list then some (k, h) else rest

unfoldable pub recycle : ℕ → Kernel → Heap → Option (Kernel × Heap)
unfolding recycle_zombies
recycle fuel k h = elim (recycle_zombies fuel k h) [
  | none ↦ none
  | some (k', h') ↦ some (yield k', h')
]

-- The list that `terminate_raw` takes the task from.
unfoldable pub home_guess : Tcb → ℕ
home_guess t =
    if is_status t.status running || is_status t.status ready
    then ready_list
    else if is_sleeping t
    then sleeping_list
    else blocked_list

-- `release` of a task that is in no list, on a page that is not dynamic, changes nothing.
unfoldable pub terminate_raw : Kernel → ℕ → Kernel
unfolding home_guess
terminate_raw k t =
    let k1 = set_status (remove_from k (home_guess (k.tcbs t)) t) t terminated in
    let k2 = debug_remove (record k1 { tids = reset_bit k1.tids (k1.tcbs t).tid }) t in
    if is_dynamic (k2.tcbs t).policy then add_to k2 zombie_list t else k2

unfoldable pub terminate : Kernel → ℕ → Option Kernel
unfolding terminate_raw
terminate k t = assert_irq k (
    some (
      if (t == 0) || is_status (status_of k t) terminated
      then k
      else yield_if (t == k.cur_tcb) (terminate_raw k t)))

-- `tids.first_zero()`, then `tids.set`; with no free bit the position is -1, outside of the words.
unfoldable pub tid_alloc : Kernel → ℕ × Kernel
tid_alloc k = elim (first_zero k.tids) [
  | none ↦ (no_tick, record k { tids = set_bit k.tids no_tick })
  | some tid ↦ (tid, record k { tids = set_bit k.tids tid })
]

-- `create_raw` behind its assertion, on the page at address `page`; the result is the task, or
-- `nullptr`. The argument and the name are not read by the kernel again, and what `load_context`
-- writes to the stack is not part of the state (Kernel/Page has it).
unfoldable pub create_task : Kernel → (pri : ℕ) → PagePolicy → (page : ℕ) → ℕ × Kernel
unfolding tid_alloc
create_task k pri policy page =
    if page == 0
    then (0, k)
    else if leb task_max k.debug_len
    then (0, k)
    else (let (tid, k1) = tid_alloc k in
        let t = record (build pri policy) {
          tid = tid;
          stamp = k.os_ticks;
          parent = k.cur_tcb;
          status = ready;
        } in
        let k2 = set_tcb k1 page t in
        (page, debug_add (insert_in_order k2 ready_list (pri_cmp k2) page) page))

-- The function is asserted not to be null.
unfoldable pub create_raw : Kernel → (fn pri : ℕ) → PagePolicy → (page : ℕ) → Option (ℕ × Kernel)
unfolding create_task
create_raw k fn pri policy page = if fn == 0 then none else some (create_task k pri policy page)

-- `pri_cmp(tcb, current())` reads both tasks, also where one of them is `nullptr`: it then reads the
-- memory at address 0, which is `tcbs 0`.
unfoldable pub create_impl : Kernel → (fn pri : ℕ) → PagePolicy → (page : ℕ) → Option (ℕ × Kernel)
unfolding create_raw
create_impl k fn pri policy page =
    let made = create_raw k fn pri policy page in
    if k.masked
    then none
    else elim made [ none ↦ none | some (t, k1) ↦ some (t, yield_if (pri_cmp k1 t k1.cur_tcb) k1) ]

unfoldable pub block_to_raw : Kernel → ℕ → ℕ → Kernel
block_to_raw k t dest = send_to (set_status k t blocked) ready_list dest t

unfoldable pub block_to_in_order_raw : Kernel → ℕ → ℕ → (Kernel → ℕ → ℕ → Bool) → Kernel
block_to_in_order_raw k t dest cmp =
    let k1 = set_status k t blocked in send_to_in_order k1 ready_list dest (cmp k1) t

unfoldable pub block_to : Kernel → ℕ → ℕ → Option Kernel
unfolding block_to_raw
block_to k t dest = assert_irq k (
    some (
      if (t == 0) || is_status (status_of k t) blocked
      then k
      else yield_if (t == k.cur_tcb) (block_to_raw k t dest)))

unfoldable pub block_to_in_order : Kernel → ℕ → ℕ → (Kernel → ℕ → ℕ → Bool) → Option Kernel
unfolding block_to_in_order_raw
block_to_in_order k t dest cmp = assert_irq k (
    some (
      if (t == 0) || is_status (status_of k t) blocked
      then k
      else yield_if (t == k.cur_tcb) (block_to_in_order_raw k t dest cmp)))

unfoldable pub block : Kernel → ℕ → Option Kernel
unfolding block_to
block k t = block_to k t blocked_list

unfoldable pub resume_raw : Kernel → ℕ → ℕ → Kernel
resume_raw k t src =
    let k1 = set_status k t ready in send_to_in_order k1 src ready_list (pri_cmp k1) t

unfoldable pub resume : Kernel → ℕ → ℕ → Option Kernel
unfolding resume_raw
resume k t src = assert_irq k (
    some (
      if (t == 0) || not (is_status (status_of k t) blocked)
      then k
      else (let k1 = resume_raw k t src in yield_if (any_higher k1 k1.cur_tcb) k1)))

unfoldable pub resume_from_isr : Kernel → ℕ → ℕ → Option Kernel
unfolding resume_raw
resume_from_isr k t src =
    assert_irq k
      (some (if (t == 0) || not (is_status (status_of k t) blocked) then k else resume_raw k t src))

-- `set_pri`, then `ready_list.re_insert`.
unfoldable pub change_pri : Kernel → ℕ → ℕ → Option Kernel
change_pri k t pri = assert_irq k (
    some (
      let k1 = set_tcb k t (record (k.tcbs t) { pri = pri }) in
      let k2 = send_to_in_order k1 ready_list ready_list (pri_cmp k1) t in
      yield_if (any_higher k2 k2.cur_tcb) k2))

-- `find` by the number of a task.
unfoldable pub find_tid : Kernel → ℕ → ℕ
find_tid k tid = find_slot (λ t. (k.tcbs t).tid == tid) k.raw

unfoldable pub delay : Kernel → ℕ → Option Kernel
unfolding block_to_in_order
delay k ticks =
    block_to_in_order (set_wkpt k k.cur_tcb ((k.os_ticks + ticks) % u32)) k.cur_tcb sleeping_list
      wkpt_cmp

unfoldable pub wake_raw : Kernel → ℕ → Kernel
unfolding resume_raw
wake_raw k t = resume_raw (set_wkpt k t no_tick) t sleeping_list
