-- ===== src/Kernel/State.antt =====
-- kernel/data_type/tcb.hpp and kernel/global.hpp: the task control block, the lists of tasks, and
-- the global variables of the kernel as one record.
-- A task is the address of its TCB, and 0 is `nullptr`. A priority is an `int8_t`, kept as its value
-- plus 128, so that the order of the numbers is the signed order. A list of tasks is the sequence
-- of its nodes, which DataType/LinkedList proves of the list in memory, beside the counter `len`.
pub mod Lists
pub mod Invariant
pub mod Removal
pub mod Tids
use mos_core.Prelude.{
  ℕ, zero, suc, ◌+◌, ◌-◌, ◌%◌, ◌^◌, ◌≡◌, Bool, true, false, not, ◌&&◌, ◌||◌, List, [], ◌∷◌, ◌++◌,
  Option, none, some, ◌==◌, if◌then◌else◌, ltb,
}
use mos_core.DataType.Sequence.{erase, insert_sorted}

pub data Status : Type 0 where
  terminated ready running blocked : Status

-- `Page_t::Policy`
pub data PagePolicy : Type 0 where
  static_page pool_page dynamic_page error_page : PagePolicy

pub record Tcb : Type 0 where
  pub status : Status
  pub tid : ℕ
  pub policy : PagePolicy
  pub parent : ℕ
  pub time_slice : ℕ
  pub wake_point : ℕ
  pub stamp : ℕ
  pub pri : ℕ
  pub sub_pri : ℕ

-- `PRI_INV`, `PRI_MAX` and `PRI_MIN` (-1, 0 and 127) plus 128; `TIME_SLICE`, `TASK_MAX`.
abbrev pub pri_inv : ℕ
pri_inv = 127

abbrev pub pri_max : ℕ
pri_max = 128

abbrev pub pri_min : ℕ
pri_min = 255

abbrev pub slice_width : ℕ
slice_width = 50

abbrev pub task_max : ℕ
task_max = 16

-- The tick value that stands for "no wake point", 0xFFFF'FFFF.
abbrev pub no_tick : ℕ
no_tick = 2 ^ 32 - 1

abbrev pub u32 : ℕ
u32 = 2 ^ 32

-- `is_status(BLOCKED)` and its like.
abbrev pub is_status : Status → Status → Bool
is_status terminated terminated = true
is_status ready ready = true
is_status running running = true
is_status blocked blocked = true
is_status _ _ = false

abbrev pub is_dynamic : PagePolicy → Bool
is_dynamic dynamic_page = true
is_dynamic _ = false

abbrev pub is_sleeping : Tcb → Bool
is_sleeping t = not (t.wake_point == 0) && is_status t.status blocked

-- Used in Mutex: the priority is raised, and the first one it had is kept.
unfoldable pub store_pri : ℕ → Tcb → Tcb
store_pri new_pri t =
    if ltb new_pri t.pri
    then record t { sub_pri = if t.sub_pri == pri_inv then t.pri else t.sub_pri; pri = new_pri }
    else t

unfoldable pub restore_pri : Tcb → Tcb
restore_pri t = if t.sub_pri == pri_inv then t else record t { pri = t.sub_pri; sub_pri = pri_inv }

-- The members of a TCB that `build` leaves at their defaults, with the priority and the page given.
abbrev pub build : ℕ → PagePolicy → Tcb
build pri policy = record {
  status = terminated;
  tid = no_tick;
  policy = policy;
  parent = 0;
  time_slice = slice_width;
  wake_point = no_tick;
  stamp = no_tick;
  pri = pri;
  sub_pri = pri_inv;
}

pub record TcbList : Type 0 where
  pub nodes : List ℕ
  pub len : ℕ

-- The addresses of the four global lists; every other number is the list of a semaphore or of a
-- condition variable.
abbrev pub ready_list : ℕ
ready_list = 0

abbrev pub blocked_list : ℕ
blocked_list = 1

abbrev pub sleeping_list : ℕ
sleeping_list = 2

abbrev pub zombie_list : ℕ
zombie_list = 3

-- `pend` is the PendSV bit that `yield` sets, `masked` tells that interrupts are disabled, `raw` and
-- `debug_len` are the table `debug_tcbs`, `tids` the words of the bitmap.
pub record Kernel : Type 0 where
  pub tcbs : ℕ → Tcb
  pub lists : ℕ → TcbList
  pub cur_tcb : ℕ
  pub os_ticks : ℕ
  pub tids : List ℕ
  pub raw : List ℕ
  pub debug_len : ℕ
  pub debug_tid : ℕ
  pub pend : Bool
  pub masked : Bool
  pub scheduling : Bool

abbrev pub nodes_of : Kernel → ℕ → List ℕ
nodes_of k l = (k.lists l).nodes

-- `empty()` reads the counter of the list.
abbrev pub is_empty : Kernel → ℕ → Bool
is_empty k l = (k.lists l).len == 0

abbrev pub status_of : Kernel → ℕ → Status
status_of k t = (k.tcbs t).status

abbrev pub pri_of : Kernel → ℕ → ℕ
pri_of k t = (k.tcbs t).pri

abbrev pub wkpt_of : Kernel → ℕ → ℕ
wkpt_of k t = (k.tcbs t).wake_point

abbrev pub update {ℓ} : {A : Type ℓ} → (ℕ → A) → ℕ → A → ℕ → A
update f a v b = if b == a then v else f b

abbrev pub set_tcb : Kernel → ℕ → Tcb → Kernel
set_tcb k t v = record k { tcbs = update k.tcbs t v }

abbrev pub set_status : Kernel → ℕ → Status → Kernel
set_status k t s = set_tcb k t (record (k.tcbs t) { status = s })

abbrev pub set_wkpt : Kernel → ℕ → ℕ → Kernel
set_wkpt k t ticks = set_tcb k t (record (k.tcbs t) { wake_point = ticks })

-- `yield` sets the PendSV bit: the switch comes when interrupts are enabled.
abbrev pub yield : Kernel → Kernel
yield k = record k { pend = true }

-- `begin()` of a list; `none` is `end()`, which is no task.
abbrev pub first : List ℕ → Option ℕ
first [] = none
first (x ∷ xs) = some x

abbrev pub begin_of : Kernel → ℕ → Option ℕ
begin_of k l = first (nodes_of k l)

-- `list.remove(tcb)` unlinks the node from the ring that it is in, whichever list that is, and
-- counts down the list that is named.
abbrev pub without : ℕ → ℕ → TcbList → ℕ → TcbList
without l t old m = record {
  nodes = erase t old.nodes;
  len = if m == l then (old.len + u32 - 1) % u32 else old.len;
}

abbrev pub remove_from : Kernel → ℕ → ℕ → Kernel
remove_from k l t = record k { lists = λ m. without l t (k.lists m) m }

-- `list.add(tcb)` and `list.insert_in_order(tcb, cmp)` of a node that is in no ring.
abbrev pub add_to : Kernel → ℕ → ℕ → Kernel
add_to k l t = record k {
  lists =
      update k.lists l
        (record { nodes = nodes_of k l ++ t ∷ []; len = ((k.lists l).len + 1) % u32 });
}

abbrev pub insert_in_order : Kernel → ℕ → (ℕ → ℕ → Bool) → ℕ → Kernel
insert_in_order k l cmp t = record k {
  lists =
      update k.lists l
        (record { nodes = insert_sorted cmp t (nodes_of k l); len = ((k.lists l).len + 1) % u32 });
}

abbrev pub pri_cmp : Kernel → ℕ → ℕ → Bool
pri_cmp k a b = ltb (pri_of k a) (pri_of k b)

abbrev pub wkpt_cmp : Kernel → ℕ → ℕ → Bool
wkpt_cmp k a b = ltb (wkpt_of k a) (wkpt_of k b)

abbrev pub send_to : Kernel → ℕ → ℕ → ℕ → Kernel
send_to k l dest t = add_to (remove_from k l t) dest t

abbrev pub send_to_in_order : Kernel → ℕ → ℕ → (ℕ → ℕ → Bool) → ℕ → Kernel
send_to_in_order k l dest cmp t = insert_in_order (remove_from k l t) dest cmp t

-- `DebugTcbs_t`: a task goes into the first free slot, and a full table is left alone.
unfoldable pub add_slot : ℕ → List ℕ → List ℕ
add_slot t [] = []
add_slot t (p ∷ ps) = if p == 0 then t ∷ ps else p ∷ add_slot t ps

unfoldable pub remove_slot : ℕ → List ℕ → List ℕ
remove_slot t [] = []
remove_slot t (p ∷ ps) = if p == t then 0 ∷ ps else p ∷ remove_slot t ps

abbrev pub holds_slot : ℕ → List ℕ → Bool
holds_slot t [] = false
holds_slot t (p ∷ ps) = (p == t) || holds_slot t ps

abbrev pub debug_add : Kernel → ℕ → Kernel
debug_add k t = record k {
  raw = add_slot t k.raw;
  debug_len = if holds_slot 0 k.raw then (k.debug_len + 1) % u32 else k.debug_len;
}

abbrev pub debug_remove : Kernel → ℕ → Kernel
debug_remove k t = record k {
  raw = remove_slot t k.raw;
  debug_len = if holds_slot t k.raw then (k.debug_len + u32 - 1) % u32 else k.debug_len;
}

-- `debug_tcbs.iter_until`: the first task in the table that the test accepts, or `nullptr`.
unfoldable pub find_slot : (ℕ → Bool) → List ℕ → ℕ
find_slot test [] = 0
find_slot test (p ∷ ps) = if not (p == 0) && test p then p else find_slot test ps
