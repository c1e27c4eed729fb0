-- ===== src/Tests/Demo.antt =====
-- A kernel with five tasks: 1 runs, 2 is ready with the same priority, 3 sleeps until tick 5, 4 is
-- blocked, and 5 waits on a semaphore with the list 10.
use mos_core.Prelude.{
  ℕ, ◌-◌, ◌^◌, ◌≡◌, true, false, ◌||◌, List, [], ◌∷◌, arith, ◌==◌, if◌then◌else◌, length,
}
use mos_core.DataType.Sequence.{has}
use mos_core.Kernel.State.{
  Status, ready, running, blocked, static_page, dynamic_page, Tcb, TcbList, Kernel, build, nodes_of,
}
use mos_core.Kernel.State.Invariant.{IsValid}

abbrev pub task : Status → (pri wake_point : ℕ) → Tcb
task status pri wake_point = record (build pri static_page) {
  status = status;
  wake_point = wake_point;
  time_slice = 0;
}

abbrev pub demo_tcbs : ℕ → Tcb
demo_tcbs t =
    if t == 1
    then task running 130 (2 ^ 32 - 1)
    else if t == 2
    then task ready 130 (2 ^ 32 - 1)
    else if t == 3
    then task blocked 129 5
    else if t == 4
    then task blocked 131 0
    else if t == 5
    then task blocked 128 (2 ^ 32 - 1)
    else build 255 dynamic_page

abbrev pub holds : List ℕ → TcbList
holds nodes = record { nodes = nodes; len = length nodes }

abbrev pub demo_lists : ℕ → TcbList
demo_lists l =
    if l == 0
    then holds (1 ∷ 2 ∷ [])
    else if l == 1
    then holds (4 ∷ [])
    else if l == 2
    then holds (3 ∷ [])
    else if l == 10
    then holds (5 ∷ [])
    else holds []

abbrev pub demo : Kernel
demo = record {
  tcbs = demo_tcbs;
  lists = demo_lists;
  cur_tcb = 1;
  os_ticks = 5;
  tids = 0 ∷ [];
  raw = 1 ∷ 2 ∷ 3 ∷ 4 ∷ 5 ∷ 0 ∷ [];
  debug_len = 5;
  debug_tid = 0;
  pend = false;
  masked = false;
  scheduling = true;
}

-- The list of a task, read off its number.
abbrev home : ℕ → ℕ
home t = if (t == 1) || (t == 2) then 0 else if t == 4 then 1 else if t == 3 then 2 else 10

home_of : (t l : ℕ) → has t (nodes_of demo l) ≡ true → l ≡ home t
home_of t l i = ground arith

pub demo-IsValid : IsValid demo
demo-IsValid = record {
  lists_ok = record {
    distinct = λ l. ground arith;
    one_home = λ x l m i j. ground (arith, home_of x l i, home_of x m j);
    counted = λ l. ground arith;
  };
  homes = record {
    status_at = λ t l i. ground arith;
    ready_home = λ t r. ground arith;
    one_runs = λ t r. ground arith;
  };
  sorted = ground arith;
  sleepers = ground arith;
}
