-- ===== src/Tests/Zombies.antt =====
-- kernel/task.hpp, `recycle`: the kernel of `Demo` with two tasks that have ended, 6 and 7.
use mos_core.Prelude.{refl, ℕ, ◌-◌, ◌^◌, ◌≡◌, true, ◌||◌, [], ◌∷◌, some, arith, ◌==◌, if◌then◌else◌}
use mos_core.DataType.Sequence.{has}
use mos_core.Kernel.State.{Kernel, terminated, dynamic_page, nodes_of}
use mos_core.Kernel.State.Invariant.{IsValid}
use mos_core.Kernel.Task.{Heap, recycle}
use mos_core.Kernel.Task.Recycle.{Recycled, recycle-Recycled}
use mos_core.Tests.Demo.{demo, demo_tcbs, demo_lists, task, holds}

abbrev littered : Kernel
littered = record demo {
  tcbs = λ t. if (t == 6) || (t == 7) then task terminated 140 (2 ^ 32 - 1) else demo_tcbs t;
  lists = λ l. if l == 3 then holds (6 ∷ 7 ∷ []) else demo_lists l;
}

-- The list of a task, read off its number.
abbrev home : ℕ → ℕ
home t =
    if (t == 1) || (t == 2)
    then 0
    else if t == 4
    then 1
    else if t == 3
    then 2
    else if (t == 6) || (t == 7)
    then 3
    else 10

home_of : (t l : ℕ) → has t (nodes_of littered l) ≡ true → l ≡ home t
home_of t l i = ground arith

littered-IsValid : IsValid littered
littered-IsValid = record {
  lists_ok = record {
    distinct = λ l. ground arith;
    one_home = λ x l m i j. ground (arith, home_of x l i, home_of x m j);
    counted = λ l. ground arith;
  };
  homes = record {
    status_at = λ t l i. ground arith;
    ready_home = λ t r. ground arith;
    one_runs = λ t r. ground arith;
  };
  sorted = ground arith;
  sleepers = ground arith;
}

-- The page of a task is the memory in which it lies.
abbrev heap : Heap
heap = record { pages = λ t. record { policy = dynamic_page; raw = t; size = 256 }; deleted = [] }

recycle-Recycled_example :
    (k' : Kernel) × (h' : Heap) × (recycle 3 littered heap ≡ some (k', h'))
    × Recycled littered k' heap h' (6 ∷ 7 ∷ [])
    × (k'.pend ≡ true)
recycle-Recycled_example =
    recycle-Recycled 3 {h = heap} littered-IsValid (λ t i. (refl, ground arith)) (omega arith)
      (omega arith)
