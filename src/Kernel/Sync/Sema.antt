-- ===== src/Kernel/Sync/Sema.antt =====
-- kernel/sync.hpp, `Sema_t`.
-- A `Count_t` is an `int32_t`, kept as its value plus 2 ^ 31; an overflow wraps around.
pub mod Waiters
use mos_core.Prelude.{ℕ, ◌+◌, ◌-◌, ◌%◌, ◌^◌, ◌≡◌, Bool, Option, none, some, if◌then◌else◌, ltb}
use mos_core.Kernel.State.{Kernel, begin_of, yield, u32}
use mos_core.Kernel.Task.{block_to_raw, resume_raw, any_higher, yield_if}

-- The count that stands for 0.
abbrev pub null_count : ℕ
null_count = 2 ^ 31

abbrev pub dec : ℕ → ℕ
dec c = (c + u32 - 1) % u32

abbrev pub inc : ℕ → ℕ
inc c = (c + 1) % u32

-- `waiting_list` is the number of the semaphore's list among the kernel's.
pub record Sema : Type 0 where
  pub waiting_list : ℕ
  pub cnt : ℕ

unfoldable pub down : Kernel → Sema → Option (Kernel × Sema)
down k s =
    if k.masked
    then none
    else (let s1 = record s { cnt = dec s.cnt } in
        if ltb s1.cnt null_count
        then some (yield (block_to_raw k k.cur_tcb s1.waiting_list), s1)
        else some (k, s1))

-- `begin()` of an empty list is its sentinel, which is no task.
unfoldable pub up_raw : Kernel → Sema → Option (Kernel × Sema)
up_raw k s =
    let s1 = record s { cnt = inc s.cnt } in
    if ltb s.cnt null_count
    then elim (begin_of k s.waiting_list) [
      | none ↦ none
      | some t ↦ some (resume_raw k t s.waiting_list, s1)
    ]
    else some (k, s1)

unfoldable pub up : Kernel → Sema → Option (Kernel × Sema)
up k s = if k.masked then none else elim (up_raw k s) [
  | none ↦ none
  | some (k1, s1) ↦ some (yield_if (any_higher k1 k1.cur_tcb) k1, s1)
]

abbrev pub up_from_isr : Kernel → Sema → Option (Kernel × Sema)
up_from_isr k s = up_raw k s
