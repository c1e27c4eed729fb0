-- ===== src/Kernel/Page.antt =====
-- kernel/data_type/page.hpp (`Page_t`), the members of kernel/data_type/tcb.hpp that address the stack
-- in a page, and `load_context` of kernel/task.hpp.
-- An address is a number below 2 ^ 32. The memory gives the word at an address that 4 divides.
pub mod Frame
pub mod Usage
use mos_core.Prelude.{
  ℕ, zero, suc, ◌+◌, ◌-◌, ◌*◌, ◌/◌, ◌%◌, ◌^◌, ◌≡◌, Bool, true, false, List, [], ◌∷◌, ◌==◌,
  if◌then◌else◌,
}
use mos_core.Kernel.State.{PagePolicy, is_dynamic, u32, update}

pub record Page : Type 0 where
  pub policy : PagePolicy
  pub raw : ℕ
  pub size : ℕ

-- `&raw[i]` for a 32-bit index.
abbrev pub address : Page → ℕ → ℕ
address p i = (p.raw + 4 * i) % u32

-- `&from_bottom(offset)`
abbrev pub from_bottom : Page → (offset : ℕ) → ℕ
from_bottom p offset = address p ((p.size + u32 - offset) % u32)

-- The page without its memory, and the addresses that `delete[]` has been called with.
unfoldable pub recycle : Page → (deleted : List ℕ) → Page × List ℕ
recycle p deleted =
    if is_dynamic p.policy
    then (record p { raw = 0 }, if p.raw == 0 then deleted else p.raw ∷ deleted)
    else (p, deleted)

abbrev pub Mem : Type 0
Mem = ℕ → ℕ

abbrev pub store : Mem → (a v : ℕ) → Mem
store m a v = update m a v

unfoldable pub set_xpsr : Page → ℕ → Mem → Mem
set_xpsr p v m = store m (from_bottom p 1) v

unfoldable pub set_pc : Page → ℕ → Mem → Mem
set_pc p v m = store m (from_bottom p 2) v

unfoldable pub set_lr : Page → ℕ → Mem → Mem
set_lr p v m = store m (from_bottom p 3) v

unfoldable pub set_argv : Page → ℕ → Mem → Mem
set_argv p v m = store m (from_bottom p 8) v

-- `HW_CTX_LEN`, `SW_CTX_LEN` and `TOTAL_LEN`; `has_fpu` is `MOS_CONF_USE_HARD_FPU`.
abbrev pub sw_ctx_len : ℕ
sw_ctx_len = 8

abbrev pub total_len : (has_fpu : Bool) → ℕ
total_len has_fpu = 8 + sw_ctx_len + (if has_fpu then 1 else 0)

-- `stack[i]` of the frame at an address.
abbrev pub slot : (stack i : ℕ) → ℕ
slot stack i = (stack + 4 * i) % u32

-- The stack pointer and the memory. `fn`, `exit` and `argv` are the addresses that go into the frame.
unfoldable pub load_context : (has_fpu : Bool) → Page → (fn exit argv : ℕ) → Mem → ℕ × Mem
load_context has_fpu p fn exit argv m =
    let stack = from_bottom p (total_len has_fpu) in
    let top_idx = total_len has_fpu - 1 in
    let m1 = store m (slot stack top_idx) 0x0100_0000 in
    let m2 = store m1 (slot stack (top_idx - 1)) fn in
    let m3 = store m2 (slot stack (top_idx - 2)) exit in
    let m4 = store m3 (slot stack (top_idx - 7)) argv in
    (stack, if has_fpu then store m4 (slot stack sw_ctx_len) 0xffff_fffd else m4)

-- `size_of_tcb` is `sizeof(TCB_t)` in bytes, `sp` the stack pointer.
unfoldable pub page_usage : (size_of_tcb : ℕ) → Page → (sp : ℕ) → ℕ
page_usage size_of_tcb p sp =
    let atu = (from_bottom p 0 + u32 - sp + size_of_tcb) % u32 in atu * 25 % u32 / p.size

unfoldable pub stack_usage : (size_of_tcb : ℕ) → Page → (sp : ℕ) → ℕ
stack_usage size_of_tcb p sp =
    let atu = (from_bottom p 0 + u32 - sp) % u32 in
    atu * 25 % u32 / ((p.size + u32 - size_of_tcb / 4) % u32)
