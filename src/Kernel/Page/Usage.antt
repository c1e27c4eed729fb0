-- ===== src/Kernel/Page/Usage.antt =====
-- `stack_usage` and `page_usage` are percentages of bytes.
use mos_core.Prelude.{ℕ, ◌+◌, ◌-◌, ◌*◌, ◌%◌, ◌≤◌, ◌<◌, ◌≡◌, arith}
use mos_core.Kernel.State.{u32}
use mos_core.Kernel.Page.{Page, from_bottom}

-- A page within the address space that has room for the TCB and more, at its head.
pub record HasRoom (size_of_tcb : ℕ) (p : Page) : Type 0 where
  pub in_memory : p.raw + 4 * p.size < u32
  pub roomy : size_of_tcb < 4 * p.size
  pub words : size_of_tcb % 4 ≡ 0
  pub narrow : 100 * p.size < u32

pub bottom :
    {n : ℕ} (p : Page) (i : ℕ)
    → HasRoom n p
    → i ≤ p.size
    → from_bottom p i ≡ p.raw + 4 * (p.size - i)
bottom p i ok le = omega (arith, ok.in_memory)
