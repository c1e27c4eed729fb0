-- ===== src/Utils/Literals.antt =====
-- kernel/utils.hpp: the literals for ticks.
use mos_core.Prelude.{ℕ, ◌*◌, ◌/◌, ◌%◌, ◌^◌}
use mos_core.Kernel.State.{u32}

-- `MOS_CONF_SYSTICK`
abbrev pub systick : ℕ
systick = 1000

-- `raw` is a `uint64_t`, and so is the product.
abbrev pub from_ms : (raw : ℕ) → ℕ
from_ms raw = raw * systick % 2 ^ 64 / 1000 % u32

abbrev pub from_s : (raw : ℕ) → ℕ
from_s raw = raw * systick % 2 ^ 64 % u32
