-- ===== src/Utils/Memory.antt =====
-- kernel/utils.hpp, the loops of `memcpy` and `memset`, on a memory of bytes. With GCC the functions
-- are the compiler's.
pub mod Copied
use mos_core.Prelude.{ℕ, zero, suc, ◌+◌}
use mos_core.Kernel.State.{update}

abbrev pub Bytes : Type 0
Bytes = ℕ → ℕ

-- With `rounds` rounds left.
unfoldable pub copy_from : (rounds : ℕ) → Bytes → (dest src i : ℕ) → Bytes
copy_from zero mem dest src i = mem
copy_from (suc rounds) mem dest src i =
    copy_from rounds (update mem (dest + i) (mem (src + i))) dest src (i + 1)

unfoldable pub memcpy : Bytes → (dest src n : ℕ) → Bytes
unfolding copy_from
memcpy mem dest src n = copy_from n mem dest src 0

unfoldable pub fill_from : (rounds : ℕ) → Bytes → (ptr value i : ℕ) → Bytes
fill_from zero mem ptr value i = mem
fill_from (suc rounds) mem ptr value i =
    fill_from rounds (update mem (ptr + i) value) ptr value (i + 1)

unfoldable pub memset : Bytes → (ptr value n : ℕ) → Bytes
unfolding fill_from
memset mem ptr value n = fill_from n mem ptr value 0
