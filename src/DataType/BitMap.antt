-- ===== src/DataType/BitMap.antt =====
-- kernel/data_type/bitmap.hpp: `BitMap_t<N>`, bits in 32-bit words, the first one leftmost.
pub mod Digits
pub mod Bits
pub mod FirstZero
pub mod Words
use Prim.Native.Nat.{bit_and, bit_or}
use mos_core.Prelude.{
  ℕ, zero, suc, ◌+◌, ◌-◌, ◌*◌, ◌/◌, ◌%◌, ◌^◌, Bool, not, List, [], ◌∷◌, Option, none, some, ◌==◌,
  if◌then◌else◌, set,
}

abbrev pub u32 : ℕ
u32 = 2 ^ 32

-- The word and the bit of a position.
abbrev pub index : ℕ → ℕ
index pos = pos / 32

abbrev pub bit_at : ℕ → ℕ
bit_at pos = 31 - pos % 32

-- The word at an index that is in range, and 0 where the array has none.
abbrev pub word : List ℕ → ℕ → ℕ
word [] i = 0
word (w ∷ ws) zero = w
word (w ∷ ws) (suc i) = word ws i

-- `data[index] |= (1 << bit)`; a write outside the array is left out.
unfoldable pub set_bit : List ℕ → ℕ → List ℕ
set_bit ws pos = set ws (index pos) (bit_or (word ws (index pos)) (2 ^ bit_at pos))

-- `data[index] &= ~(1 << bit)`
unfoldable pub reset_bit : List ℕ → ℕ → List ℕ
reset_bit ws pos = set ws (index pos) (bit_and (word ws (index pos)) (u32 - 1 - 2 ^ bit_at pos))

unfoldable pub test_bit : List ℕ → ℕ → Bool
test_bit ws pos = not (bit_and (word ws (index pos)) (2 ^ bit_at pos) == 0)

-- `__builtin_clz` of a word that is not 0: the bits above the highest one, of the `n` lowest bits.
unfoldable pub leading_zeros : ℕ → ℕ → ℕ
leading_zeros zero v = 0
leading_zeros (suc n) v = if v / 2 ^ n % 2 == 0 then suc (leading_zeros n v) else 0

-- The loop of `first_zero` from word `i` on; `none` is the result -1.
unfoldable pub first_zero_from : ℕ → List ℕ → Option ℕ
first_zero_from i [] = none
first_zero_from i (w ∷ ws) =
    if w == u32 - 1
    then first_zero_from (i + 1) ws
    else some (i * 32 + leading_zeros 32 (u32 - 1 - w))

unfoldable pub first_zero : List ℕ → Option ℕ
unfolding first_zero_from leading_zeros
first_zero ws = first_zero_from 0 ws
