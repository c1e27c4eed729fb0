-- ===== src/DataType/BitMap/Words.antt =====
-- Setting and clearing bits keeps the words of a bitmap within 32 bits.
use mos_core.Prelude.{
  ℕ, zero, suc, ◌-◌, ◌^◌, ◌<◌, ◌≡◌, List, [], ◌∷◌, arith, length, set, length-set,
}
use mos_core.DataType.BitMap.{index, bit_at, word, u32, set_bit, reset_bit}
use mos_core.DataType.BitMap.Digits.{bit_or_lt, bit_and_lt}
use mos_core.DataType.BitMap.Bits.{pow_lt}

-- Every word is one of 32 bits.
abbrev pub AreWords : List ℕ → Type 0
AreWords [] = Unit {0}
AreWords (w ∷ ws) = (w < u32) × AreWords ws

word_lt : (ws : List ℕ) (i : ℕ) → AreWords ws → word ws i < u32
word_lt [] i ok = omega arith
word_lt (w ∷ ws) zero ok = ok.0
word_lt (w ∷ ws) (suc i) ok = word_lt ws i ok.1

AreWords-set : (ws : List ℕ) (i v : ℕ) → v < u32 → AreWords ws → AreWords (set ws i v)
AreWords-set [] i v lt ok = tt
AreWords-set (w ∷ ws) zero v lt ok = (lt, ok.1)
AreWords-set (w ∷ ws) (suc i) v lt ok = (ok.0, AreWords-set ws i v lt ok.1)

module _ (ws : List ℕ) (pos : ℕ) where
  pub set_bit-AreWords : AreWords ws → AreWords (set_bit ws pos)
  unfolding set_bit
  set_bit-AreWords ok =
      AreWords-set ws (index pos) _
        (bit_or_lt 32 (word ws (index pos)) (2 ^ bit_at pos) (word_lt ws (index pos) ok)
          (pow_lt (bit_at pos) 32 (omega arith)))
        ok

  pub reset_bit-AreWords : AreWords ws → AreWords (reset_bit ws pos)
  unfolding reset_bit
  reset_bit-AreWords ok =
      AreWords-set ws (index pos) _
        (bit_and_lt 32 (word ws (index pos)) (u32 - 1 - 2 ^ bit_at pos) (word_lt ws (index pos) ok))
        ok

  pub length-set_bit : length (set_bit ws pos) ≡ length ws
  unfolding set_bit
  length-set_bit = length-set ws (index pos) _

  pub length-reset_bit : length (reset_bit ws pos) ≡ length ws
  unfolding reset_bit
  length-reset_bit = length-set ws (index pos) _
