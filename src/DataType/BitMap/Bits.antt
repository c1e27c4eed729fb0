-- ===== src/DataType/BitMap/Bits.antt =====
-- `set`, `reset` and `test` of a bitmap: each changes or reads its own bit.
use Prim.Native.Nat.{bit_and, bit_or}
use mos_core.Prelude.{
  ℕ, zero, suc, ◌-◌, ◌*◌, ◌^◌, ◌<◌, ◌≡◌, refl, not, ◌&&◌, ◌||◌, List, [], ◌∷◌, arith, ◌==◌,
  if◌then◌else◌, ap, ◌∙◌, Bool-cases, inl, inr, length, set,
}
use mos_core.DataType.BitMap.{index, bit_at, word, set_bit, reset_bit, test_bit, u32}
use mos_core.DataType.BitMap.Digits.{
  digit, digit_lt, digit-bit_or, digit-bit_and, digit-pow, digit-complement, bit_and-pow,
}

word-set :
    (ws : List ℕ) (i v j : ℕ)
    → i < length ws
    → word (set ws i v) j ≡ (if j == i then v else word ws j)
word-set [] i v j lt = elim lt [ ]
word-set (w ∷ ws) zero v zero lt = refl
word-set (w ∷ ws) zero v (suc j) lt = ground arith
word-set (w ∷ ws) (suc i) v zero lt = ground arith
word-set (w ∷ ws) (suc i) v (suc j) lt = word-set ws i v j (omega arith) ∙ ground arith

pow_pos : (k : ℕ) → 0 < 2 ^ k
pow_pos zero = omega arith
pow_pos (suc k) = omega (arith, pow_pos k)

pub pow_lt : (k w : ℕ) → k < w → 2 ^ k < 2 ^ w
pow_lt k zero lt = elim lt [ ]
pow_lt zero (suc w) lt = omega (arith, pow_pos w)
pow_lt (suc k) (suc w) lt = omega (arith, pow_lt k w (omega arith))

none_of : (p : ℕ) → 0 * p ≡ 0
none_of p = omega arith

digit_shown : (d p : ℕ) → d < 2 → 0 < p → not (d * p == 0) ≡ (d == 1)
digit_shown zero p lt pos = ground (arith, none_of p)
digit_shown (suc zero) p lt pos = ground arith
digit_shown (suc (suc d)) p lt pos = absurd (omega arith)

-- A bit is the digit of its word at its place.
pub test_bit-digit :
    (ws : List ℕ) (pos : ℕ) → test_bit ws pos ≡ (digit (bit_at pos) (word ws (index pos)) == 1)
unfolding test_bit
test_bit-digit ws pos =
    let w = word ws (index pos) in
    let b = bit_at pos in
    ap (λ x. not (x == 0)) (bit_and-pow b w)
    ∙ digit_shown (digit b w) (2 ^ b) (digit_lt b w) (pow_pos b)

same_place : (p q : ℕ) → index q ≡ index p → (bit_at q == bit_at p) ≡ (q == p)
same_place p q e = ground arith

module _ (ws : List ℕ) (pos : ℕ) (inside : pos < length ws * 32) where
  abbrev w : ℕ
  w = word ws (index pos)

  -- The digit of a word after one word has been written.
  written :
      (v q : ℕ)
      → digit (bit_at q) (word (set ws (index pos) v) (index q)) ≡ (
          if index q == index pos then digit (bit_at q) v else digit (bit_at q) (word ws (index q)))
  written v q =
      ap (digit (bit_at q)) (word-set ws (index pos) v (index q) (omega arith))
      ∙ elim (Bool-cases (index q == index pos)) [ inl e ↦ rw e refl | inr e ↦ rw e refl ]

  -- `set` of a position in range sets its bit and leaves every other bit as it was.
  pub test_bit-set_bit : (q : ℕ) → test_bit (set_bit ws pos) q ≡ ((q == pos) || test_bit ws q)
  unfolding set_bit
  test_bit-set_bit q =
      test_bit-digit (set_bit ws pos) q
      ∙ ap (λ d. d == 1) (written (bit_or w (2 ^ bit_at pos)) q)
      ∙ elim (Bool-cases (index q == index pos)) [
        | inl e ↦
            let here : index q ≡ index pos = ground arith in
            ground (
              arith,
              test_bit-digit ws q,
              digit-bit_or (bit_at q) w (2 ^ bit_at pos),
              digit-pow (bit_at q) (bit_at pos),
              same_place pos q here,
              digit_lt (bit_at q) w,
              ap (λ i. digit (bit_at q) (word ws i)) here,
            )
        | inr e ↦ ground (arith, test_bit-digit ws q)
      ]

  -- `reset` of a position in range clears its bit and leaves every other bit as it was.
  pub test_bit-reset_bit :
      (q : ℕ) → test_bit (reset_bit ws pos) q ≡ (not (q == pos) && test_bit ws q)
  unfolding reset_bit
  test_bit-reset_bit q =
      test_bit-digit (reset_bit ws pos) q
      ∙ ap (λ d. d == 1) (written (bit_and w (u32 - 1 - 2 ^ bit_at pos)) q)
      ∙ elim (Bool-cases (index q == index pos)) [
        | inl e ↦
            let here : index q ≡ index pos = ground arith in
            ground (
              arith,
              test_bit-digit ws q,
              digit-bit_and (bit_at q) w (u32 - 1 - 2 ^ bit_at pos),
              digit-complement (bit_at q) 32 (2 ^ bit_at pos) (omega arith)
                  (pow_lt (bit_at pos) 32 (omega arith)),
              digit-pow (bit_at q) (bit_at pos),
              same_place pos q here,
              digit_lt (bit_at q) w,
              ap (λ i. digit (bit_at q) (word ws i)) here,
            )
        | inr e ↦ ground (arith, test_bit-digit ws q)
      ]
