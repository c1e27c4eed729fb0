-- ===== src/DataType/BitMap/FirstZero.antt =====
-- `first_zero`: the search of a word for its first clear bit, and of the words from left to right.
use mos_core.Prelude.{
  ℕ, zero, suc, ◌+◌, ◌-◌, ◌*◌, ◌/◌, ◌%◌, ◌^◌, ◌≤◌, ◌<◌, ◌≡◌, refl, ◌⊎◌, true, false, List, [], ◌∷◌,
  Option, none, some, arith, ◌==◌, ap, sym, ◌∙◌, subst, Option-cases, Bool-cases, inl, inr, length,
  ltb,
}
use native.Mathlib.Nat.{div-div-eq-div-mul}
use mos_core.DataType.BitMap.{
  index, bit_at, word, test_bit, u32, leading_zeros, first_zero_from, first_zero,
}
use mos_core.DataType.BitMap.Digits.{digit, digit_lt, digit-complement, digit-zero}
use mos_core.DataType.BitMap.Bits.{test_bit-digit}
use mos_core.DataType.BitMap.Words.{AreWords}

double : (j : ℕ) → 2 ^ suc j ≡ 2 * 2 ^ j
double j = omega arith

digit-div : (k n : ℕ) → digit k n ≡ n / 2 ^ k % 2
digit-div zero n = omega arith
digit-div (suc k) n =
    digit-div k (n / 2)
    ∙ ap (λ x. x % 2) (div-div-eq-div-mul n 2 (2 ^ k) ∙ ap (λ p. n / p) (sym (double k)))

-- The highest digit of a number that has one digit more.
top_digit : (n v : ℕ) → v < 2 ^ suc n → digit n v ≡ 0 → v < 2 ^ n
top_digit zero v lt z = omega arith
top_digit (suc n) v lt z =
    omega (arith, top_digit n (v / 2) (omega (arith, double (suc n))) z, double n)

-- The leading zeros of a number that is not 0 end at its highest digit.
record Leading (n v c : ℕ) : Type 0 where
  short : c < n
  shown : digit (n - 1 - c) v ≡ 1
  above : (k : ℕ) → k < n → n ≤ k + c → digit k v ≡ 0

Leading-suc : (n v c : ℕ) → digit n v ≡ 0 → Leading n v c → Leading (suc n) v (suc c)
Leading-suc n v c z l = record {
  short = omega (arith, l.short);
  shown =
      let same : suc n - 1 - suc c ≡ n - 1 - c = omega arith in ap (λ i. digit i v) same ∙ l.shown;
  above = λ k kn le. elim (Bool-cases (k == n)) [
    | inl e ↦ let here : k ≡ n = ground arith in ap (λ i. digit i v) here ∙ z
    | inr e ↦ l.above k (ground arith) (omega arith)
  ];
}

leading_zeros-Leading : (n v : ℕ) → v < 2 ^ n → 0 < v → Leading n v (leading_zeros n v)
unfolding leading_zeros
leading_zeros-Leading zero v lt pos = absurd (omega arith)
leading_zeros-Leading (suc n) v lt pos = elim (Bool-cases (v / 2 ^ n % 2 == 0)) [
  | inl clear ↦
      let z : digit n v ≡ 0 = ground (arith, digit-div n v) in
      rw clear
        (Leading-suc n v (leading_zeros n v) z (leading_zeros-Leading n v (top_digit n v lt z) pos))
  | inr set ↦ rw set (record {
    short = omega arith;
    shown = ground (arith, digit-div n v, digit_lt n v);
    above = λ k kn le. absurd (omega arith);
  })
]

-- A word that is not full has its first clear bit, from the left, behind its leading ones.
first_clear :
    (w : ℕ)
    → w < u32
    → (w == u32 - 1) ≡ false
    → let c = leading_zeros 32 (u32 - 1 - w) in
      (c < 32) × (digit (31 - c) w ≡ 0) × ((j : ℕ) → j < c → digit (31 - j) w ≡ 1)
first_clear w lt open_ =
    let l = leading_zeros-Leading 32 (u32 - 1 - w) (omega arith) (ground arith) in
    let flip = λ (k : ℕ) (kn : k < 32). digit-complement k 32 w kn lt in
    (
      l.short,
      omega (
        arith,
        l.shown,
        flip (31 - leading_zeros 32 (u32 - 1 - w)) (omega arith),
        digit_lt (31 - leading_zeros 32 (u32 - 1 - w)) w,
      ),
      λ j jc. omega (
        arith,
        l.above (31 - j) (omega (arith, l.short)) (omega (arith, l.short)),
        flip (31 - j) (omega arith),
        digit_lt (31 - j) w,
      ),
    )

-- The bit at a position, as a digit.
abbrev bit : List ℕ → ℕ → ℕ
bit ws q = digit (bit_at q) (word ws (index q))

bit_head : (w : ℕ) (ws : List ℕ) (q : ℕ) → q < 32 → bit (w ∷ ws) q ≡ digit (31 - q) w
bit_head w ws q lt =
    let i : index q ≡ 0 = omega arith in
    let b : bit_at q ≡ 31 - q = omega arith in
    ap (λ x. digit x (word (w ∷ ws) (index q))) b ∙ ap (λ x. digit (31 - q) (word (w ∷ ws) x)) i

bit_tail : (w : ℕ) (ws : List ℕ) (q : ℕ) → bit (w ∷ ws) (q + 32) ≡ bit ws q
bit_tail w ws q =
    let i : index (q + 32) ≡ suc (index q) = omega arith in
    let b : bit_at (q + 32) ≡ bit_at q = omega arith in
    ap (λ x. digit x (word (w ∷ ws) (index (q + 32)))) b
    ∙ ap (λ x. digit (bit_at q) (word (w ∷ ws) x)) i

full_digit : (w k : ℕ) → (w == u32 - 1) ≡ true → k < 32 → digit k w ≡ 1
full_digit w k e lt =
    let whole : w ≡ 2 ^ 32 - 1 - 0 = ground arith in
    ap (digit k) whole ∙ omega (arith, digit-complement k 32 0 lt (omega arith), digit-zero k)

-- What the search from position `from` on finds.
abbrev Found : List ℕ → (from : ℕ) → Option ℕ → Type 0
Found ws from none = (q : ℕ) → q < length ws * 32 → bit ws q ≡ 1
Found ws from (some p) =
    (r : ℕ) × (p ≡ from + r)
    × (r < length ws * 32)
    × (bit ws r ≡ 0)
    × ((q : ℕ) → q < r → bit ws q ≡ 1)

ones_cons :
    (w : ℕ) (ws : List ℕ) (n : ℕ)
    → (w == u32 - 1) ≡ true
    → ((q : ℕ) → q < n → bit ws q ≡ 1)
    → (q : ℕ) → q < n + 32
    → bit (w ∷ ws) q ≡ 1
ones_cons w ws n e ones q lt = elim (Bool-cases (ltb q 32)) [
  | inl head ↦ bit_head w ws q (ground arith) ∙ full_digit w (31 - q) e (omega arith)
  | inr tail ↦
      let split : q ≡ (q - 32) + 32 = ground arith in
      ap (bit (w ∷ ws)) split ∙ bit_tail w ws (q - 32) ∙ ones (q - 32) (ground arith)
]

Found-cons :
    (w : ℕ) (ws : List ℕ) (from : ℕ) (o : Option ℕ)
    → (w == u32 - 1) ≡ true
    → Found ws (from + 32) o
    → Found (w ∷ ws) from o
Found-cons w ws from none e found = λ q lt. ones_cons w ws (length ws * 32) e found q (omega arith)
Found-cons w ws from (some p) e (r, at, inside, clear, before) =
    (r + 32, omega arith, omega arith, bit_tail w ws r ∙ clear, ones_cons w ws r e before)

first_zero_from-Found :
    (i : ℕ) (ws : List ℕ) → AreWords ws → Found ws (i * 32) (first_zero_from i ws)
unfolding first_zero_from
first_zero_from-Found i [] ok = λ q lt. absurd (omega arith)
first_zero_from-Found i (w ∷ ws) ok = elim (Bool-cases (w == u32 - 1)) [
  | inl full ↦
      let next : (i + 1) * 32 ≡ i * 32 + 32 = omega arith in
      rw full (
        Found-cons w ws (i * 32) (first_zero_from (i + 1) ws) full (
          subst (λ n. Found ws n (first_zero_from (i + 1) ws)) next
            (first_zero_from-Found (i + 1) ws ok.1)))
  | inr open_ ↦
      let (short, clear, before) = first_clear w ok.0 open_ in
      rw open_ (
        leading_zeros 32 (u32 - 1 - w),
        refl,
        omega (arith, short),
        bit_head w ws (leading_zeros 32 (u32 - 1 - w)) short ∙ clear,
        λ q lt. bit_head w ws q (omega (arith, short)) ∙ before q lt,
      )
]

-- `first_zero` on words of 32 bits: a result is the first position that is not set, it is in the
-- range of the bitmap, and every position before it is set. Without a result every position in the
-- range is set.
pub first_zero-lowest :
    (ws : List ℕ)
    → AreWords ws
    → ((first_zero ws ≡ none) × ((q : ℕ) → q < length ws * 32 → test_bit ws q ≡ true))
      ⊎ ((p : ℕ) × (first_zero ws ≡ some p)
          × (p < length ws * 32)
          × (test_bit ws p ≡ false)
          × ((q : ℕ) → q < p → test_bit ws q ≡ true))
unfolding first_zero
first_zero-lowest ws ok = elim (Option-cases (first_zero ws)) [
  | inl e ↦
      let found = subst (Found ws 0) e (first_zero_from-Found 0 ws ok) in
      inl (e, λ q lt. test_bit-digit ws q ∙ ap (λ d. d == 1) (found q lt))
  | inr (p, e) ↦
      let (r, at, inside, clear, before) = subst (Found ws 0) e (first_zero_from-Found 0 ws ok) in
      let here : p ≡ r = omega arith in
      inr (
        p,
        e,
        omega arith,
        test_bit-digit ws p ∙ ap (λ d. d == 1) (ap (bit ws) here ∙ clear),
        λ q lt. test_bit-digit ws q ∙ ap (λ d. d == 1) (before q (omega arith)),
      )
]
