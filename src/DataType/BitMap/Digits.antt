-- ===== src/DataType/BitMap/Digits.antt =====
-- The binary digits of a word, and what the bitwise operations do to each of them.
use Prim.Native.Nat.{bit_and, bit_or, digits, bitwise, bit_and-bitwise, bit_or-bitwise}
use mos_core.Prelude.{
  ℕ, zero, suc, ◌+◌, ◌-◌, ◌*◌, ◌/◌, ◌%◌, ◌^◌, ◌≤◌, ◌<◌, min, max, ◌≡◌, refl, arith, ◌==◌,
  if◌then◌else◌, ap, ◌∙◌, sym,
}

-- The digit at position `k`, the lowest one first.
abbrev pub digit : ℕ → ℕ → ℕ
digit zero n = n % 2
digit (suc k) n = digit k (n / 2)

pub digit_lt : (k n : ℕ) → digit k n < 2
digit_lt zero n = omega arith
digit_lt (suc k) n = digit_lt k (n / 2)

module _ (z : ℕ → ℕ) (f : ℕ → ℕ → ℕ) (run_out : (b : ℕ) → z b ≡ z (b / 2) * 2 + f 0 (b % 2))
    (bits : (x y : ℕ) → x < 2 → y < 2 → f x y < 2) where
  -- Any count that is large enough gives the same result.
  counts : (n m a b : ℕ) → a ≤ n → a ≤ m → digits z f n a b ≡ digits z f m a b
  counts zero zero a b p q = refl
  counts zero (suc m) zero b p q = refl
  counts zero (suc m) (suc a) b p q = elim p [ ]
  counts (suc n) zero zero b p q = refl
  counts (suc n) zero (suc a) b p q = elim q [ ]
  counts (suc n) (suc m) zero b p q = refl
  counts (suc n) (suc m) (suc a) b p q =
      ap (λ x. x * 2 + f (suc a % 2) (b % 2))
        (counts n m (suc a / 2) (b / 2) (omega arith) (omega arith))

  bitwise-halves : (a b : ℕ) → bitwise z f a b ≡ bitwise z f (a / 2) (b / 2) * 2 + f (a % 2) (b % 2)
  bitwise-halves zero b = run_out b
  bitwise-halves (suc a) b =
      ap (λ x. x * 2 + f (suc a % 2) (b % 2))
        (counts a (suc a / 2) (suc a / 2) (b / 2) (omega arith) (omega arith))

  pub digit-bitwise : (k a b : ℕ) → digit k (bitwise z f a b) ≡ f (digit k a) (digit k b)
  digit-bitwise zero a b =
      omega (arith, bitwise-halves a b, bits (a % 2) (b % 2) (omega arith) (omega arith))
  digit-bitwise (suc k) a b =
      let half : bitwise z f a b / 2 ≡ bitwise z f (a / 2) (b / 2) =
        omega (arith, bitwise-halves a b, bits (a % 2) (b % 2) (omega arith) (omega arith)) in
      ap (digit k) half ∙ digit-bitwise k (a / 2) (b / 2)

pub digit-bit_or : (k a b : ℕ) → digit k (bit_or a b) ≡ max (digit k a) (digit k b)
digit-bit_or k a b =
    ap (digit k) (bit_or-bitwise a b)
    ∙ digit-bitwise (λ c. c) max (λ c. omega arith) (λ x y p q. omega arith) k a b

pub digit-bit_and : (k a b : ℕ) → digit k (bit_and a b) ≡ min (digit k a) (digit k b)
digit-bit_and k a b =
    ap (digit k) (bit_and-bitwise a b)
    ∙ digit-bitwise (λ c. 0) min (λ c. omega arith) (λ x y p q. omega arith) k a b

pub digit-zero : (k : ℕ) → digit k 0 ≡ 0
digit-zero zero = refl
digit-zero (suc k) = digit-zero k

double : (j : ℕ) → 2 ^ suc j ≡ 2 ^ j * 2
double j = omega arith

-- A power of 2 has one digit.
pub digit-pow : (k j : ℕ) → digit k (2 ^ j) ≡ (if k == j then 1 else 0)
digit-pow zero zero = refl
digit-pow zero (suc j) = ground (arith, double j)
digit-pow (suc k) zero = digit-zero k ∙ ground arith
digit-pow (suc k) (suc j) =
    let half : 2 ^ suc j / 2 ≡ 2 ^ j = omega (arith, double j) in
    ap (digit k) half ∙ digit-pow k j ∙ ground arith

-- The digits of the complement of a word of `w` bits.
pub digit-complement : (k w b : ℕ) → k < w → b < 2 ^ w → digit k (2 ^ w - 1 - b) ≡ 1 - digit k b
digit-complement k zero b lt low = elim lt [ ]
digit-complement zero (suc w) b lt low = omega (arith, double w)
digit-complement (suc k) (suc w) b lt low =
    let half : (2 ^ suc w - 1 - b) / 2 ≡ 2 ^ w - 1 - b / 2 = omega (arith, double w) in
    ap (digit k) half ∙ digit-complement k w (b / 2) (omega arith) (omega (arith, double w))

bit_and_halves : (a b : ℕ) → bit_and a b ≡ bit_and (a / 2) (b / 2) * 2 + min (a % 2) (b % 2)
bit_and_halves a b =
    bit_and-bitwise a b
    ∙ bitwise-halves (λ c. 0) min (λ c. omega arith) (λ x y p q. omega arith) a b
    ∙ ap (λ x. x * 2 + min (a % 2) (b % 2)) (sym (bit_and-bitwise (a / 2) (b / 2)))

no_digits : (n a : ℕ) → digits (λ c. 0) min n a 0 ≡ 0
no_digits zero a = refl
no_digits (suc n) zero = refl
no_digits (suc n) (suc a) = omega (arith, no_digits n (suc a / 2))

bit_and-zero : (a : ℕ) → bit_and a 0 ≡ 0
bit_and-zero a = bit_and-bitwise a 0 ∙ no_digits a a

-- The word of a single digit.
pub bit_and-pow : (k a : ℕ) → bit_and a (2 ^ k) ≡ digit k a * 2 ^ k
bit_and-pow zero a = omega (arith, bit_and_halves a 1, bit_and-zero (a / 2))
bit_and-pow (suc k) a =
    let half : 2 ^ suc k / 2 ≡ 2 ^ k = omega (arith, double k) in
    bit_and_halves a (2 ^ suc k)
    ∙ ap (λ x. bit_and (a / 2) x * 2 + min (a % 2) (2 ^ suc k % 2)) half
    ∙ grind (arith, bit_and-pow k (a / 2), double k)

bit_or_halves : (a b : ℕ) → bit_or a b ≡ bit_or (a / 2) (b / 2) * 2 + max (a % 2) (b % 2)
bit_or_halves a b =
    bit_or-bitwise a b
    ∙ bitwise-halves (λ c. c) max (λ c. omega arith) (λ x y p q. omega arith) a b
    ∙ ap (λ x. x * 2 + max (a % 2) (b % 2)) (sym (bit_or-bitwise (a / 2) (b / 2)))

-- The bitwise operations stay within the width of a word.
pub bit_or_lt : (n a b : ℕ) → a < 2 ^ n → b < 2 ^ n → bit_or a b < 2 ^ n
bit_or_lt zero a b p q =
    let a0 : a ≡ 0 = omega arith in let b0 : b ≡ 0 = omega arith in rw (a0, b0) (omega arith)
bit_or_lt (suc n) a b p q = omega (
  arith,
  bit_or_halves a b,
  double n,
  bit_or_lt n (a / 2) (b / 2) (omega (arith, double n)) (omega (arith, double n)),
)

zero-bit_and : (b : ℕ) → bit_and 0 b ≡ 0
zero-bit_and b = bit_and-bitwise 0 b

pub bit_and_lt : (n a b : ℕ) → a < 2 ^ n → bit_and a b < 2 ^ n
bit_and_lt zero a b p = let a0 : a ≡ 0 = omega arith in rw a0 (omega (arith, zero-bit_and b))
bit_and_lt (suc n) a b p =
    omega
      (arith, bit_and_halves a b, double n, bit_and_lt n (a / 2) (b / 2) (omega (arith, double n)))
