-- ===== src/DataType/Buffer/Contents.antt =====
-- The buffer as a bounded stack.
use mos_core.Prelude.{
  ℕ, zero, suc, ◌+◌, ◌-◌, ◌≤◌, ◌<◌, ◌≡◌, refl, ◌≢◌, false, List, [], ◌∷◌, ◌++◌, some, arith, ◌==◌,
  length, length-set, length-replicate, get_elem?, set, ap, ◌∙◌, sym, Bool-cases, inl, inr,
}
use mos_core.DataType.Buffer.{Buffer, full, empty, push, back, pop, clear}

pub record IsValid {ℓ} {T : Type ℓ} (capacity : ℕ) (b : Buffer T) : Type 0 where
  pub array_length : length b.raw ≡ capacity
  pub len_le : b.len ≤ capacity

add_one : (n : ℕ) → n + 1 ≡ suc n
add_one n = omega arith

module _ {ℓ} {T : Type ℓ} where
  -- The first `n` values of an array.
  abbrev pub prefix : ℕ → List T → List T
  prefix zero xs = []
  prefix (suc n) [] = []
  prefix (suc n) (x ∷ xs) = x ∷ prefix n xs

  abbrev pub contents : Buffer T → List T
  contents b = prefix b.len b.raw

  prefix-set :
      (n : ℕ) (xs : List T) (v : T)
      → n < length xs
      → prefix (suc n) (set xs n v) ≡ prefix n xs ++ v ∷ []
  prefix-set n [] v lt = elim lt [ ]
  prefix-set zero (x ∷ xs) v lt = refl
  prefix-set (suc n) (x ∷ xs) v lt = ap (λ ys. x ∷ ys) (prefix-set n xs v (omega arith))

  prefix-set_beyond : (n i : ℕ) (xs : List T) (v : T) → n ≤ i → prefix n (set xs i v) ≡ prefix n xs
  prefix-set_beyond zero i xs v le = refl
  prefix-set_beyond (suc n) i [] v le = refl
  prefix-set_beyond (suc n) zero (x ∷ xs) v le = elim le [ ]
  prefix-set_beyond (suc n) (suc i) (x ∷ xs) v le =
      ap (λ ys. x ∷ ys) (prefix-set_beyond n i xs v (omega arith))

  prefix-last :
      (n : ℕ) (xs : List T)
      → n < length xs
      → (x : T) × (get_elem? xs n ≡ some x) × (prefix (suc n) xs ≡ prefix n xs ++ x ∷ [])
  prefix-last n [] lt = elim lt [ ]
  prefix-last zero (x ∷ xs) lt = (x, refl, refl)
  prefix-last (suc n) (x ∷ xs) lt =
      let (y, e, c) = prefix-last n xs (omega arith) in (y, e, ap (λ ys. x ∷ ys) c)

  -- `push` on a buffer that is not full puts the value on top of the stack.
  pub push-contents :
      (capacity : ℕ) {b : Buffer T} (v : T)
      → IsValid capacity b
      → full capacity b ≡ false
      → IsValid capacity (push b v) × (contents (push b v) ≡ contents b ++ v ∷ [])
  unfolding push full
  push-contents capacity {b} v ok room = (
    record { array_length = length-set b.raw b.len v ∙ ok.array_length; len_le = ground arith },
    ap (λ n. prefix n (set b.raw b.len v)) (add_one b.len)
        ∙ prefix-set b.len b.raw v (ground (arith, ok.array_length)),
  )

  -- `back` and `pop` of a buffer that is not empty read the newest value and take it off the stack.
  pub pop-contents :
      (capacity : ℕ) (null : T) {b : Buffer T}
      → IsValid capacity b
      → empty b ≡ false
      → (v : T) × (back null b ≡ some v)
        × (contents b ≡ contents (pop null b) ++ v ∷ [])
        × IsValid capacity (pop null b)
  unfolding back pop empty
  pop-contents capacity null {b} ok some_left =
      let ne : b.len ≢ 0 = ground arith in
      let one_more : b.len ≡ suc (b.len - 1) = omega arith in
      let (v, found, split) =
        prefix-last (b.len - 1) b.raw (omega (arith, ok.array_length, ok.len_le)) in
      (
        v,
        rw some_left found,
        ap (λ n. prefix n b.raw) one_more
            ∙ split
            ∙ rw some_left (
                ap (λ ys. ys ++ v ∷ [])
                  (sym (prefix-set_beyond (b.len - 1) (b.len - 1) b.raw null (omega arith)))),
        rw some_left record {
          array_length = length-set b.raw (b.len - 1) null ∙ ok.array_length;
          len_le = omega (arith, ok.len_le);
        },
      )

  -- `clear` leaves an empty buffer.
  pub clear-contents :
      (capacity : ℕ) (null : T) {b : Buffer T}
      → IsValid capacity b
      → IsValid capacity (clear null b) × (contents (clear null b) ≡ [])
  unfolding clear empty
  clear-contents capacity null {b} ok = elim (Bool-cases (b.len == 0)) [
    | inl e ↦ let z : b.len ≡ 0 = ground arith in rw e (ok, ap (λ n. prefix n b.raw) z)
    | inr e ↦ rw e (
      record {
        array_length = length-replicate (length b.raw) null ∙ ok.array_length;
        len_le = omega arith;
      },
      refl,
    )
  ]
