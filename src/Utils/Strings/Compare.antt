-- ===== src/Utils/Strings/Compare.antt =====
-- The string functions on strings that end in a 0: the length, and the order of the dictionary.
use mos_core.Prelude.{
  take, ℕ, zero, suc, ◌+◌, ◌<◌, ◌≡◌, refl, ◌≢◌, ◌↔◌, false, List, [], ◌∷◌, some, arith, ◌==◌,
  if◌then◌else◌, length, ap, ◌∙◌, sym, Bool-cases, inl, inr, ==_ne, ap₂,
}
use mos_core.Utils.Strings.{strlen, strcmp, strncmp, null_int, byte_diff}

-- The bytes from `p` on are those of the string and a 0.
abbrev pub HoldsStr : (ℕ → ℕ) → ℕ → List ℕ → Type 0
HoldsStr mem p [] = mem p ≡ 0
HoldsStr mem p (c ∷ cs) = (mem p ≡ c) × (c ≢ 0) × (c < 256) × HoldsStr mem (p + 1) cs

-- `strlen` ends, with the length of the string.
pub strlen-length :
    (fuel : ℕ) (mem : ℕ → ℕ) (p : ℕ) (cs : List ℕ)
    → HoldsStr mem p cs
    → length cs < fuel
    → strlen fuel mem p ≡ some (length cs)
unfolding strlen
strlen-length zero mem p cs h lt = elim lt [ ]
strlen-length (suc fuel) mem p [] h lt = rw h refl
strlen-length (suc fuel) mem p (c ∷ cs) h lt =
    let inside : (mem p == 0) ≡ false = ==_ne (mem p) 0 (λ z. h.1 (sym h.0 ∙ z)) in
    rw (inside, strlen-length fuel mem (p + 1) cs h.3 (omega arith)) (ap some (omega arith))

-- The order of the dictionary: the difference of the first two bytes that differ, where a string
-- ends in a 0.
abbrev pub dictionary : List ℕ → List ℕ → ℕ
dictionary [] [] = null_int
dictionary [] (d ∷ ds) = byte_diff 0 d
dictionary (c ∷ cs) [] = byte_diff c 0
dictionary (c ∷ cs) (d ∷ ds) = if c == d then dictionary cs ds else byte_diff c d

strcmp-dictionary :
    (fuel : ℕ) (mem : ℕ → ℕ) (p q : ℕ) (cs ds : List ℕ)
    → HoldsStr mem p cs
    → HoldsStr mem q ds
    → length cs < fuel
    → strcmp fuel mem p q ≡ some (dictionary cs ds)
unfolding strcmp
strcmp-dictionary zero mem p q cs ds g h lt = elim lt [ ]
strcmp-dictionary (suc fuel) mem p q [] [] g h lt = rw (g, h) refl
strcmp-dictionary (suc fuel) mem p q [] (d ∷ ds) g h lt = rw (g, h.0) refl
strcmp-dictionary (suc fuel) mem p q (c ∷ cs) [] g h lt = rw (g.0, h, ==_ne c 0 g.1) refl
strcmp-dictionary (suc fuel) mem p q (c ∷ cs) (d ∷ ds) g h lt = elim (Bool-cases (c == d)) [
  | inl e ↦
      rw (g.0, h.0, ==_ne c 0 g.1, e)
        (strcmp-dictionary fuel mem (p + 1) (q + 1) cs ds g.3 h.3 (omega arith))
  | inr e ↦ rw (g.0, h.0, ==_ne c 0 g.1, e) refl
]

dictionary_same :
    (mem : ℕ → ℕ) (p q : ℕ) (cs ds : List ℕ)
    → HoldsStr mem p cs
    → HoldsStr mem q ds
    → dictionary cs ds ≡ null_int
    → cs ≡ ds
dictionary_same mem p q [] [] g h e = refl
dictionary_same mem p q [] (d ∷ ds) g h e = absurd (h.1 (omega (arith, h.2)))
dictionary_same mem p q (c ∷ cs) [] g h e = absurd (g.1 (omega arith))
dictionary_same mem p q (c ∷ cs) (d ∷ ds) g h e = elim (Bool-cases (c == d)) [
  | inl s ↦
      ap₂ (λ x xs. x ∷ xs) (ground arith)
        (dictionary_same mem (p + 1) (q + 1) cs ds g.3 h.3 (rw s at e))
  | inr s ↦ let diff : byte_diff c d ≡ null_int = rw s at e in absurd (ground (arith, g.2, h.2))
]

dictionary_refl : (cs : List ℕ) → dictionary cs cs ≡ null_int
dictionary_refl [] = refl
dictionary_refl (c ∷ cs) = ground (arith, dictionary_refl cs)

-- `strcmp` of two strings ends, with the difference of the first two bytes that differ; the result
-- is 0 exactly when the strings are the same.
pub strcmp-strings :
    (fuel : ℕ) (mem : ℕ → ℕ) (p q : ℕ) (cs ds : List ℕ)
    → HoldsStr mem p cs
    → HoldsStr mem q ds
    → length cs < fuel
    → (strcmp fuel mem p q ≡ some (dictionary cs ds)) × ((dictionary cs ds ≡ null_int) ↔ (cs ≡ ds))
strcmp-strings fuel mem p q cs ds g h lt = (
  strcmp-dictionary fuel mem p q cs ds g h lt,
  (dictionary_same mem p q cs ds g h, λ e. ap (dictionary cs) (sym e) ∙ dictionary_refl cs),
)

-- `strncmp` compares the first `n` bytes of two strings as `strcmp` compares whole strings.
pub strncmp-dictionary :
    (mem : ℕ → ℕ) (p q n : ℕ) (cs ds : List ℕ)
    → HoldsStr mem p cs
    → HoldsStr mem q ds
    → strncmp mem p q n ≡ dictionary (take n cs) (take n ds)
unfolding strncmp
strncmp-dictionary mem p q zero cs ds g h = refl
strncmp-dictionary mem p q (suc n) [] [] g h = rw (g, h) refl
strncmp-dictionary mem p q (suc n) [] (d ∷ ds) g h = rw (g, h.0) (ground (arith, h.1))
strncmp-dictionary mem p q (suc n) (c ∷ cs) [] g h = rw (g.0, h, ==_ne c 0 g.1) refl
strncmp-dictionary mem p q (suc n) (c ∷ cs) (d ∷ ds) g h = elim (Bool-cases (c == d)) [
  | inl e ↦ rw (g.0, h.0, e, ==_ne c 0 g.1) (strncmp-dictionary mem (p + 1) (q + 1) n cs ds g.3 h.3)
  | inr e ↦ rw (g.0, h.0, e) refl
]
