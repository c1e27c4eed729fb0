-- ===== src/Utils/Memory/Copied.antt =====
-- What `memcpy` and `memset` leave in memory.
use mos_core.Prelude.{
  ℕ, zero, suc, ◌+◌, ◌-◌, ◌≤◌, ◌<◌, ◌≡◌, refl, ◌≢◌, ◌⊎◌, inl, inr, Bool, true, false, ◌&&◌, List,
  [], ◌∷◌, arith, ◌==◌, if◌then◌else◌, leb, ltb, length, Bool-cases, sym, ap, ◌∙◌, subst, ==_ne,
}
use mos_core.Kernel.State.{update}
use mos_core.Utils.Strings.Compare.{HoldsStr}
use mos_core.Utils.Memory.{Bytes, copy_from, memcpy, fill_from, memset}

-- The bytes from `src` and those from `dest` on do not overlap.
abbrev pub Apart : (dest src n : ℕ) → Type 0
Apart dest src n = (dest + n ≤ src) ⊎ (src + n ≤ dest)

abbrev pub within : (low high a : ℕ) → Bool
within low high a = leb low a && ltb a high

copy_from-bytes :
    (rounds : ℕ) (mem : Bytes) (dest src i n a : ℕ)
    → i + rounds ≡ n
    → Apart dest src n
    → copy_from rounds mem dest src i a
      ≡ (if within (dest + i) (dest + n) a then mem (src + (a - dest)) else mem a)
unfolding copy_from
copy_from-bytes zero mem dest src i n a total apart =
    let out : within (dest + i) (dest + n) a ≡ false = ground (arith, total) in rw out refl
copy_from-bytes (suc rounds) mem dest src i n a total apart =
    let rest =
      copy_from-bytes rounds (update mem (dest + i) (mem (src + i))) dest src (i + 1) n a
        (omega (arith, total)) apart in
    elim (Bool-cases (a == dest + i)) [
      | inl e ↦
          let out : within (dest + (i + 1)) (dest + n) a ≡ false = ground arith in
          let in_ : within (dest + i) (dest + n) a ≡ true = ground (arith, total) in
          let there : src + i ≡ src + (a - dest) = ground arith in
          rest ∙ rw (out, e, in_) (ap mem there)
      | inr e ↦ elim (Bool-cases (within (dest + i) (dest + n) a)) [
        | inl y ↦
            let in_ : within (dest + (i + 1)) (dest + n) a ≡ true = ground arith in
            let ne : src + (a - dest) ≢ dest + i = outside a i y (omega (arith, total)) in
            rest ∙ rw (in_, y, ==_ne (src + (a - dest)) (dest + i) ne) refl
        | inr o ↦
            let out : within (dest + (i + 1)) (dest + n) a ≡ false = ground arith in
            rest ∙ rw (out, o, e) refl
      ]
    ]
  where
    outside :
        (b j : ℕ) → within (dest + i) (dest + n) b ≡ true → j < n → src + (b - dest) ≢ dest + j
    outside b j y lt z = elim apart [
      | inl le ↦ absurd (omega (arith, z, le, lt))
      | inr le ↦ absurd (ground (arith, z, le, lt, y))
    ]

-- `memcpy` between bytes that do not overlap copies them, and leaves all others.
memcpy-bytes :
    (mem : Bytes) (dest src n a : ℕ)
    → Apart dest src n
    → memcpy mem dest src n a ≡ (if within dest (dest + n) a then mem (src + (a - dest)) else mem a)
unfolding memcpy
memcpy-bytes mem dest src n a apart =
    let start : dest + 0 ≡ dest = omega arith in
    copy_from-bytes n mem dest src 0 n a (omega arith) apart
    ∙ ap (λ b. if within b (dest + n) a then mem (src + (a - dest)) else mem a) start

fill_from-bytes :
    (rounds : ℕ) (mem : Bytes) (ptr value i n a : ℕ)
    → i + rounds ≡ n
    → fill_from rounds mem ptr value i a ≡ (if within (ptr + i) (ptr + n) a then value else mem a)
unfolding fill_from
fill_from-bytes zero mem ptr value i n a total =
    let out : within (ptr + i) (ptr + n) a ≡ false = ground (arith, total) in rw out refl
fill_from-bytes (suc rounds) mem ptr value i n a total =
    let rest =
      fill_from-bytes rounds (update mem (ptr + i) value) ptr value (i + 1) n a
        (omega (arith, total)) in
    elim (Bool-cases (a == ptr + i)) [
      | inl e ↦
          let out : within (ptr + (i + 1)) (ptr + n) a ≡ false = ground arith in
          let in_ : within (ptr + i) (ptr + n) a ≡ true = ground (arith, total) in
          rest ∙ rw (out, e, in_) refl
      | inr e ↦
          let same : within (ptr + (i + 1)) (ptr + n) a ≡ within (ptr + i) (ptr + n) a =
            ground arith in
          rest ∙ rw (same, e) refl
    ]

-- `memset` sets the bytes, and leaves all others.
pub memset-bytes :
    (mem : Bytes) (ptr value n a : ℕ)
    → memset mem ptr value n a ≡ (if within ptr (ptr + n) a then value else mem a)
unfolding memset
memset-bytes mem ptr value n a =
    let start : ptr + 0 ≡ ptr = omega arith in
    fill_from-bytes n mem ptr value 0 n a (omega arith)
    ∙ ap (λ b. if within b (ptr + n) a then value else mem a) start

at_address : {p q : ℕ} (mem : Bytes) (cs : List ℕ) → p ≡ q → HoldsStr mem p cs → HoldsStr mem q cs
at_address mem cs e h = subst (λ a. HoldsStr mem a cs) e h

-- A string that has room with its end is copied.
held_copy :
    (mem mem' : Bytes) (dest src n j : ℕ) (cs : List ℕ)
    → ((x : ℕ) → x < n → mem' (dest + x) ≡ mem (src + x))
    → HoldsStr mem (src + j) cs
    → j + length cs < n
    → HoldsStr mem' (dest + j) cs
held_copy mem mem' dest src n j [] same h lt = same j (omega (arith, lt)) ∙ h
held_copy mem mem' dest src n j (c ∷ cs) same h lt = (
  same j (omega (arith, lt)) ∙ h.0,
  h.1,
  h.2,
  at_address mem' cs (omega arith) (
      held_copy mem mem' dest src n (j + 1) cs same (at_address mem cs (omega arith) h.3)
        (omega (arith, lt))),
)

pub memcpy_at :
    (mem : Bytes) (dest src n x : ℕ)
    → Apart dest src n
    → x < n
    → memcpy mem dest src n (dest + x) ≡ mem (src + x)
memcpy_at mem dest src n x apart lt =
    let in_ : within dest (dest + n) (dest + x) ≡ true = ground arith in
    let there : src + (dest + x - dest) ≡ src + x = omega arith in
    memcpy-bytes mem dest src n (dest + x) apart ∙ rw in_ (ap mem there)

pub memcpy-HoldsStr :
    (mem : Bytes) (dest src n : ℕ) (cs : List ℕ)
    → Apart dest src n
    → HoldsStr mem src cs
    → length cs < n
    → HoldsStr (memcpy mem dest src n) dest cs
memcpy-HoldsStr mem dest src n cs apart h lt = at_address (memcpy mem dest src n) cs (omega arith) (
    held_copy mem (memcpy mem dest src n) dest src n 0 cs
      (λ x lt'. memcpy_at mem dest src n x apart lt') (at_address mem cs (omega arith) h)
      (omega (arith, lt)))

-- No byte of a string is the terminator.
pub HoldsStr-nonzero :
    (mem : Bytes) (p x : ℕ) (cs : List ℕ) → HoldsStr mem p cs → x < length cs → mem (p + x) ≢ 0
HoldsStr-nonzero mem p x [] h lt z = absurd (omega (arith, lt))
HoldsStr-nonzero mem p zero (c ∷ cs) h lt z =
    let start : p ≡ p + 0 = omega arith in h.1 (sym h.0 ∙ ap mem start ∙ z)
HoldsStr-nonzero mem p (suc x) (c ∷ cs) h lt z =
    let next : p + 1 + x ≡ p + suc x = omega arith in
    HoldsStr-nonzero mem (p + 1) x cs h.3 (omega (arith, lt)) (ap mem next ∙ z)
