-- ===== src/Kernel/State/Tids.antt =====
-- The table of tasks and the bitmap of their numbers: which numbers are in use.
use mos_core.Prelude.{
  ℕ, zero, suc, ◌≤◌, ◌<◌, ◌≡◌, refl, ◌≢◌, true, false, ◌||◌, List, [], ◌∷◌, ◌++◌, arith, ◌==◌,
  if◌then◌else◌, length, length-append, Bool-cases, inl, inr, sym, ap, ◌∙◌, subst, ==_ne,
}
use mos_core.DataType.Sequence.{
  has, Distinct, has-insert, Distinct-insert, Distinct-remove, erase, length-erase,
}
use mos_core.DataType.BitMap.{test_bit}
use mos_core.DataType.BitMap.Words.{AreWords}
use mos_core.Kernel.State.{Tcb, Kernel, add_slot, remove_slot, holds_slot, task_max}

-- The tasks of the table, without its free slots.
abbrev pub live : List ℕ → List ℕ
live [] = []
live (p ∷ ps) = if p == 0 then live ps else p ∷ live ps

abbrev pub numbers : (ℕ → Tcb) → List ℕ → List ℕ
numbers tcbs [] = []
numbers tcbs (t ∷ ts) = (tcbs t).tid ∷ numbers tcbs ts

-- The numbers of the tasks are different, and the bits of the map are those that are in use.
pub record TidsOk (k : Kernel) : Type 0 where
  pub words : AreWords k.tids
  pub one_word : length k.tids ≡ 1
  pub table : length k.raw ≡ task_max
  pub counted : k.debug_len ≡ length (live k.raw)
  pub distinct : Distinct (numbers k.tcbs (live k.raw))
  pub bits : (q : ℕ) → q < 32 → test_bit k.tids q ≡ has q (numbers k.tcbs (live k.raw))
  pub small : (q : ℕ) → has q (numbers k.tcbs (live k.raw)) ≡ true → q < 32

pub length-numbers : (tcbs : ℕ → Tcb) (ts : List ℕ) → length (numbers tcbs ts) ≡ length ts
length-numbers tcbs [] = refl
length-numbers tcbs (t ∷ ts) = ap suc (length-numbers tcbs ts)

pub numbers-append :
    (tcbs : ℕ → Tcb) (xs ys : List ℕ) → numbers tcbs (xs ++ ys) ≡ numbers tcbs xs ++ numbers tcbs ys
numbers-append tcbs [] ys = refl
numbers-append tcbs (x ∷ xs) ys = ap (λ zs. (tcbs x).tid ∷ zs) (numbers-append tcbs xs ys)

-- The number of a task in a list.
pub has-numbers :
    (tcbs : ℕ → Tcb) (t : ℕ) (ts : List ℕ)
    → has t ts ≡ true
    → has (tcbs t).tid (numbers tcbs ts) ≡ true
has-numbers tcbs t [] i = cc
has-numbers tcbs t (x ∷ xs) i = elim (Bool-cases (t == x)) [
  | inl e ↦ let here : t ≡ x = ground arith in ground (arith, ap (λ y. (tcbs y).tid) here)
  | inr e ↦ ground (arith, has-numbers tcbs t xs)
]

-- Different numbers are the numbers of different tasks.
pub numbers_unique :
    (tcbs : ℕ → Tcb) (ts : List ℕ) (t u : ℕ)
    → Distinct (numbers tcbs ts)
    → has t ts ≡ true
    → has u ts ≡ true
    → (tcbs t).tid ≡ (tcbs u).tid
    → t ≡ u
numbers_unique tcbs [] t u d i j e = cc
numbers_unique tcbs (x ∷ xs) t u d i j e = ground (
  arith,
  numbers_unique tcbs xs t u,
  has-numbers tcbs t xs,
  has-numbers tcbs u xs,
  ap (λ y. (tcbs y).tid),
  d,
)

-- The numbers of tasks that keep theirs.
pub numbers_congr :
    (f g : ℕ → Tcb) (ts : List ℕ)
    → ((x : ℕ) → has x ts ≡ true → (g x).tid ≡ (f x).tid)
    → numbers g ts ≡ numbers f ts
numbers_congr f g [] same = refl
numbers_congr f g (t ∷ ts) same =
    let here : (g t).tid ≡ (f t).tid = same t (ground arith) in
    let rest = numbers_congr f g ts (λ x i. same x (ground arith)) in cc

pub length-live : (raw : List ℕ) → length (live raw) ≤ length raw
length-live [] = omega arith
length-live (p ∷ ps) = ground (arith, length-live ps)

-- A table that is not full has a free slot.
pub free_slot : (raw : List ℕ) → length (live raw) < length raw → holds_slot 0 raw ≡ true
free_slot [] lt = absurd (omega arith)
free_slot (p ∷ ps) lt = ground (arith, free_slot ps)

-- The tasks of the table around the one that is added or removed.
pub record Around (t : ℕ) (without with_t : List ℕ) : Type 0 where
  pub front : List ℕ
  pub back : List ℕ
  pub out : without ≡ front ++ back
  pub inside : with_t ≡ front ++ t ∷ back

Around-cons : (t p : ℕ) (xs ys : List ℕ) → Around t xs ys → Around t (p ∷ xs) (p ∷ ys)
Around-cons t p xs ys a = record {
  front = p ∷ a.front;
  back = a.back;
  out = ap (λ zs. p ∷ zs) a.out;
  inside = ap (λ zs. p ∷ zs) a.inside;
}

pub add_slot-Around :
    (t : ℕ) (raw : List ℕ)
    → t ≢ 0
    → holds_slot 0 raw ≡ true
    → Around t (live raw) (live (add_slot t raw))
unfolding add_slot
add_slot-Around t [] nz free = cc
add_slot-Around t (p ∷ ps) nz free = elim (Bool-cases (p == 0)) [
  | inl e ↦ rw (e, ==_ne t 0 nz) (record { front = []; back = live ps; out = refl; inside = refl })
  | inr e ↦
      rw (e, e)
        (Around-cons t p (live ps) (live (add_slot t ps)) (add_slot-Around t ps nz (ground arith)))
]

pub remove_slot-Around :
    (t : ℕ) (raw : List ℕ)
    → t ≢ 0
    → has t (live raw) ≡ true
    → Around t (live (remove_slot t raw)) (live raw)
unfolding remove_slot
remove_slot-Around t [] nz i = cc
remove_slot-Around t (p ∷ ps) nz i = elim (Bool-cases (p == t)) [
  | inl e ↦
      let here : p ≡ t = ground arith in
      let kept : (p == 0) ≡ false = ground arith in
      rw (e, kept)
        (record { front = []; back = live ps; out = refl; inside = ap (λ x. x ∷ live ps) here })
  | inr e ↦ rw e (elim (Bool-cases (p == 0)) [
    | inl z ↦ rw z (remove_slot-Around t ps nz (ground arith))
    | inr z ↦ rw z (
        Around-cons t p (live (remove_slot t ps)) (live ps)
          (remove_slot-Around t ps nz (ground arith)))
  ])
]

pub length-add_slot : (t : ℕ) (raw : List ℕ) → length (add_slot t raw) ≡ length raw
unfolding add_slot
length-add_slot t [] = refl
length-add_slot t (p ∷ ps) = ground (arith, length-add_slot t ps)

pub length-remove_slot : (t : ℕ) (raw : List ℕ) → length (remove_slot t raw) ≡ length raw
unfolding remove_slot
length-remove_slot t [] = refl
length-remove_slot t (p ∷ ps) = ground (arith, length-remove_slot t ps)

pub holds-live : (t : ℕ) (raw : List ℕ) → t ≢ 0 → holds_slot t raw ≡ has t (live raw)
holds-live t [] nz = refl
holds-live t (p ∷ ps) nz = ground (arith, holds-live t ps)

module _ (tcbs : ℕ → Tcb) (t : ℕ) {without with_t : List ℕ} (a : Around t without with_t) where
  abbrev tid : ℕ
  tid = (tcbs t).tid

  numbers-with_t : numbers tcbs with_t ≡ numbers tcbs a.front ++ tid ∷ numbers tcbs a.back
  numbers-with_t = ap (numbers tcbs) a.inside ∙ numbers-append tcbs a.front (t ∷ a.back)

  numbers-without : numbers tcbs without ≡ numbers tcbs a.front ++ numbers tcbs a.back
  numbers-without = ap (numbers tcbs) a.out ∙ numbers-append tcbs a.front a.back

  pub length-Around : length with_t ≡ suc (length without)
  length-Around = omega (
    arith,
    ap length a.inside,
    ap length a.out,
    length-append a.front (t ∷ a.back),
    length-append a.front a.back,
  )

  pub has-Around :
      (q : ℕ) → has q (numbers tcbs with_t) ≡ ((q == tid) || has q (numbers tcbs without))
  has-Around q =
      ap (has q) numbers-with_t
      ∙ has-insert q tid (numbers tcbs a.front) (numbers tcbs a.back)
      ∙ ap (λ zs. (q == tid) || has q zs) (sym numbers-without)

  pub Distinct-with_t :
      has tid (numbers tcbs without) ≡ false
      → Distinct (numbers tcbs without)
      → Distinct (numbers tcbs with_t)
  Distinct-with_t new d = subst Distinct (sym numbers-with_t) (
      Distinct-insert tid (numbers tcbs a.front) (numbers tcbs a.back)
        (ap (has tid) (sym numbers-without) ∙ new) (subst Distinct numbers-without d))

  pub Distinct-without :
      Distinct (numbers tcbs with_t)
      → (has tid (numbers tcbs without) ≡ false) × Distinct (numbers tcbs without)
  Distinct-without d =
      let (out, rest) =
        Distinct-remove tid (numbers tcbs a.front) (numbers tcbs a.back)
          (subst Distinct numbers-with_t d) in
      (ap (has tid) numbers-without ∙ out, subst Distinct (sym numbers-without) rest)

has-erase_ne : (q a : ℕ) (ts : List ℕ) → q ≢ a → has q (erase a ts) ≡ has q ts
unfolding erase
has-erase_ne q a [] ne = refl
has-erase_ne q a (t ∷ ts) ne = ground (arith, has-erase_ne q a ts ne)

-- Among the numbers up to the length of a list there is one that is not in the list.
pub unused : (n : ℕ) (ts : List ℕ) → length ts ≤ n → (q : ℕ) × (q ≤ n) × (has q ts ≡ false)
unused n [] le = (0, omega arith, refl)
unused zero (t ∷ ts) le = absurd (omega arith)
unused (suc n) (t ∷ ts) le = elim (Bool-cases (has (suc n) (t ∷ ts))) [
  | inl i ↦
      let shorter = length-erase (suc n) (t ∷ ts) i in
      let (q, small, out) = unused n (erase (suc n) (t ∷ ts)) (omega (arith, shorter)) in
      let ne : q ≢ suc n = λ e. absurd (omega arith) in
      (q, omega arith, sym (has-erase_ne q (suc n) (t ∷ ts) ne) ∙ out)
  | inr o ↦ (suc n, omega arith, o)
]
