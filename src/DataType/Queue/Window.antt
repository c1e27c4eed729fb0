-- ===== src/DataType/Queue/Window.antt =====
-- The values in a ring: the window of its array from the head on.
use mos_core.Prelude.{
  ℕ, zero, suc, ◌+◌, ◌-◌, ◌%◌, ◌^◌, ◌≤◌, ◌<◌, ◌≡◌, refl, ap, ap₂, ◌∙◌, ◌≢◌, ◌⊎◌, inl, inr, List, [],
  ◌∷◌, ◌++◌, Option, none, some, arith, length, get_elem?, set, length-append, get_elem?-set_self,
  get_elem?-set_ne, get_elem?_in, mod-lt, mod-eq_of_lt, mod-eq-sub-mod, add-zero, Bool-cases, ◌==◌,
  if◌then◌else◌, ltb,
}
use mos_core.DataType.Queue.{Queue, advance, size, full, empty}

pub record IsValid {ℓ} {T : Type ℓ} (capacity : ℕ) (q : Queue T) : Type 0 where
  pub nonempty_array : 0 < capacity
  pub small : capacity < 2 ^ 32
  pub array_length : length q.data_array ≡ capacity
  pub head_in : q.head < capacity
  pub len_le : q.len ≤ capacity
  pub tail_at : q.tail ≡ (q.head + q.len) % capacity

-- The index `k` places behind `h`, without the remainder.
pub wrap_cases :
    (capacity h k : ℕ)
    → h < capacity
    → k ≤ capacity
    → ((h + k < capacity) × ((h + k) % capacity ≡ h + k))
      ⊎ ((capacity ≤ h + k) × ((h + k) % capacity ≡ h + k - capacity))
wrap_cases capacity h k hh hk = elim (Bool-cases (ltb (h + k) capacity)) [
  | inl p ↦ inl (ground arith, mod-eq_of_lt (ground arith))
  | inr p ↦ inr (
    ground arith,
    omega (
      arith,
      mod-eq-sub-mod {n = h + k} {m = capacity} (ground arith),
      mod-eq_of_lt {n = h + k - capacity} {m = capacity} (omega arith),
    ),
  )
]

-- One step of an index that is in range does not wrap at 2^32.
pub advance_cases :
    (capacity i : ℕ)
    → i < capacity
    → capacity < 2 ^ 32
    → ((i + 1 < capacity) × (advance capacity i ≡ i + 1))
      ⊎ ((i + 1 ≡ capacity) × (advance capacity i ≡ 0))
advance_cases capacity i h s =
    let small : (i + 1) % 2 ^ 32 ≡ i + 1 = omega arith in
    rw small (ground (arith, wrap_cases capacity i 1 h (omega arith)))

abbrev pub optional {ℓ} : {A : Type ℓ} → Option A → List A
optional none = []
optional (some x) = x ∷ []

-- The `n` values from index `h` on, going round at `capacity`.
abbrev pub window {ℓ} : {T : Type ℓ} → List T → ℕ → ℕ → ℕ → List T
window data_array capacity h zero = []
window data_array capacity h (suc n) =
    window data_array capacity h n ++ optional (get_elem? data_array ((h + n) % capacity))

abbrev pub contents {ℓ} : {T : Type ℓ} → ℕ → Queue T → List T
contents capacity q = window q.data_array capacity q.head q.len

-- Two places of a window that is no longer than the array are different slots.
pub slot-ne :
    (capacity h i n : ℕ)
    → h < capacity
    → n < capacity
    → i < n
    → (h + n) % capacity ≢ (h + i) % capacity
slot-ne capacity h i n hh hn lt =
    ground
      (arith, wrap_cases capacity h i hh (omega arith), wrap_cases capacity h n hh (omega arith))

pub slot-advance :
    (capacity h n : ℕ)
    → h < capacity
    → capacity < 2 ^ 32
    → n < capacity
    → (h + suc n) % capacity ≡ (advance capacity h + n) % capacity
slot-advance capacity h n hh s hn = ground (
  arith,
  advance_cases capacity h hh s,
  wrap_cases capacity h (suc n) hh (omega arith),
  wrap_cases capacity (advance capacity h) n (mod-lt _ (omega arith)) (omega arith),
)

pub tail-step :
    (capacity h n : ℕ)
    → h < capacity
    → capacity < 2 ^ 32
    → n < capacity
    → advance capacity ((h + n) % capacity) ≡ (h + suc n) % capacity
tail-step capacity h n hh s hn = ground (
  arith,
  advance_cases capacity ((h + n) % capacity) (mod-lt _ (omega arith)) s,
  wrap_cases capacity h n hh (omega arith),
  wrap_cases capacity h (suc n) hh (omega arith),
)

module _ {ℓ} {T : Type ℓ} where
  pub length-window :
      (xs : List T) (capacity h n : ℕ)
      → 0 < capacity
      → length xs ≡ capacity
      → length (window xs capacity h n) ≡ n
  length-window xs capacity h zero p l = refl
  length-window xs capacity h (suc n) p l =
      let (x, e) = get_elem?_in xs ((h + n) % capacity) (omega (arith, mod-lt (h + n) p)) in
      rw e (
        omega (
          arith,
          length-append (window xs capacity h n) (x ∷ []),
          length-window xs capacity h n p l,
        ))

  -- A write behind a window leaves it alone.
  pub window-set :
      (xs : List T) (capacity h n k : ℕ) (x : T)
      → h < capacity
      → n < capacity
      → k ≤ n
      → window (set xs ((h + n) % capacity) x) capacity h k ≡ window xs capacity h k
  window-set xs capacity h n zero x hh hn le = refl
  window-set xs capacity h n (suc k) x hh hn le =
      rw (window-set xs capacity h n k x hh hn (omega arith))
        (rw (get_elem?-set_ne xs x (slot-ne capacity h k n hh hn (omega arith))))

  pub window-snoc :
      (xs : List T) (capacity h n i : ℕ) (x : T)
      → h < capacity
      → n < capacity
      → length xs ≡ capacity
      → i ≡ (h + n) % capacity
      → window (set xs i x) capacity h (suc n) ≡ window xs capacity h n ++ x ∷ []
  window-snoc xs capacity h n i x hh hn l e =
      let inside : (h + n) % capacity < length xs =
        omega (arith, mod-lt (h + n) {m = capacity} (omega arith)) in
      ap (λ k. window (set xs k x) capacity h (suc n)) e
      ∙ (ap₂ ◌++◌ (window-set xs capacity h n n x hh hn (omega arith))
          (ap optional (get_elem?-set_self xs ((h + n) % capacity) x inside)))

  pub window-cons :
      (xs : List T) (capacity h n : ℕ) (x : T)
      → h < capacity
      → capacity < 2 ^ 32
      → n < capacity
      → get_elem? xs h ≡ some x
      → window xs capacity h (suc n) ≡ x ∷ window xs capacity (advance capacity h) n
  window-cons xs capacity h zero x hh s hn e =
      let here : (h + 0) % capacity ≡ h = rw add-zero (mod-eq_of_lt hh) in rw (here, e)
  window-cons xs capacity h (suc n) x hh s hn e = rw (
    slot-advance capacity h n hh s (omega arith),
    window-cons xs capacity h n x hh s (omega arith) e,
  )

  -- An abstract queue keeps at most `capacity` values, the oldest first.
  abbrev pub fifo_push : ℕ → List T → T → List T
  fifo_push capacity xs x = if ltb (length xs) capacity then xs ++ x ∷ [] else xs

  abbrev pub rest : List T → List T
  rest [] = []
  rest (x ∷ xs) = xs

  abbrev pub oldest : List T → Option T
  oldest [] = none
  oldest (x ∷ xs) = some x

  pub length-contents :
      (capacity : ℕ) {q : Queue T} → IsValid capacity q → length (contents capacity q) ≡ q.len
  length-contents capacity {q} v =
      length-window q.data_array capacity q.head q.len v.nonempty_array v.array_length

  -- `full` and `empty` of a well-formed ring are decided by its number of values alone.
  pub full_iff_len :
      (capacity : ℕ) {q : Queue T}
      → IsValid capacity q
      → (full q ≡ (length (contents capacity q) == capacity))
        × (empty q ≡ (length (contents capacity q) == 0))
        × (size q ≡ length (contents capacity q))
  unfolding full empty size
  full_iff_len capacity {q} v =
      let l = length-contents capacity v in
      let c = wrap_cases capacity q.head q.len v.head_in v.len_le in
      (ground arith, ground arith, ground arith)
