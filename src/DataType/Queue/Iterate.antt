-- ===== src/DataType/Queue/Iterate.antt =====
-- The values that `iter` visits, and `back`.
use mos_core.Prelude.{
  ℕ, zero, suc, ◌+◌, ◌-◌, ◌%◌, ◌^◌, ◌<◌, ◌≡◌, ap, ◌∙◌, sym, inl, inr, true, false, [], ◌∷◌, ◌++◌,
  some, arith, length, get_elem?_in, mod-lt, mod-eq_of_lt, add-zero, Bool-cases, ==_ne, ◌==◌,
}
use mos_core.DataType.Queue.{Queue, advance, empty, back, iter_from, iter}
use mos_core.DataType.Queue.Window.{
  IsValid, wrap_cases, advance_cases, window, contents, slot-advance, window-cons,
}

module _ {ℓ} {T : Type ℓ} where
  iter_from-window :
      (capacity : ℕ) (q : Queue T) (fuel h n : ℕ)
      → 0 < capacity
      → capacity < 2 ^ 32
      → length q.data_array ≡ capacity
      → h < capacity
      → n < fuel
      → n < capacity
      → q.tail ≡ (h + suc n) % capacity
      → iter_from fuel capacity q h ≡ some (window q.data_array capacity h (suc n))
  unfolding iter_from
  iter_from-window capacity q zero h n p s l hh lt le e = absurd (omega arith)
  iter_from-window capacity q (suc fuel) h zero p s l hh lt le e =
      let (x, found) = get_elem?_in q.data_array h (omega arith) in
      let one : (h + 0) % capacity ≡ h = rw add-zero (mod-eq_of_lt hh) in
      let last : (advance capacity h == q.tail) ≡ true =
        ground (arith, advance_cases capacity h hh s, wrap_cases capacity h 1 hh (omega arith)) in
      rw (one, found, iter_from) (rw last)
  iter_from-window capacity q (suc fuel) h (suc n) p s l hh lt le e =
      let (x, found) = get_elem?_in q.data_array h (omega arith) in
      let next = advance capacity h in
      let further : q.tail ≡ (next + suc n) % capacity =
        e ∙ slot-advance capacity h (suc n) hh s le in
      let more : (next == q.tail) ≡ false = ==_ne next q.tail (
        ground (
          arith,
          advance_cases capacity h hh s,
          wrap_cases capacity next (suc n) (mod-lt _ p) (omega arith),
        )) in
      rw (window-cons q.data_array capacity h (suc n) x hh s le found, found, iter_from)
        (rw (
          more,
          iter_from-window capacity q fuel next n p s l (mod-lt _ p) (omega arith) (omega arith)
              further,
        ))

  -- `iter` visits exactly the values of the queue, from the oldest to the newest: it reads inside
  -- the array and its loop ends.
  pub iter-contents :
      (capacity : ℕ) {q : Queue T}
      → IsValid capacity q
      → iter capacity q ≡ some (contents capacity q)
  unfolding iter empty
  iter-contents capacity {q} v = elim (Bool-cases (q.len == 0)) [
    | inl e ↦ rw e (ground arith)
    | inr e ↦
        let some_left : q.len ≡ suc (q.len - 1) = ground arith in
        rw e (
          iter_from-window capacity q capacity q.head (q.len - 1) v.nonempty_array v.small
            v.array_length v.head_in (omega arith) (omega arith)
            (v.tail_at ∙ ap (λ k. (q.head + k) % capacity) some_left)
          ∙ ap (λ k. some (window q.data_array capacity q.head k)) (sym some_left))
  ]

  -- `back` is the newest value while the oldest one stands at index 0.
  pub back_newest :
      (capacity : ℕ) {q : Queue T} (n : ℕ)
      → IsValid capacity q
      → q.head ≡ 0
      → q.len ≡ suc n
      → (x : T) × (back q ≡ some x)
        × (contents capacity q ≡ window q.data_array capacity q.head n ++ x ∷ [])
  unfolding back
  back_newest capacity {q} n v first l =
      let (x, found) = get_elem?_in q.data_array n (omega (arith, v.array_length, v.len_le)) in
      let place : (q.len + 2 ^ 32 - 1) % 2 ^ 32 ≡ n = omega (arith, v.len_le, v.small) in
      let slot : (q.head + n) % capacity ≡ n =
        ap (λ k. k % capacity) (omega arith)
        ∙ mod-eq_of_lt {n = n} {m = capacity} (omega (arith, v.len_le)) in
      (x, rw place found, rw (l, slot, found))
