-- ===== src/DataType/Queue/Refine.antt =====
-- The ring as a bounded first-in-first-out sequence.
use mos_core.Prelude.{
  ℕ, suc, ◌+◌, ◌-◌, ◌%◌, ◌^◌, ◌<◌, ◌≡◌, refl, ap, ◌∙◌, sym, ◌≢◌, inl, inr, true, false, [], ◌∷◌,
  ◌++◌, some, arith, set, length-set, get_elem?_in, mod-lt, mod-eq_of_lt, Bool-cases, ◌==◌, ltb,
}
use mos_core.DataType.Queue.{Queue, advance, full, empty, clear, front, push, pop, serve}
use mos_core.DataType.Queue.Window.{
  IsValid, window, contents, slot-advance, tail-step, window-snoc, window-cons, fifo_push, rest,
  oldest, length-contents, full_iff_len,
}

module _ {ℓ} {T : Type ℓ} where
  abbrev stored : ℕ → Queue T → T → Queue T
  stored capacity q x = record q {
    data_array = set q.data_array q.tail x;
    tail = advance capacity q.tail;
    len = (q.len + 1) % 2 ^ 32;
  }

  stored-IsValid :
      (capacity : ℕ) {q : Queue T} (x : T)
      → IsValid capacity q
      → q.len < capacity
      → IsValid capacity (stored capacity q x)
  stored-IsValid capacity {q} x v room = record {
    nonempty_array = v.nonempty_array;
    small = v.small;
    array_length = length-set q.data_array q.tail x ∙ v.array_length;
    head_in = v.head_in;
    len_le = omega arith;
    tail_at =
        rw (v.tail_at, tail-step capacity q.head q.len v.head_in v.small room)
          (ap (λ k. (q.head + k) % capacity) (omega arith));
  }

  contents-stored :
      (capacity : ℕ) {q : Queue T} (x : T)
      → IsValid capacity q
      → q.len < capacity
      → contents capacity (stored capacity q x) ≡ contents capacity q ++ x ∷ []
  contents-stored capacity {q} x v room =
      let longer : (q.len + 1) % 2 ^ 32 ≡ suc q.len = omega arith in
      rw longer (
        window-snoc q.data_array capacity q.head q.len q.tail x v.head_in room v.array_length
          v.tail_at)

  -- `push` keeps the ring well formed, and is the push of the abstract queue: behind the newest
  -- value while there is room, and without any effect on a full queue.
  pub push_refines :
      (capacity : ℕ) {q : Queue T} (x : T)
      → IsValid capacity q
      → IsValid capacity (push capacity q x)
        × (contents capacity (push capacity q x) ≡ fifo_push capacity (contents capacity q) x)
  unfolding push
  push_refines capacity {q} x v = elim (Bool-cases (ltb q.len capacity)) [
    | inl room ↦
        let (f, _, _) = full_iff_len capacity v in
        let l = length-contents capacity v in
        let open_ : full q ≡ false = ground arith in
        rw (open_, l, room)
          (stored-IsValid capacity x v (ground arith), contents-stored capacity x v (ground arith))
    | inr no_room ↦
        let (f, _, _) = full_iff_len capacity v in
        let l = length-contents capacity v in
        let shut : full q ≡ true = ground arith in rw (shut, l, no_room) (v, refl)
  ]

  abbrev popped : ℕ → Queue T → Queue T
  popped capacity q = record q { head = advance capacity q.head; len = q.len - 1 }

  popped-IsValid :
      (capacity : ℕ) {q : Queue T}
      → IsValid capacity q
      → q.len ≢ 0
      → IsValid capacity (popped capacity q)
  popped-IsValid capacity {q} v ne = record {
    nonempty_array = v.nonempty_array;
    small = v.small;
    array_length = v.array_length;
    head_in = mod-lt _ v.nonempty_array;
    len_le = omega arith;
    tail_at =
        v.tail_at
        ∙ ap (λ k. (q.head + k) % capacity) (omega arith)
        ∙ slot-advance capacity q.head (q.len - 1) v.head_in v.small (omega arith);
  }

  contents_ne :
      (capacity : ℕ) {q : Queue T}
      → IsValid capacity q
      → q.len ≢ 0
      → (x : T) × (front q ≡ some x)
        × (contents capacity q ≡ x ∷ contents capacity (popped capacity q))
  unfolding front
  contents_ne capacity {q} v ne =
      let (x, e) = get_elem?_in q.data_array q.head (omega (arith, v.array_length, v.head_in)) in
      let some_left : q.len ≡ suc (q.len - 1) = omega arith in
      (
        x,
        e,
        ap (window q.data_array capacity q.head) some_left
            ∙ window-cons q.data_array capacity q.head (q.len - 1) x v.head_in v.small (omega arith)
                e,
      )

  -- `pop` keeps the ring well formed and drops the oldest value, if there is one.
  pub pop_refines :
      (capacity : ℕ) {q : Queue T}
      → IsValid capacity q
      → IsValid capacity (pop capacity q)
        × (contents capacity (pop capacity q) ≡ rest (contents capacity q))
  unfolding pop empty
  pop_refines capacity {q} v = elim (Bool-cases (q.len == 0)) [
    | inl e ↦ rw e (v, ground arith)
    | inr e ↦ rw e (
      popped-IsValid capacity v (ground arith),
      ap rest (sym (contents_ne capacity v (ground arith)).2),
    )
  ]

  -- `serve` on a ring that is not empty returns the oldest value and leaves the others, in order.
  pub serve_refines :
      (capacity : ℕ) {q : Queue T}
      → IsValid capacity q
      → empty q ≡ false
      → let (out, q') = serve capacity q in
        (out ≡ oldest (contents capacity q))
        × (contents capacity q' ≡ rest (contents capacity q))
        × IsValid capacity q'
  unfolding serve empty
  serve_refines capacity {q} v some_left =
      let (x, e, c) = contents_ne capacity v (ground arith) in
      let (valid, left) = pop_refines capacity v in (e ∙ ap oldest (sym c), left, valid)

  -- `clear` empties a ring and keeps it well formed.
  pub clear_empties :
      (capacity : ℕ) {q : Queue T}
      → IsValid capacity q
      → IsValid capacity (clear q) × (contents capacity (clear q) ≡ [])
  unfolding clear
  clear_empties capacity {q} v = (
    record {
      nonempty_array = v.nonempty_array;
      small = v.small;
      array_length = v.array_length;
      head_in = v.nonempty_array;
      len_le = omega arith;
      tail_at = sym (mod-eq_of_lt v.nonempty_array);
    },
    refl,
  )
