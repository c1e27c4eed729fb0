-- ===== src/Tests/Queues.antt =====
-- kernel/data_type/queue.hpp: a ring of three slots that has wrapped.
use mos_core.Prelude.{ℕ, ◌≡◌, refl, [], ◌∷◌, ◌++◌, some, arith}
use mos_core.DataType.Queue.{Queue, push, serve, clear, empty, back}
use mos_core.DataType.Queue.Window.{IsValid, contents, window}
use mos_core.DataType.Queue.Refine.{push_refines, serve_refines, clear_empties}
use mos_core.DataType.Queue.Iterate.{back_newest}

-- The oldest value stands in the last slot, the newest in the first one.
abbrev ring : Queue ℕ
ring = record { len = 2; head = 2; tail = 1; data_array = 20 ∷ 30 ∷ 10 ∷ [] }

ring-IsValid : IsValid 3 ring
ring-IsValid = record {
  nonempty_array = omega arith;
  small = omega arith;
  array_length = refl;
  head_in = omega arith;
  len_le = omega arith;
  tail_at = refl;
}

push_refines_example :
    IsValid 3 (push 3 ring 40) × (contents 3 (push 3 ring 40) ≡ 10 ∷ 20 ∷ 40 ∷ [])
push_refines_example = push_refines 3 40 ring-IsValid

serve_refines_example :
    let (out, q') = serve 3 ring in (out ≡ some 10) × (contents 3 q' ≡ 20 ∷ []) × IsValid 3 q'
unfolding empty
serve_refines_example = serve_refines 3 ring-IsValid refl

clear_empties_example : IsValid 3 (clear ring) × (contents 3 (clear ring) ≡ [])
clear_empties_example = clear_empties 3 ring-IsValid

-- A ring that has not wrapped.
abbrev straight : Queue ℕ
straight = record { len = 2; head = 0; tail = 2; data_array = 10 ∷ 20 ∷ 30 ∷ [] }

straight-IsValid : IsValid 3 straight
straight-IsValid = record {
  nonempty_array = omega arith;
  small = omega arith;
  array_length = refl;
  head_in = omega arith;
  len_le = omega arith;
  tail_at = refl;
}

back_newest_example :
    (x : ℕ) × (back straight ≡ some x)
    × (contents 3 straight ≡ window (10 ∷ 20 ∷ 30 ∷ []) 3 0 1 ++ x ∷ [])
back_newest_example = back_newest 3 1 straight-IsValid refl refl

-- On the ring that has wrapped, `back` reads a slot that holds the oldest value or none.
wrapped_back : back ring ≡ some 30
unfolding back
wrapped_back = refl
