-- ===== src/Tests/Coroutines.antt =====
-- kernel/async.hpp: a coroutine that drops one, and awaits one that waits for a callback.
use mos_core.Prelude.{◌+◌, ◌*◌, refl, inr, [], ◌∷◌, none, arith}
use mos_core.Async.Coroutine.{Body, co_return, co_await, co_callback, drop_future, Machine, create}
use mos_core.Async.Coroutine.Steps.{Returned}
use mos_core.Async.Coroutine.Chain.{Runs, returned, awaited, called_back, dropped, Gives-Returned}

abbrev child : Body
child = co_callback (λ u. co_return (u + 1))

abbrev parent : Body
parent = drop_future (co_return 3) (co_await child (λ u. co_return (u * 2)))

abbrev empty : Machine
empty = record { frames = λ h. none; fresh = 1; cur = 0; callers = []; pending = [] }

-- The executor resumes the parent, whose handle is 1.
abbrev started : Machine
unfolding create
started = record (create empty parent) { cur = 1 }

Gives-Returned_example : (m' : Machine) × Runs m' started (5 ∷ []) × Returned started m' 1 0 12
unfolding create
Gives-Returned_example =
    Gives-Returned {m = started}
      (dropped (returned 3) (awaited 6 (called_back 5 (returned 6)) (returned 12) refl))
      (record {
        frame = refl;
        exists = λ e. absurd (omega arith);
        known = omega arith;
        unused = λ x le. ground arith;
      })
      (inr refl)
