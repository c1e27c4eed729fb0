-- ===== src/Async/Coroutine.antt =====
-- kernel/async.hpp: `Promise_t`, `Future_t` and `CallbackAwaiter`, the coroutines of the executor.
-- The frames that the compiler makes are a map from handles, with the handle 0 for `nullptr`. What a
-- coroutine does between its suspension points is its `Body`. `operator new` returns a new handle.
pub mod Steps
pub mod Resumed
pub mod Chain
use mos_core.Prelude.{
  ℕ, ◌+◌, ◌≡◌, Bool, true, false, not, List, [], ◌∷◌, ◌++◌, Option, none, some, ◌==◌, if◌then◌else◌,
}
use mos_core.DataType.Sequence.{has, erase}
use mos_core.Kernel.State.{update}

-- The rest of a coroutine: `co_return` of a value, `co_await` of another coroutine's future, the same
-- of a `CallbackAwaiter`, or a future that is dropped at once.
pub data Body : Type 0 where
  co_return : ℕ → Body
  co_await : (child : Body) → (ℕ → Body) → Body
  co_callback : (ℕ → Body) → Body
  drop_future : (child rest : Body) → Body

-- Where a frame is suspended: in front of some code, in the `co_await` of a future with a handle, in
-- that of a callback, or at the end.
pub data Point : Type 0 where
  before : Body → Point
  in_await : (handle : ℕ) → (ℕ → Body) → Point
  in_callback : (ℕ → Body) → Point
  final : Point

abbrev pub done : Point → Bool
done final = true
done _ = false

-- `next` and `value` are the members of the promise.
pub record Frame : Type 0 where
  pub point : Point
  pub next : ℕ
  pub value : ℕ

-- `cur` is the handle that is being resumed, and `callers` are those whose `resume()` has not returned.
-- `pending` has the handles that wait for their callback.
pub record Machine : Type 0 where
  pub frames : ℕ → Option Frame
  pub fresh : ℕ
  pub cur : ℕ
  pub callers : List ℕ
  pub pending : List ℕ

-- `resume()` returns to its caller, 0 for the executor.
abbrev pub caller : List ℕ → ℕ
caller [] = 0
caller (h ∷ hs) = h

abbrev pub other_callers : List ℕ → List ℕ
other_callers [] = []
other_callers (h ∷ hs) = hs

abbrev pub leave : Machine → Machine
leave m = record m { cur = caller m.callers; callers = other_callers m.callers }

-- `return_value` and `get_value` of the promise.
abbrev pub return_value : Frame → ℕ → Frame
return_value f v = record f { value = v }

abbrev pub get_value : Frame → ℕ
get_value f = f.value

-- `get_return_object` and `initial_suspend`: the handle is `m.fresh`.
unfoldable pub create : Machine → Body → Machine
create m body = record m {
  frames = update m.frames m.fresh (some (record { point = before body; next = 0; value = 0 }));
  fresh = m.fresh + 1;
}

-- `await_suspend` of a future: the awaiting coroutine is the next one of the future's, which is resumed.
unfoldable pub await_suspend : Machine → (handle next : ℕ) → Option Machine
await_suspend m handle next = elim (m.frames handle) [
  | none ↦ none
  | some f ↦
      some (record m {
        frames = update m.frames handle (some (record f { next = next }));
        cur = handle;
      })
]

-- `final_suspend`: without a next coroutine `await_ready` holds and the frame is freed; otherwise the
-- coroutine stays suspended and the next one is resumed.
unfoldable pub final_suspend : Machine → Frame → Machine
final_suspend m f =
    if f.next == 0 then leave (record m { frames = update m.frames m.cur none }) else record m {
      frames = update m.frames m.cur (some (record f { point = final }));
      cur = f.next;
    }

-- The destructor of a future in the current coroutine: the frame of a coroutine that is done is
-- freed, another one is resumed.
unfoldable pub drop : Machine → (handle : ℕ) → Option Machine
drop m handle = elim (m.frames handle) [
  | none ↦ none
  | some f ↦
      if done f.point
      then some (record m { frames = update m.frames handle none })
      else some (record m { cur = handle; callers = m.cur ∷ m.callers })
]

-- The current coroutine goes on to its next suspension point. `none` is the use of a handle whose frame
-- has been freed, or the resumption of a coroutine that is done or waits for its callback.
unfoldable pub go : Machine → Frame → Point → Option Machine
unfolding create await_suspend final_suspend drop
go m f (before (co_return v)) = some (final_suspend m (return_value f v))
go m f (before (co_await child k)) =
    let m1 = create m child in
    await_suspend
      (record m1 {
        frames = update m1.frames m.cur (some (record f { point = in_await m.fresh k }));
      })
      m.fresh m.cur
go m f (before (co_callback k)) = some (
    leave (record m {
      frames = update m.frames m.cur (some (record f { point = in_callback k }));
      pending = m.cur ∷ m.pending;
    }))
go m f (before (drop_future child rest)) =
    let m1 = create m child in
    drop (record m1 { frames = update m1.frames m.cur (some (record f { point = before rest })) })
      m.fresh
go m f (in_await handle k) = elim (m.frames handle) [
  | none ↦ none
  | some g ↦
      drop
        (record m {
          frames = update m.frames m.cur (some (record f { point = before (k (get_value g)) }));
        })
        handle
]
go m f (in_callback k) = none
go m f final = none

unfoldable pub step : Machine → Option Machine
unfolding go
step m = elim (m.frames m.cur) [ none ↦ none | some f ↦ go m f f.point ]

-- The callback of a `CallbackAwaiter` with its result, called by the executor.
unfoldable pub deliver : Machine → (handle result : ℕ) → Option Machine
deliver m handle result = elim (m.frames handle) [
  | none ↦ none
  | some f ↦ elim f.point [
    | in_callback k ↦ some (record m {
      frames = update m.frames handle (some (record f { point = before (k result) }));
      cur = handle;
      callers = [];
      pending = erase handle m.pending;
    })
    | _ ↦ none
  ]
]

-- `detach`: like the destructor, but the frame of a coroutine that is done is left.
unfoldable pub detach : Machine → (handle : ℕ) → Option Machine
detach m handle = elim (m.frames handle) [
  | none ↦ none
  | some f ↦
      if done f.point then some m else some (record m { cur = handle; callers = m.cur ∷ m.callers })
]

-- The move assignment to a future with the handle `mine`, of another future with the handle `theirs`:
-- the new handles of both.
unfoldable pub move_assign : Machine → (mine theirs : ℕ) → Machine × ℕ × ℕ
move_assign m mine theirs =
    (if mine == 0 then m else record m { frames = update m.frames mine none }, theirs, 0)
