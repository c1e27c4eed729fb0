-- ===== src/Async.antt =====
-- kernel/async.hpp: the executor of posted functions, with two buffers and the functions that sleep.
-- The vector and the priority queue are the ETL's. The vector is a list; the priority queue is a
-- parameter, `SleeperQueue`. What a posted function does is a parameter as well.
pub mod Coroutine
pub mod FixedFn
pub mod Poll
pub mod Sleepers
use mos_core.Prelude.{
  ℕ, zero, suc, ◌+◌, ◌-◌, ◌%◌, ◌^◌, ◌≡◌, ◌<◌, Bool, true, false, not, List, [], ◌∷◌, ◌++◌, Option,
  none, some, if◌then◌else◌, ltb, leb, length,
}

-- `ASYNC_TASK_MAX`
abbrev pub async_task_max : ℕ
async_task_max = 256

pub record Sleeper (A : Type 0) : Type 0 where
  pub wake_tick : ℕ
  pub task : A

-- The operations of `etl::priority_queue` that the executor calls.
pub record SleeperQueue (A : Type 0) : Type 1 where
  pub Q : Type 0
  pub size : Q → ℕ
  pub top : Q → Option (Sleeper A)
  pub push : Sleeper A → Q → Q
  pub pop : Q → Q

-- `task_buffers[0]` and `[1]` are `buffers false` and `buffers true`.
pub record Executor (A Q : Type 0) : Type 0 where
  pub buffers : Bool → List A
  pub write_idx : Bool
  pub sleepers : Q

abbrev pub same_idx : Bool → Bool → Bool
same_idx true b = b
same_idx false b = not b

module _ {A Q : Type 0} where
  abbrev pub set_buffer : Executor A Q → Bool → List A → Executor A Q
  set_buffer e i xs = record e { buffers = λ j. if same_idx i j then xs else e.buffers j }

  -- `none` is the failed assertion of a full buffer.
  unfoldable pub post : Executor A Q → A → Option (Executor A Q)
  post e fn =
      if ltb (length (e.buffers e.write_idx)) async_task_max
      then some (set_buffer e e.write_idx (e.buffers e.write_idx ++ fn ∷ []))
      else none

module _ {A : Type 0} (queue : SleeperQueue A) where
  -- `none` is the failed assertion of a full queue.
  unfoldable pub add_sleeper :
      (os_ticks : ℕ) → Executor A queue.Q → (ms : ℕ) → A → Option (Executor A queue.Q)
  add_sleeper os_ticks e ms fn =
      if ltb (queue.size e.sleepers) async_task_max
      then some (record e {
        sleepers =
            queue.push (record { wake_tick = (os_ticks + ms) % 2 ^ 32; task = fn }) e.sleepers;
      })
      else none

  -- `static_cast<int32_t>(now - wake_tick) >= 0`
  abbrev pub is_due : (now wake_tick : ℕ) → Bool
  is_due now wake_tick = ltb ((now + 2 ^ 32 - wake_tick) % 2 ^ 32) (2 ^ 31)

  -- A task that is due goes into the buffer if there is room, and leaves the queue.
  abbrev pub wake_one : Executor A queue.Q → A → Executor A queue.Q
  wake_one e fn =
      let moved =
        if ltb (length (e.buffers e.write_idx)) async_task_max
        then set_buffer e e.write_idx (e.buffers e.write_idx ++ fn ∷ [])
        else e in
      record moved { sleepers = queue.pop e.sleepers }

  -- The loop of `clean_sleepers`; `none` when the fuel runs out.
  unfoldable pub clean_sleepers : ℕ → (now : ℕ) → Executor A queue.Q → Option (Executor A queue.Q)
  clean_sleepers zero now e = none
  clean_sleepers (suc fuel) now e = elim (queue.top e.sleepers) [
    | none ↦ some e
    | some node ↦
        let more = clean_sleepers fuel now (wake_one e node.task) in
        if is_due now node.wake_tick then more else some e
  ]

  -- The loop of `poll` over the functions that were posted; `call` is what one of them does.
  unfoldable pub run_tasks :
      (A → Executor A queue.Q → Option (Executor A queue.Q))
      → List A
      → Executor A queue.Q
      → Option (Executor A queue.Q)
  run_tasks call [] e = some e
  run_tasks call (fn ∷ fns) e = elim (call fn e) [ none ↦ none | some e' ↦ run_tasks call fns e' ]

  -- `poll` behind `clean_sleepers`: whether there was something to do.
  unfoldable pub switch_and_run :
      (A → Executor A queue.Q → Option (Executor A queue.Q))
      → Executor A queue.Q
      → Option (Bool × Executor A queue.Q)
  switch_and_run call e = elim (e.buffers e.write_idx) [
    | [] ↦ some (false, e)
    | fn ∷ fns ↦ elim (run_tasks call (fn ∷ fns) (record e { write_idx = not e.write_idx })) [
      | none ↦ none
      | some e' ↦ some (true, set_buffer e' e.write_idx [])
    ]
  ]

  unfoldable pub poll :
      ℕ
      → (now : ℕ) → (A → Executor A queue.Q → Option (Executor A queue.Q))
      → Executor A queue.Q
      → Option (Bool × Executor A queue.Q)
  poll fuel now call e = elim (clean_sleepers fuel now e) [
    | none ↦ none
    | some e' ↦ switch_and_run call e'
  ]
