-- ===== src/DataType/Queue.antt =====
-- kernel/data_type/queue.hpp: `QueueImpl_t` and `Queue_t<T, N>`, a ring over an array of N values.
-- The base class and its template are one record: the base's fields, and the array. `uint32_t`
-- sums wrap at 2^32.
pub mod Window
pub mod Refine
pub mod Iterate
use mos_core.Prelude.{
  ℕ, zero, suc, ◌+◌, ◌-◌, ◌%◌, ◌^◌, Bool, true, false, not, ◌&&◌, List, [], ◌∷◌, Option, none, some,
  ◌==◌, if◌then◌else◌, get_elem?, set,
}

pub record Queue {ℓ} (T : Type ℓ) : Type ℓ where
  pub len : ℕ
  pub head : ℕ
  pub tail : ℕ
  pub data_array : List T

-- `(i + 1) % N` on `uint32_t`
abbrev pub advance : ℕ → ℕ → ℕ
advance capacity i = (i + 1) % 2 ^ 32 % capacity

module _ {ℓ} {T : Type ℓ} where
  pub size : Queue T → ℕ
  size q = q.len

  pub full : Queue T → Bool
  full q = not (q.len == 0) && (q.head == q.tail)

  unfoldable pub empty : Queue T → Bool
  empty q = q.len == 0

  pub clear : Queue T → Queue T
  clear q = record q { head = 0; tail = 0; len = 0 }

  -- The pointer arithmetic of `front` and `back` as an index; `none` reads outside the array.
  pub front : Queue T → Option T
  front q = get_elem? q.data_array q.head

  unfoldable pub back : Queue T → Option T
  back q = get_elem? q.data_array ((q.len + 2 ^ 32 - 1) % 2 ^ 32)

  pub push : ℕ → Queue T → T → Queue T
  unfolding full
  push capacity q val =
      if not (full q)
      then record q {
        data_array = set q.data_array q.tail val;
        tail = advance capacity q.tail;
        len = (q.len + 1) % 2 ^ 32;
      }
      else q

  pub pop : ℕ → Queue T → Queue T
  unfolding empty
  pop capacity q =
      if not (empty q) then record q { head = advance capacity q.head; len = q.len - 1 } else q

  pub serve : ℕ → Queue T → Option T × Queue T
  unfolding front pop
  serve capacity q = (front q, pop capacity q)

  -- The values that the `do … while` loop of `iter` hands to its function; `none` reads outside
  -- the array or runs out of fuel.
  iter_from : ℕ → ℕ → Queue T → ℕ → Option (List T)
  iter_from zero capacity q i = none
  iter_from (suc fuel) capacity q i =
      let rest = iter_from fuel capacity q (advance capacity i) in
      elim (get_elem? q.data_array i) [
        | none ↦ none
        | some x ↦
            if advance capacity i == q.tail
            then some (x ∷ [])
            else elim rest [ none ↦ none | some xs ↦ some (x ∷ xs) ]
      ]

  pub iter : ℕ → Queue T → Option (List T)
  unfolding iter_from empty
  iter capacity q = if empty q then some [] else iter_from capacity capacity q q.head
