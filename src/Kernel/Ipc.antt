-- ===== src/Kernel/Ipc.antt =====
-- kernel/ipc.hpp: `MsgQueue_t`, messages between tasks with a time limit.
-- The event lists of a queue are sequences of the tasks whose `event` node is in them. `send` and
-- `recv` are two steps each where the task waits: the second one is what it does when it runs again.
pub mod Message
pub mod Wakeup
use mos_core.Prelude.{
  ℕ, ◌+◌, ◌-◌, ◌%◌, Bool, true, false, ◌&&◌, ◌||◌, Option, none, some, ◌==◌, if◌then◌else◌,
}
use mos_core.DataType.Sequence.{has, erase, insert_sorted}
use mos_core.DataType.Queue.{Queue, push, serve, full, empty}
use mos_core.Kernel.State.{TcbList, Kernel, pri_cmp, wkpt_cmp, first, u32}
use mos_core.Kernel.Task.{delay, wake_raw, any_higher, yield_if}

pub data MsgStatus : Type 0 where
  ok time_out : MsgStatus

pub record MsgQueue {ℓ} (T : Type ℓ) : Type ℓ where
  pub senders : TcbList
  pub receivers : TcbList
  pub queue : Queue T

-- `in_event` of a task that waits on no other queue.
abbrev pub in_event {ℓ} : {T : Type ℓ} → MsgQueue T → ℕ → Bool
in_event q t = has t q.senders.nodes || has t q.receivers.nodes

abbrev pub pri_wkpt_cmp : Kernel → ℕ → ℕ → Bool
pri_wkpt_cmp k a b = pri_cmp k a b && wkpt_cmp k a b

abbrev pub event_remove : TcbList → ℕ → TcbList
event_remove src t = record { nodes = erase t src.nodes; len = (src.len + u32 - 1) % u32 }

-- `wait_on` with a time limit that is not 0, up to the call of `delay`.
unfoldable pub wait_on : Kernel → TcbList → (timeout : ℕ) → Option (Kernel × TcbList)
wait_on k dest timeout = elim (delay k timeout) [
  | none ↦ none
  | some k1 ↦ some (
    k1,
    record {
      nodes = insert_sorted (pri_wkpt_cmp k) k.cur_tcb dest.nodes;
      len = (dest.len + 1) % u32;
    },
  )
]

unfoldable pub try_wake_up : Kernel → TcbList → Option (Kernel × TcbList)
try_wake_up k src = if src.len == 0 then some (k, src) else elim (first src.nodes) [
  | none ↦ none
  | some t ↦
      let k1 = wake_raw k t in some (yield_if (any_higher k1 k1.cur_tcb) k1, event_remove src t)
]

-- What a call of `send` or `recv` has come to: it waits, or it has returned.
pub data Outcome {ℓ} (A : Type ℓ) : Type ℓ where
  waiting : Outcome A
  returned : A → Outcome A

module _ {ℓ} {T : Type ℓ} where
  -- `send` behind the test for room.
  unfoldable pub put : ℕ → Kernel → MsgQueue T → T → Option (Kernel × MsgQueue T)
  put capacity k q msg = elim (try_wake_up k q.receivers) [
    | none ↦ none
    | some (k1, receivers) ↦
        some (k1, record q { queue = push capacity q.queue msg; receivers = receivers })
  ]

  unfoldable pub send :
      ℕ → Kernel → MsgQueue T → T → (timeout : ℕ) → Option (Kernel × MsgQueue T × Outcome MsgStatus)
  send capacity k q msg timeout =
      if full q.queue
      then (if timeout == 0
          then some (k, q, returned time_out)
          else elim (wait_on k q.senders timeout) [
            | none ↦ none
            | some (k1, senders) ↦ some (k1, record q { senders = senders }, waiting)
          ])
      else elim (put capacity k q msg) [ none ↦ none | some (k1, q1) ↦ some (k1, q1, returned ok) ]

  -- `check_for`, and the rest of `send` when the task has been woken by a receiver.
  unfoldable pub send_again : ℕ → Kernel → MsgQueue T → T → Option (Kernel × MsgQueue T × MsgStatus)
  send_again capacity k q msg =
      if in_event q k.cur_tcb
      then some (k, record q { senders = event_remove q.senders k.cur_tcb }, time_out)
      else elim (put capacity k q msg) [ none ↦ none | some (k1, q1) ↦ some (k1, q1, ok) ]

  -- `recv` behind the test for a message.
  unfoldable pub take : ℕ → Kernel → MsgQueue T → Option (Kernel × MsgQueue T × Option T)
  take capacity k q =
      let (msg, rest) = serve capacity q.queue in
      elim (try_wake_up k q.senders) [
        | none ↦ none
        | some (k1, senders) ↦ some (k1, record q { queue = rest; senders = senders }, msg)
      ]

  unfoldable pub recv :
      ℕ → Kernel → MsgQueue T → (timeout : ℕ) → Option (Kernel × MsgQueue T × Outcome (Option T))
  recv capacity k q timeout =
      if empty q.queue
      then (if timeout == 0
          then some (k, q, returned none)
          else elim (wait_on k q.receivers timeout) [
            | none ↦ none
            | some (k1, receivers) ↦ some (k1, record q { receivers = receivers }, waiting)
          ])
      else elim (take capacity k q) [
        | none ↦ none
        | some (k1, q1, msg) ↦ some (k1, q1, returned msg)
      ]

  unfoldable pub recv_again : ℕ → Kernel → MsgQueue T → Option (Kernel × MsgQueue T × Option T)
  recv_again capacity k q =
      if in_event q k.cur_tcb
      then some (k, record q { receivers = event_remove q.receivers k.cur_tcb }, none)
      else take capacity k q
