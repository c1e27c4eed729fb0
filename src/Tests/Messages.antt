-- ===== src/Tests/Messages.antt =====
-- kernel/ipc.hpp at the kernel of `Demo`: rings of three messages, and task 3 that waits to receive.
use mos_core.Prelude.{ℕ, ◌≡◌, refl, [], ◌∷◌, Option, some, arith}
use mos_core.DataType.Queue.{Queue}
use mos_core.DataType.Queue.Window.{contents}
use mos_core.DataType.Queue.Window
use mos_core.Kernel.State.{Kernel}
use mos_core.Kernel.Ipc.{MsgQueue, MsgStatus, Outcome, send, send_again, recv}
use mos_core.Kernel.Ipc.Wakeup.{EventsOk}
use mos_core.Kernel.Ipc.Message.{
  MsgQueueOk, Sent, SentAgain, Received, send-Sent, send_again-Sent, recv-Received,
}
use mos_core.Tests.Demo.{demo, demo-IsValid, holds}

abbrev two_messages : Queue ℕ
two_messages = record { len = 2; head = 2; tail = 1; data_array = 20 ∷ 30 ∷ 10 ∷ [] }

two_messages-IsValid : Window.IsValid 3 two_messages
two_messages-IsValid = record {
  nonempty_array = omega arith;
  small = omega arith;
  array_length = refl;
  head_in = omega arith;
  len_le = omega arith;
  tail_at = refl;
}

abbrev msgs : MsgQueue ℕ
msgs = record { senders = holds []; receivers = holds (3 ∷ []); queue = two_messages }

no_events : EventsOk demo (holds [])
no_events = record { counted = refl; small = omega arith; distinct = tt; asleep = λ x i. cc }

one_event : EventsOk demo (holds (3 ∷ []))
one_event = record {
  counted = refl;
  small = omega arith;
  distinct = (refl, tt);
  asleep = λ x i. ground arith;
}

msgs-MsgQueueOk : MsgQueueOk 3 demo msgs
msgs-MsgQueueOk = record {
  ring = two_messages-IsValid;
  senders_ok = no_events;
  receivers_ok = one_event;
}

send-Sent_example :
    (k' : Kernel) × (q' : MsgQueue ℕ) × (out : Outcome MsgStatus) × (send 3 demo msgs 40 7
      ≡ some (k', q', out))
    × Sent 3 demo msgs 40 7 k' q' out
send-Sent_example =
    send-Sent 3 demo-IsValid msgs-MsgQueueOk 40 7 (omega arith) refl (omega arith) refl

send_again-Sent_example :
    (k' : Kernel) × (q' : MsgQueue ℕ) × (status : MsgStatus) × (send_again 3 demo msgs 40
      ≡ some (k', q', status))
    × SentAgain 3 demo msgs 40 k' q' status
send_again-Sent_example = send_again-Sent 3 msgs demo-IsValid two_messages-IsValid one_event 40 tt

recv-Received_example :
    (k' : Kernel) × (q' : MsgQueue ℕ) × (out : Outcome (Option ℕ)) × (recv 3 demo msgs 7
      ≡ some (k', q', out))
    × Received 3 demo msgs 7 k' q' out
recv-Received_example =
    recv-Received 3 demo-IsValid msgs-MsgQueueOk 7 (omega arith) refl (omega arith) refl
