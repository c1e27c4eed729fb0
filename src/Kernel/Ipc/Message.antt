-- ===== src/Kernel/Ipc/Message.antt =====
-- `send` and `recv`: the messages come out in the order in which they went in.
use mos_core.Prelude.{
  ℕ, ◌+◌, ◌^◌, ◌<◌, ◌≡◌, refl, ◌≢◌, true, false, [], ◌∷◌, ◌++◌, Option, none, some, arith, ◌==◌,
  if◌then◌else◌, ltb, length, ◌∙◌, Bool-cases, inl, inr,
}
use mos_core.DataType.Sequence.{has, Distinct, has-erase_self}
use mos_core.DataType.Queue.{full, empty, push, serve}
use mos_core.DataType.Queue.Window.{
  contents, fifo_push, rest, oldest, full_iff_len, length-contents,
}
use mos_core.DataType.Queue.Refine.{push_refines, serve_refines}
use mos_core.DataType.Queue.Window
use mos_core.Kernel.State.{Kernel, status_of}
use mos_core.Kernel.State.Invariant.{is_runnable, IsValid}
use mos_core.Kernel.Ipc.{
  MsgQueue, MsgStatus, ok, time_out, Outcome, waiting, returned, in_event, event_remove, put, send,
  send_again, take, recv,
}
use mos_core.Kernel.Ipc.Wakeup.{
  EventsOk, WokenFrom, WaitsIn, try_wake_up-WokenFrom, wait_on-WaitsIn,
}

-- The ring and both event lists of a queue.
pub record MsgQueueOk {ℓ} {T : Type ℓ} (capacity : ℕ) (k : Kernel) (q : MsgQueue T) : Type ℓ where
  pub ring : Window.IsValid capacity q.queue
  pub senders_ok : EventsOk k q.senders
  pub receivers_ok : EventsOk k q.receivers

module _ {ℓ} {T : Type ℓ} (capacity : ℕ) (k : Kernel) (q : MsgQueue T) where
  -- The message is stored behind the others if there is room, and a receiver is woken.
  pub record Stored (msg : T) (k' : Kernel) (q' : MsgQueue T) : Type ℓ where
    pub ring : Window.IsValid capacity q'.queue
    pub messages : contents capacity q'.queue ≡ fifo_push capacity (contents capacity q.queue) msg
    pub receiver : WokenFrom k q.receivers k' q'.receivers
    pub senders : q'.senders ≡ q.senders

  -- What a call of `send` comes to, by the room in the ring and the time limit.
  abbrev pub Sent : T → ℕ → Kernel → MsgQueue T → Outcome MsgStatus → Type ℓ
  Sent msg timeout k' q' out =
      if full q.queue
      then (if timeout == 0
          then (k' ≡ k) × (q' ≡ q) × (out ≡ returned time_out)
          else WaitsIn k k' q.senders q'.senders timeout
            × (q'.queue ≡ q.queue)
            × (q'.receivers ≡ q.receivers)
            × (out ≡ waiting))
      else Stored msg k' q'
        × (contents capacity q'.queue ≡ contents capacity q.queue ++ msg ∷ [])
        × (out ≡ returned ok)

  -- What a sender does that has been woken, or whose time is over.
  abbrev pub SentAgain : T → Kernel → MsgQueue T → MsgStatus → Type ℓ
  SentAgain msg k' q' status =
      if in_event q k.cur_tcb
      then (k' ≡ k)
        × (q'.queue ≡ q.queue)
        × (has k.cur_tcb q'.senders.nodes ≡ false)
        × (status ≡ time_out)
      else Stored msg k' q' × (status ≡ ok)

  -- What a call of `recv` comes to.
  pub record Taken (k' : Kernel) (q' : MsgQueue T) (msg : Option T) : Type ℓ where
    pub ring : Window.IsValid capacity q'.queue
    pub first_message : msg ≡ oldest (contents capacity q.queue)
    pub messages : contents capacity q'.queue ≡ rest (contents capacity q.queue)
    pub sender : WokenFrom k q.senders k' q'.senders
    pub receivers : q'.receivers ≡ q.receivers

  abbrev pub Received : ℕ → Kernel → MsgQueue T → Outcome (Option T) → Type ℓ
  Received timeout k' q' out =
      if empty q.queue
      then (if timeout == 0
          then (k' ≡ k) × (q' ≡ q) × (out ≡ returned none)
          else WaitsIn k k' q.receivers q'.receivers timeout
            × (q'.queue ≡ q.queue)
            × (q'.senders ≡ q.senders)
            × (out ≡ waiting))
      else (msg : Option T) × Taken k' q' msg × (out ≡ returned msg)

module _ {ℓ} {T : Type ℓ} (capacity : ℕ) {k : Kernel} (q : MsgQueue T) (v : IsValid k)
    (ring_ok : Window.IsValid capacity q.queue) (receivers_ok : EventsOk k q.receivers) where
  put-Stored :
      (msg : T)
      → (k' : Kernel) × (q' : MsgQueue T) × (put capacity k q msg ≡ some (k', q'))
        × Stored capacity k q msg k' q'
  unfolding put
  put-Stored msg =
      let (k1, receivers, e, w) = try_wake_up-WokenFrom q.receivers v receivers_ok in
      let (ring, messages) = push_refines capacity msg ring_ok in
      (
        k1,
        record q { queue = push capacity q.queue msg; receivers = receivers },
        rw (e, put) refl,
        record { ring = ring; messages = messages; receiver = w; senders = refl },
      )

  -- A sender that runs again, with its time over or woken. While it is still among the senders the
  -- result is TimeOut, it leaves the list and the messages stay as they are. Otherwise the result is
  -- Ok, whether the message has found room in the ring or not.
  pub send_again-Sent :
      (msg : T)
      → Distinct q.senders.nodes
      → (k' : Kernel) × (q' : MsgQueue T) × (status : MsgStatus) × (send_again capacity k q msg
          ≡ some (k', q', status))
        × SentAgain capacity k q msg k' q' status
  unfolding send_again
  send_again-Sent msg alone = elim (Bool-cases (in_event q k.cur_tcb)) [
    | inl i ↦ (
      k,
      record q { senders = event_remove q.senders k.cur_tcb },
      time_out,
      rw i refl,
      rw i (refl, refl, has-erase_self k.cur_tcb q.senders.nodes alone, refl),
    )
    | inr i ↦ let (k1, q1, e, s) = put-Stored msg in (k1, q1, ok, rw (i, e) refl, rw i (s, refl))
  ]

module _ {ℓ} {T : Type ℓ} (capacity : ℕ) {k : Kernel} {q : MsgQueue T} (v : IsValid k)
    (o : MsgQueueOk capacity k q) where
  -- `send` of a running task with interrupts enabled. With room in the ring the message comes behind
  -- those that are there and the first receiver that waits is woken. With a full ring and no time
  -- limit nothing changes and the result is TimeOut; with a time limit the task waits among the
  -- senders and the sleepers, and the messages stay as they are.
  pub send-Sent :
      (msg : T) (timeout : ℕ)
      → length q.senders.nodes + 1 < 2 ^ 32
      → k.masked ≡ false
      → k.cur_tcb ≢ 0
      → is_runnable (status_of k k.cur_tcb) ≡ true
      → (k' : Kernel) × (q' : MsgQueue T) × (out : Outcome MsgStatus) × (send capacity k q msg
            timeout
          ≡ some (k', q', out))
        × Sent capacity k q msg timeout k' q' out
  unfolding send
  send-Sent msg timeout room on nz r = elim (Bool-cases (full q.queue)) [
    | inl f ↦ elim (Bool-cases (timeout == 0)) [
      | inl z ↦ (k, q, returned time_out, rw (f, z) refl, rw (f, z) (refl, refl, refl))
      | inr z ↦
          let (k1, senders, e, w) = wait_on-WaitsIn q.senders timeout v o.senders_ok room on nz r in
          (
            k1,
            record q { senders = senders },
            waiting,
            rw (f, z, e) refl,
            rw (f, z) (w, refl, refl, refl),
          )
    ]
    | inr f ↦
        let (k1, q1, e, s) = put-Stored capacity q v o.ring o.receivers_ok msg in
        let (counted, _, _) = full_iff_len capacity o.ring in
        let fits : ltb (length (contents capacity q.queue)) capacity ≡ true =
          ground (arith, length-contents capacity o.ring, o.ring.len_le, counted, f) in
        (k1, q1, returned ok, rw (f, e) refl, rw f (s, s.messages ∙ rw fits refl, refl))
  ]

  take-Taken :
      empty q.queue ≡ false
      → (k' : Kernel) × (q' : MsgQueue T) × (msg : Option T) × (take capacity k q
          ≡ some (k', q', msg))
        × Taken capacity k q k' q' msg
  unfolding take
  take-Taken some_left =
      let (k1, senders, e, w) = try_wake_up-WokenFrom q.senders v o.senders_ok in
      let (first_message, messages, ring) = serve_refines capacity o.ring some_left in
      (
        k1,
        record q { queue = (serve capacity q.queue).1; senders = senders },
        (serve capacity q.queue).0,
        rw (e, take) refl,
        record {
          ring = ring;
          first_message = first_message;
          messages = messages;
          sender = w;
          receivers = refl;
        },
      )

  -- `recv` of a running task with interrupts enabled. With a message in the ring the oldest one is the
  -- result, the others stay in order and the first sender that waits is woken. With an empty ring and
  -- no time limit nothing changes and the result is TimeOut; with a time limit the task waits among
  -- the receivers and the sleepers.
  pub recv-Received :
      (timeout : ℕ)
      → length q.receivers.nodes + 1 < 2 ^ 32
      → k.masked ≡ false
      → k.cur_tcb ≢ 0
      → is_runnable (status_of k k.cur_tcb) ≡ true
      → (k' : Kernel) × (q' : MsgQueue T) × (out : Outcome (Option T)) × (recv capacity k q timeout
          ≡ some (k', q', out))
        × Received capacity k q timeout k' q' out
  unfolding recv
  recv-Received timeout room on nz r = elim (Bool-cases (empty q.queue)) [
    | inl f ↦ elim (Bool-cases (timeout == 0)) [
      | inl z ↦ (k, q, returned none, rw (f, z) refl, rw (f, z) (refl, refl, refl))
      | inr z ↦
          let (k1, receivers, e, w) =
            wait_on-WaitsIn q.receivers timeout v o.receivers_ok room on nz r in
          (
            k1,
            record q { receivers = receivers },
            waiting,
            rw (f, z, e) refl,
            rw (f, z) (w, refl, refl, refl),
          )
    ]
    | inr f ↦
        let (k1, q1, msg, e, t) = take-Taken f in
        (k1, q1, returned msg, rw (f, e) refl, rw f (msg, t, refl))
  ]
