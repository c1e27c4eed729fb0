-- ===== src/Async/Sleepers.antt =====
-- `clean_sleepers`: the loop ends, and nobody whose time has come is left at the top of the queue.
use mos_core.Prelude.{
  ℕ, zero, suc, ◌<◌, ◌≡◌, refl, ◌≢◌, Bool, true, false, not, List, [], ◌∷◌, ◌++◌, none, some, arith,
  ◌-◌, take, take-nil, if◌then◌else◌, length-append, ltb, length, Bool-cases, Option-cases, inl,
  inr, ap, ◌∙◌, sym, append-nil, append_assoc, subst,
}
use mos_core.Async.{
  Sleeper, SleeperQueue, Executor, async_task_max, set_buffer, is_due, wake_one, clean_sleepers,
}

-- What the executor relies on: a queue with a top is one smaller without it.
pub record QueueOk {A : Type 0} (queue : SleeperQueue A) : Type 0 where
  pub size-pop :
      (q : queue.Q) (s : Sleeper A)
      → queue.top q ≡ some s
      → suc (queue.size (queue.pop q)) ≡ queue.size q

module _ {A Q : Type 0} (e : Executor A Q) where
  pub set_buffer_self : (i : Bool) (xs : List A) → (set_buffer e i xs).buffers i ≡ xs
  set_buffer_self true xs = refl
  set_buffer_self false xs = refl

  pub set_buffer_other :
      (i : Bool) (xs : List A) → (set_buffer e i xs).buffers (not i) ≡ e.buffers (not i)
  set_buffer_other true xs = refl
  set_buffer_other false xs = refl

module _ {A : Type 0} (queue : SleeperQueue A) where
  -- The sleepers that leave the queue at its top, one after the other.
  abbrev pub Drains : queue.Q → List (Sleeper A) → queue.Q → Type 0
  Drains q [] q' = q ≡ q'
  Drains q (s ∷ ss) q' = (queue.top q ≡ some s) × Drains (queue.pop q) ss q'

  abbrev pub AllDue : ℕ → List (Sleeper A) → Type 0
  AllDue now [] = Unit {0}
  AllDue now (s ∷ ss) = (is_due queue now s.wake_tick ≡ true) × AllDue now ss

  abbrev pub tasks : List (Sleeper A) → List A
  tasks [] = []
  tasks (s ∷ ss) = s.task ∷ tasks ss

  -- A buffer with as many of the functions behind it as there is room for.
  abbrev pub filled : List A → List A → List A
  filled buffer fns = buffer ++ take (async_task_max - length buffer) fns

  pub record Cleaned (now : ℕ) (e e' : Executor A queue.Q) : Type 0 where
    pub asleep :
        (s : Sleeper A) → queue.top e'.sleepers ≡ some s → is_due queue now s.wake_tick ≡ false
    pub same_index : e'.write_idx ≡ e.write_idx
    pub read_buffer : e'.buffers (not e.write_idx) ≡ e.buffers (not e.write_idx)
    pub woken : List (Sleeper A)
    pub drained : Drains e.sleepers woken e'.sleepers
    pub all_due : AllDue now woken
    pub written : e'.buffers e.write_idx ≡ filled (e.buffers e.write_idx) (tasks woken)

  -- The buffer behind one task that has been woken.
  abbrev added : List A → A → List A
  added buffer fn = if ltb (length buffer) async_task_max then buffer ++ fn ∷ [] else buffer

  filled-added :
      (buffer : List A) (fn : A) (fns : List A)
      → filled (added buffer fn) fns ≡ filled buffer (fn ∷ fns)
  filled-added buffer fn fns = elim (Bool-cases (ltb (length buffer) async_task_max)) [
    | inl room ↦
        let one_more = length-append buffer (fn ∷ []) in
        let left : async_task_max - length buffer
            ≡ suc (async_task_max - length (buffer ++ fn ∷ [])) =
          ground (arith, one_more) in
        ap (λ b. filled (if b then buffer ++ fn ∷ [] else buffer) fns) room
        ∙ append_assoc buffer (fn ∷ []) (take (async_task_max - length (buffer ++ fn ∷ [])) fns)
        ∙ sym (ap (λ n. buffer ++ take n (fn ∷ fns)) left)
    | inr shut ↦
        let none_left : async_task_max - length buffer ≡ 0 = ground arith in
        ap (λ b. filled (if b then buffer ++ fn ∷ [] else buffer) fns) shut
        ∙ ap (λ n. buffer ++ take n fns) none_left
        ∙ sym (ap (λ n. buffer ++ take n (fn ∷ fns)) none_left)
  ]

  filled-nil : (buffer : List A) → filled buffer [] ≡ buffer
  filled-nil buffer =
      ap (λ fns. buffer ++ fns) (take-nil (async_task_max - length buffer)) ∙ append-nil buffer

  wake_one-buffers :
      (e : Executor A queue.Q) (fn : A)
      → ((wake_one queue e fn).write_idx ≡ e.write_idx)
        × ((wake_one queue e fn).buffers (not e.write_idx) ≡ e.buffers (not e.write_idx))
        × ((wake_one queue e fn).sleepers ≡ queue.pop e.sleepers)
        × ((wake_one queue e fn).buffers e.write_idx ≡ added (e.buffers e.write_idx) fn)
  wake_one-buffers e fn = elim (Bool-cases (ltb (length (e.buffers e.write_idx)) async_task_max)) [
    | inl room ↦
        rw room (refl, set_buffer_other e e.write_idx _, refl, set_buffer_self e e.write_idx _)
    | inr shut ↦ rw shut (refl, refl, refl, refl)
  ]

  -- `clean_sleepers` with more fuel than the queue has elements ends. The tasks that leave the queue
  -- are due, and the one at the top is not due afterwards. The buffer that is written has their
  -- functions at its end in order, as many as there was room for, and the others are lost; the other
  -- buffer is as it was.
  pub clean_sleepers-Cleaned :
      (fuel now : ℕ) (e : Executor A queue.Q)
      → QueueOk queue
      → queue.size e.sleepers < fuel
      → (e' : Executor A queue.Q) × (clean_sleepers queue fuel now e ≡ some e') × Cleaned now e e'
  unfolding clean_sleepers
  clean_sleepers-Cleaned zero now e ok lt = elim lt [ ]
  clean_sleepers-Cleaned (suc fuel) now e ok lt = elim (Option-cases (queue.top e.sleepers)) [
    | inl empty ↦ (
      e,
      rw (empty, clean_sleepers) refl,
      stopped e (λ s found. absurd (none-ne (sym empty ∙ found))),
    )
    | inr (s, found) ↦ elim (Bool-cases (is_due queue now s.wake_tick)) [
      | inl due ↦
          let e1 = wake_one queue e s.task in
          let (idx, other, popped, grown) = wake_one-buffers e s.task in
          let smaller = ok.size-pop e.sleepers s found in
          let (e', run, c) = clean_sleepers-Cleaned fuel now e1 ok (omega (arith, smaller)) in
          (
            e',
            rw (found, clean_sleepers) (rw due run),
            record {
              asleep = c.asleep;
              same_index = c.same_index ∙ idx;
              read_buffer =
                  subst (λ i. e'.buffers (not i) ≡ e1.buffers (not i)) idx c.read_buffer ∙ other;
              woken = s ∷ c.woken;
              drained = (found, subst (λ q. Drains q c.woken e'.sleepers) popped c.drained);
              all_due = (due, c.all_due);
              written =
                  subst (λ i. e'.buffers i ≡ filled (e1.buffers i) (tasks c.woken)) idx c.written
                  ∙ ap (λ b. filled b (tasks c.woken)) grown
                  ∙ filled-added (e.buffers e.write_idx) s.task (tasks c.woken);
            },
          )
      | inr early ↦ (
        e,
        rw (found, clean_sleepers) (rw early refl),
        stopped e (λ s' found'.
            ap (λ (x : Sleeper A). is_due queue now x.wake_tick) (same_top s' s found' found)
            ∙ early),
      )
    ]
  ]
    where
      same_top :
          (a b : Sleeper A) → queue.top e.sleepers ≡ some a → queue.top e.sleepers ≡ some b → a ≡ b
      same_top a b p q = cc

      none-ne : {B : Type 0} {b : B} → none ≢ some b
      none-ne e = cc

      stopped :
          (e : Executor A queue.Q)
          → ((s : Sleeper A) → queue.top e.sleepers ≡ some s → is_due queue now s.wake_tick ≡ false)
          → Cleaned now e e
      stopped e all = record {
        asleep = all;
        same_index = refl;
        read_buffer = refl;
        woken = [];
        drained = refl;
        all_due = tt;
        written = sym (filled-nil (e.buffers e.write_idx));
      }
