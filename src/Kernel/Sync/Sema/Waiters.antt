-- ===== src/Kernel/Sync/Sema/Waiters.antt =====
-- `Sema_t`: the count is the number of free resources, or of the tasks that wait, and they wait in
-- the order in which they came.
use mos_core.Prelude.{
  ℕ, suc, ◌+◌, ◌-◌, ◌^◌, ◌<◌, ◌≡◌, refl, Bool, true, false, List, [], ◌∷◌, ◌++◌, some, arith,
  if◌then◌else◌, ltb, length, length-append, Bool-cases, inl, inr, ap, ◌∙◌,
}
use mos_core.DataType.Sequence.{has}
use mos_core.Kernel.State.{blocked, Tcb, Kernel, nodes_of, status_of, begin_of, first, yield}
use mos_core.Kernel.State.Invariant.{is_runnable, IsValid, IsValid-core, update_self}
use mos_core.Kernel.Task.{block_to_raw, resume_raw, any_higher, yield_if}
use mos_core.Kernel.Task.Block.{IsQueue, block_to_raw-IsValid}
use mos_core.Kernel.Task.Resume.{
  ResumedAt, resume_raw-ResumedAt, yield_if-ResumedAt, Preempts, any_higher-Preempts,
}
use mos_core.Kernel.Sync.Placed.{IsValid-IsPlaced, nodes-block_to_raw, nodes-resume_raw}
use mos_core.Kernel.Sync.Sema.{Sema, null_count, dec, inc, down, up_raw, up}

-- As many tasks wait as the count is below 0.
pub record SemaOk (k : Kernel) (s : Sema) : Type 0 where
  pub valid : IsValid k
  pub queue : IsQueue s.waiting_list
  pub waits : length (nodes_of k s.waiting_list) ≡ null_count - s.cnt

-- A semaphore with a free resource, which `down` takes, or one on which the task will wait.
abbrev pub is_free : Sema → Bool
is_free s = ltb null_count s.cnt

pub block_to_raw-status : (k : Kernel) (t dest : ℕ) → status_of (block_to_raw k t dest) t ≡ blocked
unfolding block_to_raw
block_to_raw-status k t dest =
    ap (λ (u : Tcb). u.status) (update_self k.tcbs t (record (k.tcbs t) { status = blocked }))

-- `down` with interrupts enabled, on a count that can go down, takes 1 from the count and keeps the
-- invariant. With a resource free nothing else changes; otherwise the running task is blocked at the
-- end of the waiting list and a switch is asked for.
pub down-SemaOk :
    {k : Kernel} {s : Sema}
    → SemaOk k s
    → k.masked ≡ false
    → is_runnable (status_of k k.cur_tcb) ≡ true
    → 0 < s.cnt
    → s.cnt < 2 ^ 32
    → (k' : Kernel) × (s' : Sema) × (down k s ≡ some (k', s'))
      × SemaOk k' s'
      × (suc s'.cnt ≡ s.cnt)
      × (if is_free s
          then k' ≡ k
          else (nodes_of k' s.waiting_list ≡ nodes_of k s.waiting_list ++ k.cur_tcb ∷ [])
            × (status_of k' k.cur_tcb ≡ blocked)
            × (k'.pend ≡ true))
unfolding down
down-SemaOk {k} {s} ok on r low high =
    let less : suc (dec s.cnt) ≡ s.cnt = omega arith in
    elim (Bool-cases (is_free s)) [
      | inl e ↦
          let test : ltb (dec s.cnt) null_count ≡ false = ground arith in
          (
            k,
            record s { cnt = dec s.cnt },
            rw (on, test) refl,
            record { valid = ok.valid; queue = ok.queue; waits = ground (arith, ok.waits) },
            less,
            rw e refl,
          )
      | inr e ↦
          let test : ltb (dec s.cnt) null_count ≡ true = ground arith in
          let home = ok.valid.homes.ready_home k.cur_tcb r in
          let queued =
            nodes-block_to_raw k.cur_tcb (IsValid-IsPlaced ok.valid) home s.waiting_list
              ok.queue.0 in
          (
            yield (block_to_raw k k.cur_tcb s.waiting_list),
            record s { cnt = dec s.cnt },
            rw (on, test) refl,
            record {
              valid =
                  IsValid-core (yield (block_to_raw k k.cur_tcb s.waiting_list))
                    (block_to_raw-IsValid k.cur_tcb s.waiting_list ok.valid r ok.queue);
              queue = ok.queue;
              waits =
                  ap length queued
                  ∙ ground
                      (arith, length-append (nodes_of k s.waiting_list) (k.cur_tcb ∷ []), ok.waits);
            },
            less,
            rw e (queued, block_to_raw-status k k.cur_tcb s.waiting_list, refl),
          )
    ]

-- What `up` does: the first task that waits becomes ready, and the others wait on.
abbrev pub WokeFirst : Kernel → Kernel → ℕ → Type 0
WokeFirst k k' l =
    (t : ℕ) × (ts : List ℕ) × (nodes_of k l ≡ t ∷ ts) × (nodes_of k' l ≡ ts) × ResumedAt k k' t

first-found : (xs : List ℕ) → 0 < length xs → (t : ℕ) × (ts : List ℕ) × (xs ≡ t ∷ ts)
first-found [] h = elim h [ ]
first-found (x ∷ xs) h = (x, xs, refl)

-- `up_from_isr` gives 1 to the count, which has room, and keeps the invariant. Without tasks that
-- wait nothing else changes; otherwise the first one becomes ready.
pub up_raw-SemaOk :
    {k : Kernel} {s : Sema}
    → SemaOk k s
    → s.cnt + 1 < 2 ^ 32
    → (k' : Kernel) × (s' : Sema) × (up_raw k s ≡ some (k', s'))
      × SemaOk k' s'
      × (s'.cnt ≡ suc s.cnt)
      × (if ltb s.cnt null_count then WokeFirst k k' s.waiting_list else k' ≡ k)
unfolding up_raw
up_raw-SemaOk {k} {s} ok high =
    let more : inc s.cnt ≡ suc s.cnt = omega arith in
    elim (Bool-cases (ltb s.cnt null_count)) [
      | inl e ↦
          let (t, ts, found) = first-found (nodes_of k s.waiting_list) (ground (arith, ok.waits)) in
          let i : has t (nodes_of k s.waiting_list) ≡ true = ap (has t) found ∙ ground arith in
          let woke = resume_raw-ResumedAt t s.waiting_list ok.valid i in
          let rest =
            nodes-resume_raw t (IsValid-IsPlaced ok.valid) s.waiting_list ts ok.queue.0 found in
          (
            resume_raw k t s.waiting_list,
            record s { cnt = inc s.cnt },
            rw (e, begin_of, ap first found) refl,
            record {
              valid = woke.valid;
              queue = ok.queue;
              waits = ap length rest ∙ ground (arith, ap length found, ok.waits);
            },
            more,
            rw e (t, ts, found, rest, woke),
          )
      | inr e ↦ (
        k,
        record s { cnt = inc s.cnt },
        rw e refl,
        record { valid = ok.valid; queue = ok.queue; waits = ground (arith, ok.waits) },
        more,
        rw e refl,
      )
    ]

yield_if-SemaOk : {k : Kernel} {s : Sema} (b : Bool) → SemaOk k s → SemaOk (yield_if b k) s
yield_if-SemaOk {k} true ok = record {
  valid = IsValid-core (yield k) ok.valid;
  queue = ok.queue;
  waits = ok.waits;
}
yield_if-SemaOk false ok = ok

yield_if-lists : (b : Bool) (k : Kernel) → (yield_if b k).lists ≡ k.lists
yield_if-lists true k = refl
yield_if-lists false k = refl

yield_if-WokeFirst :
    {k k' : Kernel} (l : ℕ) (b : Bool) → WokeFirst k k' l → WokeFirst k (yield_if b k') l
yield_if-WokeFirst {k} {k'} l b w =
    (w.0, w.1, w.2, ap (λ f. (f l).nodes) (yield_if-lists b k') ∙ w.3, yield_if-ResumedAt w.0 b w.4)

-- `up` with interrupts enabled, on a count that has room, gives 1 to it and keeps the invariant: the
-- first task that waits becomes ready if there is one and nothing else changes, but that a switch is
-- asked for if a ready task is now above the running one.
pub up-SemaOk :
    {k : Kernel} {s : Sema}
    → SemaOk k s
    → k.masked ≡ false
    → s.cnt + 1 < 2 ^ 32
    → (k' : Kernel) × (s' : Sema) × (up k s ≡ some (k', s'))
      × SemaOk k' s'
      × (s'.cnt ≡ suc s.cnt)
      × (if ltb s.cnt null_count
          then WokeFirst k k' s.waiting_list
          else k' ≡ yield_if (any_higher k k.cur_tcb) k)
      × Preempts k'
unfolding up
up-SemaOk {k} {s} ok on high =
    let (k1, s1, e, ok1, more, woke) = up_raw-SemaOk ok high in
    let b = any_higher k1 k1.cur_tcb in
    (
      yield_if b k1,
      s1,
      rw (e, on) refl,
      yield_if-SemaOk b ok1,
      more,
      switched k k1 s.waiting_list (ltb s.cnt null_count) woke,
      any_higher-Preempts ok1.valid,
    )
  where
    switched :
        (k k1 : Kernel) (l : ℕ) (waits : Bool)
        → (if waits then WokeFirst k k1 l else k1 ≡ k)
        → (if waits
            then WokeFirst k (yield_if (any_higher k1 k1.cur_tcb) k1) l
            else yield_if (any_higher k1 k1.cur_tcb) k1 ≡ yield_if (any_higher k k.cur_tcb) k)
    switched k k1 l true w = yield_if-WokeFirst l (any_higher k1 k1.cur_tcb) w
    switched k k1 l false e = ap (λ a. yield_if (any_higher a a.cur_tcb) a) e
