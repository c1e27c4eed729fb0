-- ===== src/Kernel/Task/Block.antt =====
-- `block_to`, `resume`, `delay`, `change_pri` and `wake_raw` keep the invariant, and where the task
-- is afterwards.
use mos_core.Prelude.{
  ℕ, ◌+◌, ◌%◌, ◌^◌, ◌≡◌, refl, ◌≢◌, Bool, true, false, ◌||◌, some, arith, ◌==◌, ap, ◌∙◌, ==_ne,
  fun_ext,
}
use mos_core.DataType.Sequence.{has}
use mos_core.Kernel.State.{
  Status, blocked, Kernel, nodes_of, status_of, wkpt_of, ready_list, sleeping_list, zombie_list,
  is_status, set_status, set_wkpt, set_tcb, send_to_in_order, wkpt_cmp, yield, Tcb,
}
use mos_core.Kernel.State.Lists.{Moved, send_to-Moved, send_to_in_order-Moved}
use mos_core.Kernel.State.Invariant.{
  is_runnable, fits, IsValid, IsValid-core, send-IsValid, sleep-IsValid, update_self, update_ne,
}
use mos_core.Kernel.Task.{
  yield_if, block_to_raw, block_to_in_order_raw, block_to, block_to_in_order, delay,
}

-- A list on which tasks wait in the order in which they came.
abbrev pub IsQueue : ℕ → Type 0
IsQueue l = (l ≢ ready_list) × (l ≢ sleeping_list) × (l ≢ zombie_list)

pub fits_blocked : (l : ℕ) → IsQueue l → fits l blocked ≡ true
fits_blocked l q = rw (==_ne l ready_list q.0, ==_ne l zombie_list q.2)

pub yield_if-IsValid : {k : Kernel} (b : Bool) → IsValid k → IsValid (yield_if b k)
yield_if-IsValid {k} true v = IsValid-core (yield k) v
yield_if-IsValid false v = v

-- What is left of a runnable task after a block in a queue.
pub block_to_raw-IsValid :
    {k : Kernel} (t dest : ℕ)
    → IsValid k
    → is_runnable (status_of k t) ≡ true
    → IsQueue dest
    → IsValid (block_to_raw k t dest)
unfolding block_to_raw
block_to_raw-IsValid {k} t dest v r q =
    send-IsValid v t (record (k.tcbs t) { status = blocked }) ready_list (v.homes.ready_home t r)
      (λ e. cc) dest q.0 q.1 (fits_blocked dest q)

-- `blocked_at k k' t l`: the task is blocked in the list, and the other tasks are where they were.
pub record BlockedAt (k k' : Kernel) (t l : ℕ) : Type 0 where
  pub valid : IsValid k'
  pub status : status_of k' t ≡ blocked
  pub listed : has t (nodes_of k' l) ≡ true
  pub alone : (x m : ℕ) → x ≢ t → has x (nodes_of k' m) ≡ has x (nodes_of k m)
  pub others : (x : ℕ) → x ≢ t → k'.tcbs x ≡ k.tcbs x
  pub switches : k'.pend ≡ ((t == k.cur_tcb) || k.pend)

runnable-not_blocked : (s : Status) → is_runnable s ≡ true → is_status s blocked ≡ false
runnable-not_blocked s r = ground arith

-- `yield` changes nothing but the PendSV bit.
yield_if-BlockedAt :
    {k k' : Kernel} (t l : ℕ) (b : Bool)
    → IsValid k'
    → status_of k' t ≡ blocked
    → Moved k.lists k'.lists t l
    → ((x : ℕ) → x ≢ t → k'.tcbs x ≡ k.tcbs x)
    → k'.pend ≡ k.pend
    → b ≡ (t == k.cur_tcb)
    → BlockedAt k (yield_if b k') t l
yield_if-BlockedAt {k} {k'} t l true v s m o p e = record {
  valid = IsValid-core (yield k') v;
  status = s;
  listed = ground (arith, m.has_at t l);
  alone = λ x n ne. ground (arith, m.has_at x n);
  others = o;
  switches = rw (← e);
}
yield_if-BlockedAt {k} {k'} t l false v s m o p e = record {
  valid = v;
  status = s;
  listed = ground (arith, m.has_at t l);
  alone = λ x n ne. ground (arith, m.has_at x n);
  others = o;
  switches = rw (← e) p;
}

-- `block_to` a runnable task in a queue succeeds with interrupts enabled: the task is blocked at its
-- list, every other task is as it was, the invariant holds, and a switch is asked for exactly when
-- the task is the current one.
pub block_to-BlockedAt :
    {k : Kernel} (t dest : ℕ)
    → IsValid k
    → k.masked ≡ false
    → t ≢ 0
    → is_runnable (status_of k t) ≡ true
    → IsQueue dest
    → (k' : Kernel) × (block_to k t dest ≡ some k') × BlockedAt k k' t dest
unfolding block_to
block_to-BlockedAt {k} t dest v on nz r q = (
  yield_if (t == k.cur_tcb) (block_to_raw k t dest),
  rw (on, ==_ne t 0 nz, runnable-not_blocked _ r),
  yield_if-BlockedAt t dest (t == k.cur_tcb) (block_to_raw-IsValid t dest v r q)
      (ap (λ (u : Tcb). u.status) (update_self k.tcbs t (record (k.tcbs t) { status = blocked })))
      (send_to-Moved (set_status k t blocked) ready_list dest t v.lists_ok (v.homes.ready_home t r))
      (λ x ne. update_ne k.tcbs t x (record (k.tcbs t) { status = blocked }) ne) refl refl,
)

-- A wake point and then a status, written in one step.
abbrev pub timed : Kernel → ℕ → ℕ → Status → Tcb
timed k t w s = record (k.tcbs t) { wake_point = w; status = s }

pub set_status-set_wkpt :
    (k : Kernel) (t w : ℕ) (s : Status)
    → set_status (set_wkpt k t w) t s ≡ set_tcb k t (timed k t w s)
set_status-set_wkpt k t w s = ap (λ f. record k { tcbs = f }) (fun_ext λ x. ground arith)

sleeper : Kernel → ℕ → ℕ → Kernel
sleeper k t w =
    let k1 = set_tcb k t (timed k t w blocked) in
    send_to_in_order k1 ready_list sleeping_list (wkpt_cmp k1) t

delay-sleeper :
    (k : Kernel) (t w : ℕ)
    → block_to_in_order_raw (set_wkpt k t w) t sleeping_list wkpt_cmp ≡ sleeper k t w
unfolding block_to_in_order_raw sleeper
delay-sleeper k t w =
    ap (λ k1. send_to_in_order k1 ready_list sleeping_list (wkpt_cmp k1) t)
      (set_status-set_wkpt k t w blocked)

block_to_in_order_ok :
    (k : Kernel) (t dest : ℕ) (cmp : Kernel → ℕ → ℕ → Bool)
    → k.masked ≡ false
    → t ≢ 0
    → is_status (status_of k t) blocked ≡ false
    → block_to_in_order k t dest cmp
      ≡ some (yield_if (t == k.cur_tcb) (block_to_in_order_raw k t dest cmp))
unfolding block_to_in_order
block_to_in_order_ok k t dest cmp on nz s = rw (on, ==_ne t 0 nz, s)

pub yield_if-tcbs : (b : Bool) (k : Kernel) → (yield_if b k).tcbs ≡ k.tcbs
yield_if-tcbs true k = refl
yield_if-tcbs false k = refl

-- `delay` puts the running task among the sleepers, with the wake point at the given number of ticks
-- from now, and asks for a switch; the invariant holds and the other tasks are as they were.
pub delay-BlockedAt :
    {k : Kernel} (ticks : ℕ)
    → IsValid k
    → k.masked ≡ false
    → k.cur_tcb ≢ 0
    → is_runnable (status_of k k.cur_tcb) ≡ true
    → (k' : Kernel) × (delay k ticks ≡ some k')
      × BlockedAt k k' k.cur_tcb sleeping_list
      × (wkpt_of k' k.cur_tcb ≡ (k.os_ticks + ticks) % 2 ^ 32)
unfolding delay sleeper
delay-BlockedAt {k} ticks v on nz r =
    let t = k.cur_tcb in
    let w = (k.os_ticks + ticks) % 2 ^ 32 in
    let new = timed k t w blocked in
    let home = v.homes.ready_home t r in
    let self = update_self k.tcbs t new in
    let still : is_status (status_of (set_wkpt k t w) t) blocked ≡ false =
      ap (λ (u : Tcb). is_status u.status blocked)
        (update_self k.tcbs t (record (k.tcbs t) { wake_point = w }))
      ∙ runnable-not_blocked _ r in
    (
      yield_if (t == t) (sleeper k t w),
      block_to_in_order_ok (set_wkpt k t w) t sleeping_list wkpt_cmp on nz still
          ∙ ap (λ k1. some (yield_if (t == t) k1)) (delay-sleeper k t w),
      yield_if-BlockedAt t sleeping_list (t == t)
          (sleep-IsValid v t new ready_list home (λ e. cc) refl) (ap (λ (u : Tcb). u.status) self)
          (send_to_in_order-Moved (set_tcb k t new) ready_list sleeping_list t v.lists_ok home
            (wkpt_cmp (set_tcb k t new)))
          (λ x ne. update_ne k.tcbs t x new ne) refl refl,
      ap (λ f. (f t).wake_point) (yield_if-tcbs (t == t) (sleeper k t w))
          ∙ ap (λ (u : Tcb). u.wake_point) self,
    )
