-- ===== src/Kernel/System/Sound.antt =====
-- The invariant with the idle task in the ready list, and the semaphores that keep it.
use mos_core.Prelude.{
  ℕ, ◌≡◌, ◌≢◌, Bool, true, false, Option, none, some, arith, ◌==◌, ltb, Bool-cases, Option-cases,
  inl, inr, sym, ap, ◌∙◌, if◌then◌else◌, subst,
}
use mos_core.DataType.Sequence.{has}
use mos_core.Kernel.State.{blocked, Tcb, Kernel, nodes_of, status_of, ready_list, yield, begin_of}
use mos_core.Kernel.State.Invariant.{is_runnable, IsValid, IsValid-core, update_ne}
use mos_core.Kernel.Task.{block_to_raw, resume_raw, any_higher, yield_if}
use mos_core.Kernel.Task.Block.{IsQueue, block_to_raw-IsValid}
use mos_core.Kernel.Task.Resume.{ResumedAt, resume_raw-ResumedAt}
use mos_core.Kernel.Scheduler.Wake.{first-has}
use mos_core.Kernel.Sync.Sema.{Sema, null_count, dec, inc, down, up_raw, up}

-- The invariant, with the idle task in the ready list.
pub record Sound (idle : ℕ) (k : Kernel) : Type 0 where
  pub valid : IsValid k
  pub listed : has idle (nodes_of k ready_list) ≡ true

-- A task that keeps its status stays in the ready list.
pub still_listed :
    {idle : ℕ} {k k' : Kernel}
    → Sound idle k
    → IsValid k'
    → status_of k' idle ≡ status_of k idle
    → Sound idle k'
still_listed {idle} {k} s v same = record {
  valid = v;
  listed =
      v.homes.ready_home idle
        (ap is_runnable same ∙ s.valid.homes.status_at idle ready_list s.listed);
}

yield_if-Sound : {idle : ℕ} {k : Kernel} (b : Bool) → Sound idle k → Sound idle (yield_if b k)
yield_if-Sound {idle} {k} true s = record {
  valid = IsValid-core (yield k) s.valid;
  listed = s.listed;
}
yield_if-Sound false s = s

resumed-Sound : {idle : ℕ} {k k' : Kernel} (t : ℕ) → Sound idle k → ResumedAt k k' t → Sound idle k'
resumed-Sound {idle} {k} {k'} t s r = record {
  valid = r.valid;
  listed = elim (Bool-cases (idle == t)) [
    | inl e ↦
        let here : idle ≡ t = ground arith in
        ap (λ a. has a (nodes_of k' ready_list)) here ∙ r.listed
    | inr e ↦ r.alone idle ready_list (ground arith) ∙ s.listed
  ];
}

-- Every result that there is has the invariant.
abbrev SoundResult : ℕ → Option (Kernel × Sema) → Type 0
SoundResult idle none = Unit {0}
SoundResult idle (some r) = Sound idle r.0

masked-SoundResult :
    (idle : ℕ) (r : Option (Kernel × Sema)) (b : Bool)
    → SoundResult idle r
    → SoundResult idle (if b then none else r)
masked-SoundResult idle r true s = tt
masked-SoundResult idle r false s = s

either-SoundResult :
    (idle : ℕ) (r r' : Option (Kernel × Sema)) (b : Bool)
    → SoundResult idle r
    → SoundResult idle r'
    → SoundResult idle (if b then r else r')
either-SoundResult idle r r' true s s' = s
either-SoundResult idle r r' false s s' = s'

-- `up` switches behind `up_raw`.
yielded-SoundResult :
    (idle : ℕ) (r : Option (Kernel × Sema))
    → SoundResult idle r
    → SoundResult idle
        (elim r [ none ↦ none | some (k1, s1) ↦ some (yield_if (any_higher k1 k1.cur_tcb) k1, s1) ])
yielded-SoundResult idle none s = tt
yielded-SoundResult idle (some (k1, s1)) s = yield_if-Sound (any_higher k1 k1.cur_tcb) s

module _ {idle : ℕ} {k : Kernel} (sem : Sema) (s : Sound idle k) where
  blocked-Sound :
      k.cur_tcb ≢ idle
      → is_runnable (status_of k k.cur_tcb) ≡ true
      → IsQueue sem.waiting_list
      → Sound idle (block_to_raw k k.cur_tcb sem.waiting_list)
  unfolding block_to_raw
  blocked-Sound ni r q =
      still_listed s (block_to_raw-IsValid k.cur_tcb sem.waiting_list s.valid r q) (
        ap (λ (u : Tcb). u.status)
          (update_ne k.tcbs k.cur_tcb idle (record (k.tcbs k.cur_tcb) { status = blocked })
            (λ e. ni (sym e))))

  down-SoundResult :
      k.cur_tcb ≢ idle
      → is_runnable (status_of k k.cur_tcb) ≡ true
      → IsQueue sem.waiting_list
      → SoundResult idle (down k sem)
  unfolding down
  down-SoundResult ni r q = masked-SoundResult idle _ k.masked (
      either-SoundResult idle _ _ (ltb (dec sem.cnt) null_count)
        (yield_if-Sound true (blocked-Sound ni r q)) s)

  up_raw-SoundResult : SoundResult idle (up_raw k sem)
  unfolding up_raw
  up_raw-SoundResult = either-SoundResult idle _ _ (ltb sem.cnt null_count) woken s
    where
      woken : SoundResult idle (elim (begin_of k sem.waiting_list) [
        | none ↦ none
        | some t ↦ some (resume_raw k t sem.waiting_list, record sem { cnt = inc sem.cnt })
      ])
      woken = elim (Option-cases (begin_of k sem.waiting_list)) [
        | inl e ↦ rw e tt
        | inr (t, e) ↦ rw e (
            resumed-Sound t s (
              resume_raw-ResumedAt t sem.waiting_list s.valid
                (first-has (nodes_of k sem.waiting_list) e)))
      ]

  up-SoundResult : SoundResult idle (up k sem)
  unfolding up
  up-SoundResult =
      masked-SoundResult idle _ k.masked
        (yielded-SoundResult idle (up_raw k sem) up_raw-SoundResult)

-- A result of an operation is the one that it is said to have.
pub down-Sound :
    {idle : ℕ} {k k' : Kernel} (sem : Sema) {sem' : Sema}
    → Sound idle k
    → down k sem ≡ some (k', sem')
    → k.cur_tcb ≢ idle
    → is_runnable (status_of k k.cur_tcb) ≡ true
    → IsQueue sem.waiting_list
    → Sound idle k'
down-Sound {idle} sem s e ni r q = subst (SoundResult idle) e (down-SoundResult sem s ni r q)

pub up_raw-Sound :
    {idle : ℕ} {k k' : Kernel} (sem : Sema) {sem' : Sema}
    → Sound idle k
    → up_raw k sem ≡ some (k', sem')
    → Sound idle k'
up_raw-Sound {idle} sem s e = subst (SoundResult idle) e (up_raw-SoundResult sem s)

pub up-Sound :
    {idle : ℕ} {k k' : Kernel} (sem : Sema) {sem' : Sema}
    → Sound idle k
    → up k sem ≡ some (k', sem')
    → Sound idle k'
up-Sound {idle} sem s e = subst (SoundResult idle) e (up-SoundResult sem s)
