-- ===== src/Kernel/Scheduler/Turns/Tick.antt =====
-- One tick when nobody sleeps: the current task goes on, or the next task of its priority runs.
use mos_core.Prelude.{
  ℕ, suc, ◌≤◌, ◌<◌, ◌≡◌, refl, ◌≢◌, true, false, List, [], ◌∷◌, ◌++◌, some, arith, ltb, ap, ap₂,
  sym, ◌∙◌, subst, append_assoc,
}
use mos_core.DataType.Sequence.{has, Distinct-remove, has-append}
use mos_core.Kernel.State.{
  running, Kernel, nodes_of, status_of, pri_of, ready_list, begin_of, first, slice_width,
}
use mos_core.Kernel.State.Invariant.{is_runnable}
use mos_core.Kernel.Task.{dec_tmslc, inc_ticks}
use mos_core.Kernel.Scheduler.{preempt_pri, next_of, switch_to, preempt, choose}
use mos_core.Kernel.Scheduler.RoundRobin.{refilled, choose-preempt, preempt-expire, expire-switch}
use mos_core.Kernel.Scheduler.Turns.{tick, slice_of, Turn, Kept, Kept-trans, Kept-Turn}
use mos_core.Kernel.Scheduler.Turns.Ticked.{
  next_of-middle, first-middle, ticked, tick-choose, ticked-slice, ticked-Kept, ticked-status,
  ticked-cur, passed, passed-Kept, passed-running, preempt-stay,
}

module _ {k : Kernel} {front : List ℕ} {x : ℕ} {back : List ℕ} (turn : Turn k front x back) where
  head : (st : ℕ) × (begin_of k ready_list ≡ some st)
  head = let (st, e) = first-middle x front back in (st, ap first turn.order ∙ e)

  out : has x front ≡ false
  out =
      let (absent, _) = Distinct-remove x front back turn.distinct in
      ground (arith, has-append x front back)

  -- The choice after a tick, with the current task's place in the list read off.
  tick-preempt : tick k ≡ some (preempt (ticked k) head.0 (first back))
  unfolding dec_tmslc inc_ticks
  tick-preempt =
      let next : next_of k.cur_tcb (nodes_of k ready_list) ≡ first back =
        ap₂ next_of turn.current turn.order ∙ next_of-middle x front back out in
      let on : is_runnable (status_of (ticked k) k.cur_tcb) ≡ true =
        ap is_runnable (ticked-status k k.cur_tcb ∙ ap (status_of k) turn.current) ∙ turn.runs in
      tick-choose k head.0 turn.irq_on turn.scheduled turn.awake head.1
      ∙ ap some (
          ap (choose preempt_pri (ticked k) head.0) next
          ∙ choose-preempt (ticked k) head.0 0 (first back) on)

  not_above : ltb (pri_of (ticked k) head.0) (pri_of (ticked k) x) ≡ false
  not_above =
      let kept = ticked-Kept k in
      ground (arith, kept.pris head.0, kept.pris x, turn.highest head.0 head.1)

  pub ticked-slice_x : (s : ℕ) → slice_of k x ≡ suc s → slice_of (ticked k) x ≡ s
  ticked-slice_x s e =
      let at_cur = ap (slice_of k) turn.current ∙ e in
      let narrow = turn.narrow in
      ap (slice_of (ticked k)) (sym turn.current) ∙ ticked-slice k s at_cur (omega (arith, e))

  -- With some of the slice left the task stays.
  pub tick-stay : (s : ℕ) → slice_of k x ≡ suc (suc s) → tick k ≡ some (ticked k)
  tick-stay s e =
      tick-preempt
      ∙ ap some (
          preempt-stay (ticked k) head.0 s x (first back) (ticked-cur k ∙ turn.current) not_above
            (ticked-slice_x (suc s) e))

  pub stay-Kept : Kept k (ticked k) x
  stay-Kept = subst (Kept k (ticked k)) turn.current (ticked-Kept k)

  pub stay-Turn : (s : ℕ) → slice_of k x ≡ suc (suc s) → Turn (ticked k) front x back
  stay-Turn s e =
      let less = ticked-slice_x (suc s) e in
      let narrow = turn.narrow in
      Kept-Turn turn stay-Kept refl (ticked-cur k ∙ turn.current)
        (ap is_runnable (ticked-status k x) ∙ turn.runs) refl (omega (arith, less))
        (omega (arith, less, e))

  -- At the end of the slice the next task of the same priority runs.
  tick-pass :
      (z : ℕ) (back' : List ℕ)
      → back ≡ z ∷ back'
      → slice_of k x ≡ 1
      → pri_of k z ≡ pri_of k x
      → tick k ≡ some (switch_to (refilled (ticked k) head.0 z) z)
  tick-pass z back' e one same =
      let cur = ticked-cur k ∙ turn.current in
      let kept = ticked-Kept k in
      let on : is_runnable (status_of (ticked k) (ticked k).cur_tcb) ≡ true =
        ap (λ t. is_runnable (status_of (ticked k) t)) cur
        ∙ ap is_runnable (ticked-status k x)
        ∙ turn.runs in
      tick-preempt
      ∙ ap some (
          ap (preempt (ticked k) head.0) (ap first e)
          ∙ preempt-expire (ticked k) head.0 z (some z)
              (ap (slice_of (ticked k)) cur ∙ ticked-slice_x 0 one)
              (omega (
                arith,
                ap (pri_of (ticked k)) cur,
                kept.pris x,
                kept.pris head.0,
                turn.highest head.0 head.1,
              ))
          ∙ expire-switch (ticked k) head.0 z on
              (kept.pris z ∙ same ∙ sym (kept.pris x) ∙ ap (pri_of (ticked k)) (sym cur)))

  -- The next task has the turn.
  pub pass-Turn :
      (z : ℕ) (back' : List ℕ)
      → back ≡ z ∷ back'
      → slice_of k x ≡ 1
      → pri_of k z ≡ pri_of k x
      → 0 < slice_of k z
      → slice_of k z ≤ slice_width
      → (k' : Kernel) × (tick k ≡ some k')
        × Turn k' (front ++ x ∷ []) z back'
        × Kept k k' x
        × (status_of k' z ≡ running)
  pass-Turn z back' e one same left narrow =
      let k' = passed (ticked k) head.0 z in
      let kept = Kept-trans stay-Kept (
        subst (Kept (ticked k) k') (ticked-cur k ∙ turn.current)
          (passed-Kept (ticked k) head.0 z)) in
      let (cur, runs) = passed-running (ticked k) head.0 z in
      let (absent, _) = Distinct-remove x front back turn.distinct in
      let other : z ≢ x = λ (y : z ≡ x).
        ground (arith, has-append x front (z ∷ back'), absent, ap (λ b. has x (front ++ b)) e) in
      let places : front ++ x ∷ back ≡ (front ++ x ∷ []) ++ z ∷ back' =
        ap (λ ys. front ++ x ∷ ys) e ∙ sym (append_assoc front (x ∷ []) (z ∷ back')) in
      (
        k',
        tick-pass z back' e one same,
        Kept-Turn turn kept places cur (ap is_runnable runs) same
            (omega (arith, kept.slices z other)) (omega (arith, kept.slices z other)),
        kept,
        runs,
      )
