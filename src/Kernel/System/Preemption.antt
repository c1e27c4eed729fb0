-- ===== src/Kernel/System/Preemption.antt =====
-- kernel/task.hpp and kernel/scheduler.hpp together: a new task that is above all others runs next.
use mos_core.Prelude.{
  ℕ, ◌<◌, ◌≡◌, ◌≢◌, ◌⊎◌, inl, inr, true, false, not, some, arith, leb, ltb, ◌==◌, if◌then◌else◌, ap,
  ◌∙◌, Bool-cases,
}
use mos_core.DataType.Sequence.{has}
use mos_core.Kernel.State.{
  Kernel, Tcb, TcbList, PagePolicy, nodes_of, status_of, pri_of, task_max, yield, ready_list,
}
use mos_core.Kernel.State.Lists.{Homeless}
use mos_core.Kernel.State.Invariant.{is_runnable, IsValid, IsValid-core}
use mos_core.Kernel.Task.{create_impl, yield_if}
use mos_core.Kernel.Task.Create.Created.{Created, create_impl-Created}
use mos_core.Kernel.Scheduler.{next_tcb, pend_sv, preempt_pri}
use mos_core.Kernel.Scheduler.Wake.{Woke, is_due}
use mos_core.Kernel.Scheduler.Choice.{Runs, next_tcb-Runs, not_due}

-- After the switch the new task runs, or a sleeper whose time has come.
top_runs :
    {k k1 k2 k' : Kernel} {pri page : ℕ}
    → Created k k' pri page
    → ((x : ℕ) → has x (nodes_of k ready_list) ≡ true → pri < pri_of k x)
    → Homeless k.lists page
    → Woke (record k' { pend = false }) k1
    → Runs k1 k2
    → (k2.cur_tcb ≡ page) ⊎ (is_due k' k2.cur_tcb ≡ true)
top_runs {k} {k1} {k2} {k'} {pri} {page} c above out w r =
    let a = k2.cur_tcb in
    let same = λ (x : ℕ). ap (λ (f : ℕ → TcbList). has x (f ready_list).nodes) r.lists in
    elim (Bool-cases (is_due k' a)) [
      | inl due ↦ inr due
      | inr awake ↦ elim (Bool-cases (a == page)) [
        | inl e ↦ inl (ground arith)
        | inr e ↦
            let ne : a ≢ page = ground arith in
            let old : has a (nodes_of k ready_list) ≡ true =
              ground (arith, c.listed a, w.placed a ready_list awake, same a, r.listed) in
            let its : pri_of k2 a ≡ pri_of k a =
              r.pris a ∙ ap (λ (u : Tcb). u.pri) (w.kept a awake ∙ c.others a ne) in
            let new : has page (nodes_of k' ready_list) ≡ true = ground (arith, c.listed page) in
            let up = not_due page c.valid new in
            let here : has page (nodes_of k2 ready_list) ≡ true =
              same page ∙ w.placed page ready_list up ∙ new in
            let mine : pri_of k2 page ≡ pri =
              r.pris page ∙ ap (λ (u : Tcb). u.pri) (w.kept page up) ∙ c.pri_at in
            absurd (omega (arith, r.highest page here, above a old, its, mine))
      ]
    ]

-- `create_impl` of a function that is not null, on a page that no list holds, with interrupts enabled and room in the table, of a
-- priority above that of every ready task, while a task runs: it succeeds, and the PendSV handler
-- behind it succeeds and keeps the invariant, and runs the new task, unless a sleeper is due at that
-- tick and runs in its place.
pub create_impl-preempts :
    {k : Kernel} (fn pri : ℕ) (policy : PagePolicy) (page : ℕ)
    → IsValid k
    → k.masked ≡ false
    → fn ≢ 0
    → page ≢ 0
    → leb task_max k.debug_len ≡ false
    → Homeless k.lists page
    → is_runnable (status_of k k.cur_tcb) ≡ true
    → ((x : ℕ) → has x (nodes_of k ready_list) ≡ true → pri < pri_of k x)
    → (k' : Kernel) × (k2 : Kernel) × (create_impl k fn pri policy page ≡ some (page, k'))
      × (pend_sv preempt_pri k' ≡ some k2)
      × IsValid k2
      × ((k2.cur_tcb ≡ page) ⊎ (is_due k' k2.cur_tcb ≡ true))
unfolding pend_sv
create_impl-preempts {k} fn pri policy page v on some_fn nz room out runs above =
    let (k0, made, c) = create_impl-Created pri policy page v nz room out fn some_fn on runs in
    let k' = yield k0 in
    let higher : ltb pri (pri_of k k.cur_tcb) ≡ true =
      ground (arith, above k.cur_tcb (v.homes.ready_home k.cur_tcb runs)) in
    let new : has page (nodes_of k0 ready_list) ≡ true = ground (arith, c.listed page) in
    let (k2, k1, e, w, r) =
      next_tcb-Runs page (IsValid-core (record k' { pend = false }) c.valid) new in
    (
      k',
      k2,
      made ∙ ap (λ b. some (page, yield_if b k0)) higher,
      ap (λ b. if not b then next_tcb preempt_pri (record k' { pend = false }) else some k')
            (c.masked ∙ on)
          ∙ e,
      r.valid,
      top_runs c above out w r,
    )
