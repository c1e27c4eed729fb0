-- ===== src/Kernel/Task/Create/Created.antt =====
-- What a new task changes: the ready list has it at its place, and all else is as it was.
use mos_core.Prelude.{
  Option, none, ℕ, ◌≡◌, refl, ◌≢◌, true, false, ◌||◌, some, arith, ◌==◌, if◌then◌else◌, leb, ltb,
  sym, ap, ap₂, ◌∙◌, ==_ne, subst,
}
use mos_core.DataType.Sequence.{has, has-insert_sorted}
use mos_core.Kernel.State.{
  ready, PagePolicy, Tcb, build, Kernel, nodes_of, status_of, pri_of, ready_list, set_tcb, pri_cmp,
  task_max, insert_in_order, debug_add,
}
use mos_core.Kernel.State.Lists.{Homeless}
use mos_core.Kernel.State.Invariant.{is_runnable, IsValid, update_self, update_ne}
use mos_core.Kernel.Task.{create_task, create_raw, create_impl, yield_if}
use mos_core.Kernel.Task.Lifecycle.{create_task-IsValid, tid_alloc-tids}

pub record Created (k k' : Kernel) (pri page : ℕ) : Type 0 where
  pub valid : IsValid k'
  pub status : status_of k' page ≡ ready
  pub pri_at : pri_of k' page ≡ pri
  pub listed :
      (x : ℕ) → has x (nodes_of k' ready_list) ≡ ((x == page) || has x (nodes_of k ready_list))
  pub elsewhere : (l : ℕ) → l ≢ ready_list → nodes_of k' l ≡ nodes_of k l
  pub others : (x : ℕ) → x ≢ page → k'.tcbs x ≡ k.tcbs x
  pub cur : k'.cur_tcb ≡ k.cur_tcb
  pub ticks : k'.os_ticks ≡ k.os_ticks
  pub masked : k'.masked ≡ k.masked
  pub pend : k'.pend ≡ k.pend

module _ {k : Kernel} (pri : ℕ) (policy : PagePolicy) (page : ℕ) (v : IsValid k) (nz : page ≢ 0)
    (room : leb task_max k.debug_len ≡ false) (out : Homeless k.lists page) where
  pub create_task-Created :
      (k' : Kernel) × (create_task k pri policy page ≡ (page, k')) × Created k k' pri page
  unfolding create_task
  create_task-Created =
      let (k1, made, v', _, _, _, _, _) = create_task-IsValid pri policy page v nz room out in
      let (tid, ws, e) = tid_alloc-tids k in
      let t = record (build pri policy) {
        tid = tid;
        stamp = k.os_ticks;
        parent = k.cur_tcb;
        status = ready;
      } in
      let k2 = set_tcb (record k { tids = ws }) page t in
      let k' = debug_add (insert_in_order k2 ready_list (pri_cmp k2) page) page in
      let made' : create_task k pri policy page ≡ (page, k') = rw (==_ne page 0 nz, room, e) refl in
      (
        k',
        made',
        record {
          valid = subst IsValid (ap (λ (r : ℕ × Kernel). r.1) (sym made ∙ made')) v';
          status = ap (λ (u : Tcb). u.status) (update_self k.tcbs page t);
          pri_at = ap (λ (u : Tcb). u.pri) (update_self k.tcbs page t);
          listed = λ x. has-insert_sorted (pri_cmp k2) x page (nodes_of k ready_list);
          elsewhere = λ l ne. rw (==_ne l ready_list ne, nodes_of) refl;
          others = λ x ne. update_ne k.tcbs page x t ne;
          cur = refl;
          ticks = refl;
          masked = refl;
          pend = refl;
        },
      )

  -- The current task stays in the ready list, so its page is another one.
  cur-ne : is_runnable (status_of k k.cur_tcb) ≡ true → k.cur_tcb ≢ page
  cur-ne on e = ground (
    arith,
    v.homes.ready_home k.cur_tcb on,
    out ready_list,
    ap (λ a. has a (nodes_of k ready_list)) e,
  )

  pub create_raw-Created :
      (fn : ℕ)
      → fn ≢ 0
      → (k' : Kernel) × (create_raw k fn pri policy page ≡ some (page, k')) × Created k k' pri page
  unfolding create_raw
  create_raw-Created fn some_fn =
      let (k', made, c) = create_task-Created in (k', rw (==_ne fn 0 some_fn) (ap some made), c)

  -- `create_impl` asks for a switch exactly when the new task is above the current one.
  pub create_impl-Created :
      (fn : ℕ)
      → fn ≢ 0
      → k.masked ≡ false
      → is_runnable (status_of k k.cur_tcb) ≡ true
      → (k1 : Kernel) × (create_impl k fn pri policy page
          ≡ some (page, yield_if (ltb pri (pri_of k k.cur_tcb)) k1))
        × Created k k1 pri page
  unfolding create_impl
  create_impl-Created fn some_fn on runs =
      let (k1, made, c) = create_raw-Created fn some_fn in
      let old : pri_of k1 k1.cur_tcb ≡ pri_of k k.cur_tcb =
        ap (pri_of k1) c.cur ∙ ap (λ (u : Tcb). u.pri) (c.others k.cur_tcb (cur-ne runs)) in
      let asked = λ (r : Option (ℕ × Kernel)).
        let result : Option (ℕ × Kernel) = elim r [
          | none ↦ none
          | some (t, k') ↦ some (t, yield_if (pri_cmp k' t k'.cur_tcb) k')
        ] in
        result in
      (
        k1,
        ap (λ b. if b then none else asked (create_raw k fn pri policy page)) on
            ∙ ap asked made
            ∙ ap₂ (λ a b. some (page, yield_if (ltb a b) k1)) c.pri_at old,
        c,
      )
