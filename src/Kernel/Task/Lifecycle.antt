-- ===== src/Kernel/Task/Lifecycle.antt =====
-- `create_task` and `create_impl`, `terminate` and `terminate_raw`: what they leave of the invariant.
use mos_core.Prelude.{
  ℕ, suc, ◌+◌, ◌-◌, ◌%◌, ◌^◌, ◌<◌, ◌≡◌, refl, ◌≢◌, Bool, true, false, ◌&&◌, ◌||◌, some, List, [],
  ◌∷◌, arith, ◌==◌, if◌then◌else◌, leb, Bool-cases, inl, inr, sym, ap, ◌∙◌, ==_ne, subst, fun_ext,
  length, mod-eq_of_lt, Option-cases,
}
use mos_core.DataType.Sequence.{has, has-insert_sorted, has-append, length-erase}
use mos_core.Kernel.State.{
  terminated, ready, blocked, PagePolicy, Tcb, build, Kernel, nodes_of, status_of, pri_of,
  ready_list, sleeping_list, zombie_list, is_status, is_dynamic, update, set_tcb, set_status,
  add_to, remove_from, insert_in_order, pri_cmp, debug_add, debug_remove, u32, task_max, no_tick,
}
use mos_core.Kernel.State.Lists.{Homeless, has-without, without-Homeless}
use mos_core.Kernel.State.Invariant.{fits, IsValid, IsValid-core, update_self, update_ne}
use mos_core.Kernel.State.Removal.{remove-IsValid, add-IsValid, create-IsValid}
use mos_core.DataType.BitMap.{reset_bit, set_bit, first_zero}
use mos_core.Kernel.Task.{yield_if, home_guess, terminate_raw, terminate, tid_alloc, create_task}
use mos_core.Kernel.Task.Block.{yield_if-IsValid}

-- A task in no list goes to the end of a list that is not kept in order, with the TCB that it has.
enter-IsValid :
    {k : Kernel} (dest t : ℕ)
    → IsValid k
    → Homeless k.lists t
    → dest ≢ ready_list
    → dest ≢ sleeping_list
    → fits dest (status_of k t) ≡ true
    → IsValid (add_to k dest t)
enter-IsValid {k} dest t v out nr ns fit =
    subst (λ f. IsValid (add_to (record k { tcbs = f }) dest t)) (fun_ext λ x. same x)
      (add-IsValid dest t (k.tcbs t) v out nr ns fit (v.homes.one_runs t))
  where
    same : (x : ℕ) → update k.tcbs t (k.tcbs t) x ≡ k.tcbs x
    same x = elim (Bool-cases (x == t)) [
      | inl e ↦ let here : x ≡ t = ground arith in rw e (ap k.tcbs (sym here))
      | inr e ↦ rw e
    ]

has-add_to :
    (k : Kernel) (dest t x m : ℕ)
    → has x (nodes_of (add_to k dest t) m) ≡ (((m == dest) && (x == t)) || has x (nodes_of k m))
has-add_to k dest t x m = elim (Bool-cases (m == dest)) [
  | inl e ↦
      let here : m ≡ dest = ground arith in
      rw (e, nodes_of)
        (ground
          (arith, has-append x (nodes_of k dest) (t ∷ []), ap (λ a. has x (nodes_of k a)) here))
  | inr e ↦ rw (e, nodes_of) refl
]

-- The task has ended: it is in no list but that of the zombies, and there only if its page is the
-- heap's.
pub record EndedIn (k k' : Kernel) (t : ℕ) : Type 0 where
  pub valid : IsValid k'
  pub status : status_of k' t ≡ terminated
  pub left : (m : ℕ) → has t (nodes_of k' m) ≡ ((m == zombie_list) && is_dynamic (k.tcbs t).policy)
  pub alone : (x m : ℕ) → x ≢ t → has x (nodes_of k' m) ≡ has x (nodes_of k m)
  pub others : (x : ℕ) → x ≢ t → k'.tcbs x ≡ k.tcbs x

module _ {k : Kernel} (t : ℕ) (v : IsValid k)
    (i : has t (nodes_of k (home_guess (k.tcbs t))) ≡ true) where
  -- Before the task is put among the zombies.
  abbrev ended : Kernel
  ended =
      let k1 = set_status (remove_from k (home_guess (k.tcbs t)) t) t terminated in
      debug_remove (record k1 { tids = reset_bit k1.tids (k1.tcbs t).tid }) t

  ended-IsValid : IsValid ended
  ended-IsValid = IsValid-core ended (
      remove-IsValid (home_guess (k.tcbs t)) t (record (k.tcbs t) { status = terminated }) v i refl)

  ended-status : status_of ended t ≡ terminated
  ended-status =
      ap (λ (u : Tcb). u.status) (update_self k.tcbs t (record (k.tcbs t) { status = terminated }))

  ended-policy : (ended.tcbs t).policy ≡ (k.tcbs t).policy
  ended-policy =
      ap (λ (u : Tcb). u.policy) (update_self k.tcbs t (record (k.tcbs t) { status = terminated }))

  ended-others : (x : ℕ) → x ≢ t → ended.tcbs x ≡ k.tcbs x
  ended-others x ne = update_ne k.tcbs t x (record (k.tcbs t) { status = terminated }) ne

  ended-left : Homeless ended.lists t
  ended-left = without-Homeless v.lists_ok (home_guess (k.tcbs t)) t

  ended-has : (x m : ℕ) → x ≢ t → has x (nodes_of ended m) ≡ has x (nodes_of k m)
  ended-has x m ne = ground (arith, has-without v.lists_ok (home_guess (k.tcbs t)) t x m)

  terminate_raw-EndedIn : EndedIn k (terminate_raw k t) t
  unfolding terminate_raw
  terminate_raw-EndedIn = elim (Bool-cases (is_dynamic (k.tcbs t).policy)) [
    | inl e ↦ rw (ap is_dynamic ended-policy ∙ e) record {
      valid =
          enter-IsValid zombie_list t ended-IsValid ended-left (λ z. ground arith)
            (λ z. ground arith) (ap (fits zombie_list) ended-status);
      status = ended-status;
      left = λ m. ground (arith, has-add_to ended zombie_list t t m, ended-left m);
      alone = λ x m ne. ground (arith, has-add_to ended zombie_list t x m, ended-has x m ne);
      others = ended-others;
    }
    | inr e ↦ rw (ap is_dynamic ended-policy ∙ e) record {
      valid = ended-IsValid;
      status = ended-status;
      left = λ m. ground (arith, ended-left m);
      alone = ended-has;
      others = ended-others;
    }
  ]

yield_if-EndedIn : {k k' : Kernel} {t : ℕ} (b : Bool) → EndedIn k k' t → EndedIn k (yield_if b k') t
yield_if-EndedIn {k} {k'} true r = record {
  valid = yield_if-IsValid true r.valid;
  status = r.status;
  left = r.left;
  alone = r.alone;
  others = r.others;
}
yield_if-EndedIn false r = r

yield_if-pend : (b : Bool) (k : Kernel) → (yield_if b k).pend ≡ (b || k.pend)
yield_if-pend true k = refl
yield_if-pend false k = refl

terminate_raw-pend : (k : Kernel) (t : ℕ) → (terminate_raw k t).pend ≡ k.pend
unfolding terminate_raw
terminate_raw-pend k t =
    elim (Bool-cases (
      is_dynamic
        ((set_status (remove_from k (home_guess (k.tcbs t)) t) t terminated).tcbs t).policy)) [
          | inl e ↦ rw e
          | inr e ↦ rw e
        ]

-- `terminate` of a task that is in the list that its status and its wake point name succeeds with
-- interrupts enabled: its status is TERMINATED, it is in the list of the zombies when its page is the
-- heap's and in no list otherwise, the other tasks are as they were, the invariant holds, and a
-- switch is asked for exactly when the task is the current one.
pub terminate-EndedIn :
    {k : Kernel} (t : ℕ)
    → IsValid k
    → k.masked ≡ false
    → t ≢ 0
    → is_status (status_of k t) terminated ≡ false
    → has t (nodes_of k (home_guess (k.tcbs t))) ≡ true
    → (k' : Kernel) × (terminate k t ≡ some k')
      × EndedIn k k' t
      × (k'.pend ≡ ((t == k.cur_tcb) || k.pend))
unfolding terminate terminate_raw
terminate-EndedIn {k} t v on nz s i = (
  yield_if (t == k.cur_tcb) (terminate_raw k t),
  rw (on, ==_ne t 0 nz, s) refl,
  yield_if-EndedIn (t == k.cur_tcb) (terminate_raw-EndedIn t v i),
  yield_if-pend (t == k.cur_tcb) (terminate_raw k t)
      ∙ ap (λ b. (t == k.cur_tcb) || b) (terminate_raw-pend k t),
)

-- A blocked task counts as asleep when its wake point is not 0, and `build` leaves it at 0xFFFFFFFF.
-- `terminate_raw` of such a task that waits in another list than the sleepers' leaves the counter of
-- its list as it was, one more than there are nodes: the lists are no longer counted.
pub terminate_raw-miscounts :
    {k : Kernel} (t l : ℕ)
    → IsValid k
    → status_of k t ≡ blocked
    → (k.tcbs t).wake_point ≢ 0
    → has t (nodes_of k l) ≡ true
    → l ≢ sleeping_list
    → length (nodes_of k l) < 2 ^ 32
    → ((terminate_raw k t).lists l).len ≡ suc (length (nodes_of (terminate_raw k t) l))
unfolding terminate_raw home_guess
terminate_raw-miscounts {k} t l v s w i ne small =
    let asleep : home_guess (k.tcbs t) ≡ sleeping_list =
      rw (s, ==_ne (k.tcbs t).wake_point 0 w) refl in
    let not_zombie : l ≢ zombie_list = λ z.
      fits-blocked_zombie
        (sym (ap (λ a. fits a blocked) z) ∙ sym (ap (fits l) s) ∙ v.homes.status_at t l i) in
    let kept : (if l == home_guess (k.tcbs t)
          then ((k.lists l).len + u32 - 1) % u32
          else (k.lists l).len)
        ≡ (k.lists l).len =
      rw (asleep, ==_ne l sleeping_list ne) refl in
    let total = mod-eq_of_lt small in
    let one_less = length-erase t (nodes_of k l) i in
    elim (Bool-cases (
      is_dynamic
        ((set_status (remove_from k (home_guess (k.tcbs t)) t) t terminated).tcbs t).policy)) [
          | inl e ↦
              rw (e, ==_ne l zombie_list not_zombie, nodes_of)
                (kept ∙ v.lists_ok.counted l ∙ total ∙ sym one_less)
          | inr e ↦ rw (e, nodes_of) (kept ∙ v.lists_ok.counted l ∙ total ∙ sym one_less)
        ]
  where
    fits-blocked_zombie : fits zombie_list blocked ≢ true
    fits-blocked_zombie e = cc

-- `tid_alloc` changes nothing but the words of the bitmap.
pub tid_alloc-tids :
    (k : Kernel) → (tid : ℕ) × (ws : List ℕ) × (tid_alloc k ≡ (tid, record k { tids = ws }))
unfolding tid_alloc
tid_alloc-tids k = elim (Option-cases (first_zero k.tids)) [
  | inl e ↦ (no_tick, set_bit k.tids no_tick, rw (e, tid_alloc) refl)
  | inr (tid, e) ↦ (tid, set_bit k.tids tid, rw (e, tid_alloc) refl)
]

-- `create_task` on a page that no list holds gives the task with its priority, ready and in the ready
-- list, and the invariant holds; the current task and the other tasks are as they were.
pub create_task-IsValid :
    {k : Kernel} (pri : ℕ) (policy : PagePolicy) (page : ℕ)
    → IsValid k
    → page ≢ 0
    → leb task_max k.debug_len ≡ false
    → Homeless k.lists page
    → (k' : Kernel) × (create_task k pri policy page ≡ (page, k'))
      × IsValid k'
      × (status_of k' page ≡ ready)
      × (pri_of k' page ≡ pri)
      × (has page (nodes_of k' ready_list) ≡ true)
      × ((x : ℕ) → x ≢ page → k'.tcbs x ≡ k.tcbs x)
      × (k'.cur_tcb ≡ k.cur_tcb)
unfolding create_task
create_task-IsValid {k} pri policy page v nz room out =
    let (tid, ws, e) = tid_alloc-tids k in
    let t = record (build pri policy) {
      tid = tid;
      stamp = k.os_ticks;
      parent = k.cur_tcb;
      status = ready;
    } in
    let k2 = set_tcb (record k { tids = ws }) page t in
    let k' = debug_add (insert_in_order k2 ready_list (pri_cmp k2) page) page in
    (
      k',
      rw (==_ne page 0 nz, room, e) refl,
      IsValid-core k' (create-IsValid page t v out refl),
      ap (λ (u : Tcb). u.status) (update_self k.tcbs page t),
      ap (λ (u : Tcb). u.pri) (update_self k.tcbs page t),
      ground (arith, has-insert_sorted (pri_cmp k2) page page (nodes_of k ready_list)),
      λ x ne. update_ne k.tcbs page x t ne,
      refl,
    )
