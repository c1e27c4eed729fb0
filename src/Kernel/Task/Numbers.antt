-- ===== src/Kernel/Task/Numbers.antt =====
-- `tid_alloc`: the numbers of tasks are different, and `terminate_raw` gives a number back.
use mos_core.Prelude.{
  ℕ, ◌+◌, ◌-◌, ◌*◌, ◌%◌, ◌≤◌, ◌<◌, ◌≡◌, refl, ◌≢◌, Bool, true, false, ◌||◌, some, arith, ◌==◌, leb,
  ltb, length, Bool-cases, inl, inr, sym, ap, ap₂, List, ◌++◌, ◌∙◌, subst, ==_ne, ==_self,
}
use mos_core.DataType.Sequence.{has, Distinct, has-insert}
use mos_core.DataType.BitMap.{test_bit, set_bit, reset_bit, first_zero}
use mos_core.DataType.BitMap.Bits.{test_bit-set_bit, test_bit-reset_bit}
use mos_core.DataType.BitMap.FirstZero.{first_zero-lowest}
use mos_core.DataType.BitMap.Words.{
  set_bit-AreWords, reset_bit-AreWords, length-set_bit, length-reset_bit,
}
use mos_core.Kernel.State.{
  PagePolicy, Tcb, build, ready, Kernel, ready_list, set_tcb, insert_in_order, pri_cmp, debug_add,
  add_slot, remove_slot, holds_slot, update, debug_remove, set_status, terminated, is_dynamic,
  task_max, u32,
}
use mos_core.Kernel.State.Invariant.{update_self, update_ne}
use mos_core.Kernel.State.Tids.{
  live, numbers, TidsOk, length-numbers, numbers_unique, numbers_congr, has-numbers, free_slot,
  add_slot-Around, remove_slot-Around, length-add_slot, length-remove_slot, holds-live,
  length-Around, has-Around, Distinct-with_t, Distinct-without, unused, length-live, Around,
}
use mos_core.Kernel.Task.{tid_alloc, create_task, create_raw, terminate_raw}

-- With a free slot the search finds a number that no listed task has, at most their count.
fresh_number :
    (k : Kernel)
    → TidsOk k
    → k.debug_len < task_max
    → (tid : ℕ) × (first_zero k.tids ≡ some tid)
      × (tid ≤ k.debug_len)
      × (has tid (numbers k.tcbs (live k.raw)) ≡ false)
fresh_number k ok room =
    let ts = numbers k.tcbs (live k.raw) in
    let counted = ok.counted in
    let (q, low, out) =
      unused k.debug_len ts (omega (arith, length-numbers k.tcbs (live k.raw), counted)) in
    let clear : test_bit k.tids q ≡ false = ok.bits q (omega arith) ∙ out in
    let below = λ (p : ℕ) (before : (q : ℕ) → q < p → test_bit k.tids q ≡ true).
      lowest q k.debug_len p low clear (before q) in
    elim (first_zero-lowest k.tids ok.words) [
      | inl (none_, full) ↦ absurd (clash (full q (omega (arith, ok.one_word))) clear)
      | inr (p, found, inside, zero_, before) ↦
          (p, found, below p before, sym (ok.bits p (omega (arith, ok.one_word))) ∙ zero_)
    ]
  where
    clash : {b : Bool} → b ≡ true → b ≡ false → ⊥
    clash p q = cc

    lowest : {b : Bool} (q n p : ℕ) → q ≤ n → b ≡ false → (q < p → b ≡ true) → p ≤ n
    lowest q n p le e before = elim (Bool-cases (ltb q p)) [
      | inl lt ↦ absurd (clash (before (ground arith)) e)
      | inr ge ↦ ground arith
    ]

module _ {k : Kernel} (ok : TidsOk k) (page tid : ℕ) (t : Tcb) (nz : page ≢ 0)
    (new : has page (live k.raw) ≡ false) (room : k.debug_len < task_max) (named : t.tid ≡ tid)
    (low : tid ≤ k.debug_len) (free : has tid (numbers k.tcbs (live k.raw)) ≡ false) where
  abbrev tcbs' : ℕ → Tcb
  tcbs' = update k.tcbs page t

  slot : holds_slot 0 k.raw ≡ true
  slot = free_slot k.raw (omega (arith, ok.counted, ok.table))

  at_page : (tcbs' page).tid ≡ tid
  at_page = ap (λ (u : Tcb). u.tid) (update_self k.tcbs page t) ∙ named

  old_numbers : numbers tcbs' (live k.raw) ≡ numbers k.tcbs (live k.raw)
  old_numbers = numbers_congr k.tcbs tcbs' (live k.raw) (λ x i.
      ap (λ (u : Tcb). u.tid)
        (update_ne k.tcbs page x t
          (λ (e : x ≡ page). ground (arith, ap (λ y. has y (live k.raw)) e))))

  abbrev raw' : List ℕ
  raw' = add_slot page k.raw

  each :
      (q : ℕ)
      → has q (numbers tcbs' (live raw')) ≡ ((q == tid) || has q (numbers k.tcbs (live k.raw)))
  each q =
      has-Around tcbs' page (add_slot-Around page k.raw nz slot) q
      ∙ ap₂ (λ n ns. (q == n) || has q ns) at_page old_numbers

  -- The table and the numbers after a task with a new number has been added.
  added-TidsOk :
      (k' : Kernel)
      → TidsOk (record k' {
        tcbs = tcbs';
        tids = set_bit k.tids tid;
        raw = raw';
        debug_len = (k.debug_len + 1) % u32;
      })
  added-TidsOk k' =
      let a = add_slot-Around page k.raw nz slot in
      let inside : tid < length k.tids * 32 = omega (arith, ok.one_word) in
      record {
        words = set_bit-AreWords k.tids tid ok.words;
        one_word = length-set_bit k.tids tid ∙ ok.one_word;
        table = length-add_slot page k.raw ∙ ok.table;
        counted = omega (arith, length-Around tcbs' page a, ok.counted);
        distinct =
            Distinct-with_t tcbs' page a (ap₂ has at_page old_numbers ∙ free)
              (subst Distinct (sym old_numbers) ok.distinct);
        bits = λ q lt.
            test_bit-set_bit k.tids tid inside q
            ∙ ap (λ b. (q == tid) || b) (ok.bits q lt)
            ∙ sym (each q);
        small = λ q i. elim (Bool-cases (q == tid)) [
          | inl e ↦ ground arith
          | inr e ↦ ok.small q (ground (arith, each q))
        ];
      }

tid_alloc-found :
    (k : Kernel) (tid : ℕ)
    → first_zero k.tids ≡ some tid
    → tid_alloc k ≡ (tid, record k { tids = set_bit k.tids tid })
unfolding tid_alloc
tid_alloc-found k tid found = rw (found, tid_alloc) refl

pub create_task-TidsOk :
    {k : Kernel} (pri : ℕ) (policy : PagePolicy) (page : ℕ)
    → TidsOk k
    → page ≢ 0
    → has page (live k.raw) ≡ false
    → k.debug_len < task_max
    → (k' : Kernel) × (create_task k pri policy page ≡ (page, k'))
      × TidsOk k'
      × ((k'.tcbs page).tid ≤ k.debug_len)
      × ((x : ℕ) → has x (live k'.raw) ≡ true → (k'.tcbs x).tid ≡ (k'.tcbs page).tid → x ≡ page)
unfolding create_task
create_task-TidsOk {k} pri policy page ok nz new room =
    let (tid, found, low, free) = fresh_number k ok room in
    let t = record (build pri policy) {
      tid = tid;
      stamp = k.os_ticks;
      parent = k.cur_tcb;
      status = ready;
    } in
    let k2 = set_tcb (record k { tids = set_bit k.tids tid }) page t in
    let k' = debug_add (insert_in_order k2 ready_list (pri_cmp k2) page) page in
    let open_ : leb task_max k.debug_len ≡ false = ground arith in
    let free_ = slot ok page tid t nz new room refl low free in
    let a = add_slot-Around page k.raw nz free_ in
    let named = at_page ok page tid t nz new room refl low free in
    let valid : TidsOk k' = rw free_ (added-TidsOk ok page tid t nz new room refl low free k') in
    (
      k',
      rw (==_ne page 0 nz, open_, tid_alloc-found k tid found) refl,
      valid,
      omega (arith, named),
      λ x i same.
          numbers_unique k'.tcbs (live k'.raw) x page valid.distinct i
            (subst (λ ys. has page ys ≡ true) (sym a.inside)
              (has-insert page page a.front a.back
                ∙ ap (λ b. b || has page (a.front ++ a.back)) (==_self page)))
            same,
    )

-- `create_raw` of a function that is not null, on a page that no listed task has, with room in the table: the number of the new task
-- is at most the count of the listed tasks, no other listed task has it, and the numbers in use are
-- again all different and are the bits of the map.
pub create_raw-TidsOk :
    {k : Kernel} (fn pri : ℕ) (policy : PagePolicy) (page : ℕ)
    → TidsOk k
    → page ≢ 0
    → has page (live k.raw) ≡ false
    → k.debug_len < task_max
    → fn ≢ 0
    → (k' : Kernel) × (create_raw k fn pri policy page ≡ some (page, k'))
      × TidsOk k'
      × ((k'.tcbs page).tid ≤ k.debug_len)
      × ((x : ℕ) → has x (live k'.raw) ≡ true → (k'.tcbs x).tid ≡ (k'.tcbs page).tid → x ≡ page)
unfolding create_raw
create_raw-TidsOk {k} fn pri policy page ok nz new room some_fn =
    let (k', made, ok', low, alone) = create_task-TidsOk pri policy page ok nz new room in
    (k', rw (==_ne fn 0 some_fn) (ap some made), ok', low, alone)

module _ {k : Kernel} (ok : TidsOk k) (t : ℕ) (nz : t ≢ 0)
    (listed : has t (live k.raw) ≡ true) where
  abbrev tid_of : ℕ
  tid_of = (k.tcbs t).tid

  abbrev rest : List ℕ
  rest = remove_slot t k.raw

  without_t : Around t (live rest) (live k.raw)
  without_t = remove_slot-Around t k.raw nz listed

  inside_map : tid_of < 32
  inside_map = ok.small tid_of (has-numbers k.tcbs t (live k.raw) listed)

  freed : (has tid_of (numbers k.tcbs (live rest)) ≡ false) × Distinct (numbers k.tcbs (live rest))
  freed = Distinct-without k.tcbs t without_t ok.distinct

  removed_bits :
      (q : ℕ) → q < 32 → test_bit (reset_bit k.tids tid_of) q ≡ has q (numbers k.tcbs (live rest))
  removed_bits q lt =
      test_bit-reset_bit k.tids tid_of (omega (arith, ok.one_word, inside_map)) q
      ∙ ground (
        arith,
        ok.bits q lt,
        has-Around k.tcbs t without_t q,
        freed.0,
        ap (λ n. has n (numbers k.tcbs (live rest))),
      )

  -- The table and the numbers after a task has been removed.
  removed-TidsOk :
      (k' : Kernel)
      → numbers k'.tcbs (live rest) ≡ numbers k.tcbs (live rest)
      → TidsOk (record k' {
        tids = reset_bit k.tids tid_of;
        raw = rest;
        debug_len = (k.debug_len + u32 - 1) % u32;
      })
  removed-TidsOk k' same = record {
    words = reset_bit-AreWords k.tids tid_of ok.words;
    one_word = length-reset_bit k.tids tid_of ∙ ok.one_word;
    table = length-remove_slot t k.raw ∙ ok.table;
    counted =
        omega (arith, length-Around k.tcbs t without_t, ok.counted, ok.table, length-live k.raw);
    distinct = subst Distinct (sym same) freed.1;
    bits = λ q lt. removed_bits q lt ∙ ap (has q) (sym same);
    small = λ q i. ok.small q (
        has-Around k.tcbs t without_t q
        ∙ ap (λ b. (q == tid_of) || b) (sym (ap (has q) same) ∙ i)
        ∙ ground arith);
  }

-- What `terminate_raw` writes beside the lists.
ended : Kernel → ℕ → Kernel
ended k t =
    debug_remove (record (set_status k t terminated) { tids = reset_bit k.tids (k.tcbs t).tid }) t

terminate_raw-ended :
    (k : Kernel) (t : ℕ)
    → terminate_raw k t ≡ record (ended k t) { lists = (terminate_raw k t).lists }
unfolding terminate_raw ended
terminate_raw-ended k t =
    elim (Bool-cases
      (is_dynamic (update k.tcbs t (record (k.tcbs t) { status = terminated }) t).policy)) [
        | inl e ↦ rw (e, ==_self t) refl
        | inr e ↦ rw (e, ==_self t) refl
      ]

same_tid : (k : Kernel) (t x : ℕ) → ((ended k t).tcbs x).tid ≡ (k.tcbs x).tid
unfolding ended
same_tid k t x = elim (Bool-cases (x == t)) [
  | inl e ↦ let here : x ≡ t = ground arith in rw e (ap (λ y. (k.tcbs y).tid) (sym here))
  | inr e ↦ rw e refl
]

-- `terminate_raw` of a listed task frees its number, and the numbers of the other listed tasks stay
-- as they were, in use and all different.
pub terminate_raw-TidsOk :
    {k : Kernel} (t : ℕ)
    → TidsOk k
    → t ≢ 0
    → has t (live k.raw) ≡ true
    → TidsOk (terminate_raw k t)
      × (test_bit (terminate_raw k t).tids (k.tcbs t).tid ≡ false)
      × ((x : ℕ) → ((terminate_raw k t).tcbs x).tid ≡ (k.tcbs x).tid)
unfolding ended
terminate_raw-TidsOk {k} t ok nz i =
    let same =
      numbers_congr k.tcbs (ended k t).tcbs (live (remove_slot t k.raw)) (λ x j. same_tid k t x) in
    subst
      (λ k'.
        TidsOk k'
        × (test_bit k'.tids (k.tcbs t).tid ≡ false)
        × ((x : ℕ) → (k'.tcbs x).tid ≡ (k.tcbs x).tid))
      (sym (terminate_raw-ended k t))
      (
        rw (holds-live t k.raw nz, i)
            (removed-TidsOk ok t nz i (record (ended k t) { lists = (terminate_raw k t).lists })
              same),
        test_bit-reset_bit k.tids (k.tcbs t).tid (omega (arith, ok.one_word, inside_map ok t nz i))
              (k.tcbs t).tid
            ∙ rw (==_self (k.tcbs t).tid) refl,
        same_tid k t,
      )
