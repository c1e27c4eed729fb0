-- ===== src/Kernel/Task/Recycle.antt =====
-- `recycle`: no zombie is left, and its page is given back.
use mos_core.Prelude.{
  false, ℕ, zero, suc, ◌<◌, ◌≡◌, refl, ◌≢◌, true, List, [], ◌∷◌, some, arith, length, inl, inr, sym,
  ap, ◌∙◌, subst, ==_self, ◌^◌, ap₂, map, ==_ne, Bool-cases,
}
use mos_core.DataType.Sequence.{has, erase, IsSorted, Distinct}
use mos_core.Kernel.State.{
  Kernel, nodes_of, pri_of, wkpt_of, ready_list, sleeping_list, zombie_list, remove_from, begin_of,
  first, yield, is_empty, is_dynamic,
}
use mos_core.Kernel.State.Lists.{has-without, without-ListsOk, erase-elsewhere}
use mos_core.Kernel.State.Invariant.{IsValid, IsValid-core}
use mos_core.Kernel.Page
use mos_core.Kernel.Page.{Page}
use mos_core.Kernel.Task.{Heap, release, recycle_zombies, recycle}

-- The values in reverse, in front of others.
abbrev pub rev_onto : List ℕ → List ℕ → List ℕ
rev_onto [] ys = ys
rev_onto (x ∷ xs) ys = rev_onto xs (x ∷ ys)

-- Each page is of the heap, as `terminate_raw` sees to, and has not been given back.
abbrev pub FromHeap : Heap → List ℕ → Type 0
FromHeap h ts =
    (t : ℕ) → has t ts ≡ true → (is_dynamic (h.pages t).policy ≡ true) × ((h.pages t).raw ≢ 0)

-- The zombies `ts` are gone and their pages have been given back, each once; nothing else has changed.
pub record Recycled (k k' : Kernel) (h h' : Heap) (ts : List ℕ) : Type 0 where
  pub valid : IsValid k'
  pub none_left : nodes_of k' zombie_list ≡ []
  pub others : (l : ℕ) → l ≢ zombie_list → nodes_of k' l ≡ nodes_of k l
  pub same_tcbs : k'.tcbs ≡ k.tcbs
  pub same_cur : k'.cur_tcb ≡ k.cur_tcb
  pub deleted : h'.deleted ≡ rev_onto (map (λ t. (h.pages t).raw) ts) h.deleted
  pub released : (t : ℕ) → has t ts ≡ true → (h'.pages t).raw ≡ 0
  pub same_pages : (t : ℕ) → has t ts ≡ false → h'.pages t ≡ h.pages t

module _ {k : Kernel} (t : ℕ) (v : IsValid k) (i : has t (nodes_of k zombie_list) ≡ true) where
  kept : (l : ℕ) → l ≢ zombie_list → nodes_of (remove_from k zombie_list t) l ≡ nodes_of k l
  kept l ne = erase-elsewhere zombie_list l t v.lists_ok i ne

  -- A zombie leaves its list.
  buried-IsValid : IsValid (remove_from k zombie_list t)
  buried-IsValid = record {
    lists_ok = without-ListsOk v.lists_ok zombie_list t i;
    homes = record {
      status_at =
          λ x l j. v.homes.status_at x l (ground (arith, has-without v.lists_ok zombie_list t x l));
      ready_home = λ x r. ap (has x) (kept ready_list (λ e. ground arith)) ∙ v.homes.ready_home x r;
      one_runs = v.homes.one_runs;
    };
    sorted = subst (IsSorted (pri_of k)) (sym (kept ready_list (λ e. ground arith))) v.sorted;
    sleepers =
        subst (IsSorted (wkpt_of k)) (sym (kept sleeping_list (λ e. ground arith))) v.sleepers;
  }

erase_first : (t : ℕ) (ts : List ℕ) → erase t (t ∷ ts) ≡ ts
unfolding erase
erase_first t ts = rw (==_self t) refl

-- The page of a task on the heap is given back.
module _ (h : Heap) (t : ℕ) (dynamic : is_dynamic (h.pages t).policy ≡ true)
    (there : (h.pages t).raw ≢ 0) where
  release-deleted : (release h t).deleted ≡ (h.pages t).raw ∷ h.deleted
  unfolding release Page.recycle
  release-deleted = rw (dynamic, ==_ne (h.pages t).raw 0 there) refl

  release-raw : ((release h t).pages t).raw ≡ 0
  unfolding release Page.recycle
  release-raw = rw (dynamic, ==_self t) refl

  release_ne : (x : ℕ) → x ≢ t → (release h t).pages x ≡ h.pages x
  unfolding release
  release_ne x ne = rw (==_ne x t ne) refl

map_same :
    (f g : ℕ → ℕ) (ts : List ℕ) → ((t : ℕ) → has t ts ≡ true → f t ≡ g t) → map f ts ≡ map g ts
map_same f g [] same = refl
map_same f g (t ∷ ts) same =
    ap₂ ◌∷◌ (same t (ground arith)) (map_same f g ts (λ x i. same x (ground (arith, i))))

recycle_zombies-Recycled :
    (fuel : ℕ) {k : Kernel} {h : Heap} (ts : List ℕ)
    → IsValid k
    → nodes_of k zombie_list ≡ ts
    → FromHeap h ts
    → length ts < fuel
    → length ts < 2 ^ 32
    → (k' : Kernel) × (h' : Heap) × (recycle_zombies fuel k h ≡ some (k', h'))
      × Recycled k k' h h' ts
unfolding recycle_zombies
recycle_zombies-Recycled zero ts v e heap lt small = elim lt [ ]
recycle_zombies-Recycled (suc fuel) {k} {h} [] v e heap lt small =
    let empty : is_empty k zombie_list ≡ true =
      ground (arith, v.lists_ok.counted zombie_list, ap length e) in
    (
      k,
      h,
      rw (empty, recycle_zombies) refl,
      record {
        valid = v;
        none_left = e;
        others = λ l ne. refl;
        same_tcbs = refl;
        same_cur = refl;
        deleted = refl;
        released = λ t i. cc;
        same_pages = λ t o. refl;
      },
    )
recycle_zombies-Recycled (suc fuel) {k} {h} (t ∷ ts) v e heap lt small =
    let some_left : is_empty k zombie_list ≡ false =
      ground (arith, v.lists_ok.counted zombie_list, ap length e) in
    let i : has t (nodes_of k zombie_list) ≡ true = ap (has t) e ∙ ground arith in
    let alone : has t ts ≡ false = (subst Distinct e (v.lists_ok.distinct zombie_list)).0 in
    let (dynamic, there) = heap t (ground arith) in
    let apart = λ (x : ℕ) (j : has x ts ≡ true).
      let ne : x ≢ t = λ y. ground (arith, j, alone, ap (λ a. has a ts) y) in ne in
    let kept_page = λ (x : ℕ) (j : has x ts ≡ true). release_ne h t dynamic there x (apart x j) in
    let rest : nodes_of (remove_from k zombie_list t) zombie_list ≡ ts =
      ap (erase t) e ∙ erase_first t ts in
    let (k', h', run, r) =
      recycle_zombies-Recycled fuel {h = release h t} ts (buried-IsValid t v i) rest
        (λ x j.
          subst (λ (p : Page). (is_dynamic p.policy ≡ true) × (p.raw ≢ 0)) (sym (kept_page x j))
            (heap x (ground (arith, j))))
        (omega arith) (omega arith) in
    (
      k',
      h',
      rw (some_left, recycle_zombies) (rw (begin_of, ap first e, recycle_zombies) run),
      record {
        valid = r.valid;
        none_left = r.none_left;
        others = λ l ne. r.others l ne ∙ kept t v i l ne;
        same_tcbs = r.same_tcbs;
        same_cur = r.same_cur;
        deleted =
            r.deleted
            ∙ ap₂ rev_onto
                (map_same (λ x. ((release h t).pages x).raw) (λ x. (h.pages x).raw) ts
                  (λ x j. ap (λ (p : Page). p.raw) (kept_page x j)))
                (release-deleted h t dynamic there);
        released = λ x j. elim (Bool-cases (has x ts)) [
          | inl in_ts ↦ r.released x in_ts
          | inr out ↦
              let here : x ≡ t = ground (arith, j, out) in
              ap (λ (p : Page). p.raw) (r.same_pages x out)
              ∙ ap (λ a. ((release h t).pages a).raw) here
              ∙ release-raw h t dynamic there
        ];
        same_pages = λ x o.
            r.same_pages x (ground (arith, o)) ∙ release_ne h t dynamic there x (ground (arith, o));
      },
    )

-- `recycle` with more fuel than there are zombies, fewer than 2 ^ 32 and with their pages from the
-- heap: it ends, the list of the zombies is empty, the memory of each of their pages has been given
-- back once and no other, their pages point nowhere, the other lists, pages and the tasks are as they
-- were, the invariant holds, and a switch is asked for.
pub recycle-Recycled :
    (fuel : ℕ) {k : Kernel} {h : Heap}
    → IsValid k
    → FromHeap h (nodes_of k zombie_list)
    → length (nodes_of k zombie_list) < fuel
    → length (nodes_of k zombie_list) < 2 ^ 32
    → (k' : Kernel) × (h' : Heap) × (recycle fuel k h ≡ some (k', h'))
      × Recycled k k' h h' (nodes_of k zombie_list)
      × (k'.pend ≡ true)
unfolding recycle
recycle-Recycled fuel {k} {h} v heap lt small =
    let (k', h', run, r) =
      recycle_zombies-Recycled fuel (nodes_of k zombie_list) v refl heap lt small in
    (
      yield k',
      h',
      rw (run, recycle) refl,
      record {
        valid = IsValid-core (yield k') r.valid;
        none_left = r.none_left;
        others = r.others;
        same_tcbs = r.same_tcbs;
        same_cur = r.same_cur;
        deleted = r.deleted;
        released = r.released;
        same_pages = r.same_pages;
      },
      refl,
    )
