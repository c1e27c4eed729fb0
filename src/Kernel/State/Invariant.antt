-- ===== src/Kernel/State/Invariant.antt =====
-- The invariant of the kernel: the lists, what a task's status says of its list, and the order of
-- the ready list and of the sleepers.
use mos_core.Prelude.{
  ℕ, ◌≡◌, refl, ◌≢◌, Bool, true, false, List, [], ◌∷◌, some, ◌≤◌, arith, ◌==◌, if◌then◌else◌,
  Bool-cases, inl, inr, sym, ap, ◌∙◌, ==_ne, ==_self, subst,
}
use mos_core.DataType.Sequence.{
  has, erase, IsSorted, IsSorted-erase_congr, IsSorted-insert_sorted, AllFrom-has,
}
use mos_core.Kernel.State.{
  Status, terminated, ready, running, blocked, Kernel, nodes_of, status_of, pri_of, wkpt_of,
  ready_list, sleeping_list, zombie_list, is_status, Tcb, update, set_tcb, send_to,
  send_to_in_order, pri_cmp, wkpt_cmp, first,
}
use mos_core.Kernel.State.Lists.{
  ListsOk, Moved, send_to-Moved, send_to_in_order-Moved, nodes-send_to_ne,
}

abbrev pub is_runnable : Status → Bool
is_runnable ready = true
is_runnable running = true
is_runnable _ = false

-- The status that a task has in a list.
abbrev pub fits : ℕ → Status → Bool
fits l s =
    if l == ready_list
    then is_runnable s
    else if l == zombie_list
    then is_status s terminated
    else is_status s blocked

-- The status of a task goes with the list that it is in, and only the current task is running.
pub record Homes (k : Kernel) : Type 0 where
  pub status_at : (t l : ℕ) → has t (nodes_of k l) ≡ true → fits l (status_of k t) ≡ true
  pub ready_home :
      (t : ℕ) → is_runnable (status_of k t) ≡ true → has t (nodes_of k ready_list) ≡ true
  pub one_runs : (t : ℕ) → status_of k t ≡ running → t ≡ k.cur_tcb

pub record IsValid (k : Kernel) : Type 0 where
  pub lists_ok : ListsOk k.lists
  pub homes : Homes k
  pub sorted : IsSorted (pri_of k) (nodes_of k ready_list)
  pub sleepers : IsSorted (wkpt_of k) (nodes_of k sleeping_list)

-- A task has moved to a list that fits its new status; the other tasks are as they were.
pub Homes-Moved :
    {k k' : Kernel} (t dest : ℕ)
    → Homes k
    → Moved k.lists k'.lists t dest
    → ((x : ℕ) → x ≢ t → status_of k' x ≡ status_of k x)
    → k'.cur_tcb ≡ k.cur_tcb
    → fits dest (status_of k' t) ≡ true
    → (status_of k' t ≡ running → t ≡ k.cur_tcb)
    → Homes k'
Homes-Moved {k} {k'} t dest h moved same cur fit runs = record {
  status_at = λ x l i. elim (Bool-cases (x == t)) [
    | inl e ↦
        let here : x ≡ t = ground arith in
        let there : l ≡ dest = ground (arith, moved.has_at x l) in rw (here, there) fit
    | inr e ↦
        let ne : x ≢ t = ground arith in
        rw (same x ne) (h.status_at x l (ground (arith, moved.has_at x l)))
  ];
  ready_home = λ x r. elim (Bool-cases (x == t)) [
    | inl e ↦
        let here : x ≡ t = ground arith in
        ground (arith, moved.has_at x ready_list, ap (λ a. status_of k' a) here, fit)
    | inr e ↦
        let ne : x ≢ t = ground arith in
        ground (arith, moved.has_at x ready_list, same x ne, h.ready_home x)
  ];
  one_runs = λ x r. elim (Bool-cases (x == t)) [
    | inl e ↦
        let here : x ≡ t = ground arith in
        here ∙ runs (sym (ap (λ a. status_of k' a) here) ∙ r) ∙ sym cur
    | inr e ↦ let ne : x ≢ t = ground arith in h.one_runs x (sym (same x ne) ∙ r) ∙ sym cur
  ];
}

-- The invariant reads the lists, the tasks and the current task alone.
pub IsValid-core :
    {k : Kernel} (k' : Kernel)
    → IsValid k
    → IsValid (record k' { lists = k.lists; tcbs = k.tcbs; cur_tcb = k.cur_tcb })
IsValid-core k' v = record {
  lists_ok = v.lists_ok;
  homes = record {
    status_at = v.homes.status_at;
    ready_home = v.homes.ready_home;
    one_runs = v.homes.one_runs;
  };
  sorted = v.sorted;
  sleepers = v.sleepers;
}

pub update_self : (f : ℕ → Tcb) (t : ℕ) (new : Tcb) → update f t new t ≡ new
update_self f t new = rw (==_self t)

pub update_ne : (f : ℕ → Tcb) (t x : ℕ) (new : Tcb) → x ≢ t → update f t new x ≡ f x
update_ne f t x new ne = rw (==_ne x t ne)

-- The first task of a sorted list has the smallest key.
pub first-le :
    (key : ℕ → ℕ) (xs : List ℕ) {s : ℕ} (x : ℕ)
    → IsSorted key xs
    → first xs ≡ some s
    → has x xs ≡ true
    → key s ≤ key x
first-le key [] x sorted e i = cc
first-le key (y ∷ ys) {s} x sorted e i =
    let here : y ≡ s = ground arith in
    subst (λ a. key a ≤ key x) here (ground (arith, AllFrom-has key (key y) x ys sorted.0))

module _ {k : Kernel} (v : IsValid k) (t : ℕ) (new : Tcb) where
  -- The ready list and the sleepers without a task whose TCB has been written.
  abbrev pub tcbs' : ℕ → Tcb
  tcbs' = update k.tcbs t new

  pub ready_list-IsSorted : IsSorted (λ x. (tcbs' x).pri) (erase t (nodes_of k ready_list))
  ready_list-IsSorted =
      IsSorted-erase_congr (pri_of k) (λ x. (tcbs' x).pri) t (nodes_of k ready_list)
        (λ x ne. ap (λ (u : Tcb). u.pri) (update_ne k.tcbs t x new ne))
        (v.lists_ok.distinct ready_list) v.sorted

  pub sleepers-IsSorted : IsSorted (λ x. (tcbs' x).wake_point) (erase t (nodes_of k sleeping_list))
  sleepers-IsSorted =
      IsSorted-erase_congr (wkpt_of k) (λ x. (tcbs' x).wake_point) t (nodes_of k sleeping_list)
        (λ x ne. ap (λ (u : Tcb). u.wake_point) (update_ne k.tcbs t x new ne))
        (v.lists_ok.distinct sleeping_list) v.sleepers

  -- The invariant after a move, from the order of the two lists that are kept in order.
  pub Moved-IsValid :
      (k' : Kernel) (dest : ℕ)
      → Moved k.lists k'.lists t dest
      → k'.tcbs ≡ tcbs'
      → k'.cur_tcb ≡ k.cur_tcb
      → fits dest new.status ≡ true
      → (new.status ≡ running → t ≡ k.cur_tcb)
      → IsSorted (λ x. (tcbs' x).pri) (nodes_of k' ready_list)
      → IsSorted (λ x. (tcbs' x).wake_point) (nodes_of k' sleeping_list)
      → IsValid k'
  Moved-IsValid k' dest moved tcbs cur fit runs sorted sleepers =
      let at = λ (x : ℕ). ap (λ (f : ℕ → Tcb). f x) tcbs in
      let here : status_of k' t ≡ new.status =
        ap (λ (u : Tcb). u.status) (at t ∙ update_self k.tcbs t new) in
      record {
        lists_ok = moved.ok;
        homes =
            Homes-Moved t dest v.homes moved
              (λ x ne. ap (λ (u : Tcb). u.status) (at x ∙ update_ne k.tcbs t x new ne)) cur
              (ap (fits dest) here ∙ fit) (λ r. runs (sym here ∙ r));
        sorted = subst (λ f. IsSorted (λ x. (f x).pri) (nodes_of k' ready_list)) (sym tcbs) sorted;
        sleepers =
            subst (λ f. IsSorted (λ x. (f x).wake_point) (nodes_of k' sleeping_list)) (sym tcbs)
              sleepers;
      }

  module _ (l : ℕ) (i : has t (nodes_of k l) ≡ true)
      (runs : new.status ≡ running → t ≡ k.cur_tcb) where
    -- A task gets a new TCB and moves to the end of a list that is not kept in order.
    pub send-IsValid :
        (dest : ℕ)
        → dest ≢ ready_list
        → dest ≢ sleeping_list
        → fits dest new.status ≡ true
        → IsValid (send_to (set_tcb k t new) l dest t)
    send-IsValid dest nr ns fit =
        let old = nodes-send_to_ne (set_tcb k t new) l dest t in
        Moved-IsValid _ dest (send_to-Moved (set_tcb k t new) l dest t v.lists_ok i) refl refl fit
          runs
          (subst (IsSorted (λ x. (tcbs' x).pri)) (sym (old ready_list (λ e. nr (sym e))))
            ready_list-IsSorted)
          (subst (IsSorted (λ x. (tcbs' x).wake_point)) (sym (old sleeping_list (λ e. ns (sym e))))
            sleepers-IsSorted)

    -- A task gets a new TCB and goes to its place in the ready list.
    pub ready-IsValid :
        is_runnable new.status ≡ true
        → IsValid (send_to_in_order (set_tcb k t new) l ready_list (pri_cmp (set_tcb k t new)) t)
    ready-IsValid fit =
        Moved-IsValid _ ready_list
          (send_to_in_order-Moved (set_tcb k t new) l ready_list t v.lists_ok i
            (pri_cmp (set_tcb k t new)))
          refl refl fit runs
          (IsSorted-insert_sorted (λ x. (tcbs' x).pri) t (erase t (nodes_of k ready_list))
            ready_list-IsSorted)
          sleepers-IsSorted

    -- A task gets a new TCB and goes to its place among the sleepers.
    pub sleep-IsValid :
        is_status new.status blocked ≡ true
        → IsValid
            (send_to_in_order (set_tcb k t new) l sleeping_list (wkpt_cmp (set_tcb k t new)) t)
    sleep-IsValid fit =
        Moved-IsValid _ sleeping_list
          (send_to_in_order-Moved (set_tcb k t new) l sleeping_list t v.lists_ok i
            (wkpt_cmp (set_tcb k t new)))
          refl refl fit runs ready_list-IsSorted
          (IsSorted-insert_sorted (λ x. (tcbs' x).wake_point) t (erase t (nodes_of k sleeping_list))
            sleepers-IsSorted)
