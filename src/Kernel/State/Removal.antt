-- ===== src/Kernel/State/Removal.antt =====
-- A task that leaves its list for good, and one that enters its first list.
use mos_core.Prelude.{
  ℕ, ◌≡◌, refl, ◌≢◌, true, [], ◌∷◌, ◌++◌, arith, ◌==◌, length-append, Bool-cases, inl, inr, sym, ap,
  ◌∙◌, ==_ne, subst, append-nil,
}
use mos_core.DataType.Sequence.{
  has, has-append, Distinct-insert, erase_absent, IsSorted, insert_sorted, has-insert_sorted,
  Distinct-insert_sorted, length-insert_sorted, IsSorted-insert_sorted,
}
use mos_core.Kernel.State.{
  Status, terminated, ready, running, Tcb, Kernel, nodes_of, status_of, ready_list, sleeping_list,
  update, set_tcb, remove_from, add_to, insert_in_order, pri_cmp,
}
use mos_core.Kernel.State.Lists.{Homeless, has-without, without-ListsOk, grown-Moved}
use mos_core.Kernel.State.Invariant.{
  IsValid, is_runnable, fits, update_self, update_ne, ready_list-IsSorted, sleepers-IsSorted,
  Moved-IsValid,
}

-- A task leaves its list, with a status that no list asks for.
pub remove-IsValid :
    {k : Kernel} (l t : ℕ) (new : Tcb)
    → IsValid k
    → has t (nodes_of k l) ≡ true
    → new.status ≡ terminated
    → IsValid (remove_from (set_tcb k t new) l t)
remove-IsValid {k} l t new v i s = record {
  lists_ok = without-ListsOk v.lists_ok l t i;
  homes = record {
    status_at = λ x m j.
        let ne : x ≢ t = λ e. ground (arith, has-without v.lists_ok l t x m, e) in
        ap (λ (u : Tcb). fits m u.status) (update_ne k.tcbs t x new ne)
        ∙ v.homes.status_at x m (ground (arith, has-without v.lists_ok l t x m));
    ready_home = λ x r.
        let ne : x ≢ t = λ e. ground (
          arith,
          ap (λ a. is_runnable (update k.tcbs t new a).status) e,
          ap (λ (u : Tcb). is_runnable u.status) (update_self k.tcbs t new),
        ) in
        let old : is_runnable (status_of k x) ≡ true =
          ap (λ (u : Tcb). is_runnable u.status) (sym (update_ne k.tcbs t x new ne)) ∙ r in
        ground (arith, has-without v.lists_ok l t x ready_list, v.homes.ready_home x old);
    one_runs = λ x r. elim (Bool-cases (x == t)) [
      | inl e ↦
          let here : x ≡ t = ground arith in
          absurd (
            terminated-ne (
              sym s
              ∙ ap (λ (u : Tcb). u.status) (sym (update_self k.tcbs t new))
              ∙ ap (λ a. (update k.tcbs t new a).status) (sym here)
              ∙ r))
      | inr e ↦
          let ne : x ≢ t = ground arith in
          v.homes.one_runs x (ap (λ (u : Tcb). u.status) (sym (update_ne k.tcbs t x new ne)) ∙ r)
    ];
  };
  sorted = ready_list-IsSorted v t new;
  sleepers = sleepers-IsSorted v t new;
}
  where
    terminated-ne : ◌≡◌ {A = Status} terminated running → ⊥
    terminated-ne e = cc

-- A task in no list gets a TCB and goes to the end of a list that is not kept in order.
pub add-IsValid :
    {k : Kernel} (dest t : ℕ) (new : Tcb)
    → IsValid k
    → Homeless k.lists t
    → dest ≢ ready_list
    → dest ≢ sleeping_list
    → fits dest new.status ≡ true
    → (new.status ≡ running → t ≡ k.cur_tcb)
    → IsValid (add_to (set_tcb k t new) dest t)
add-IsValid {k} dest t new v out nr ns fit runs =
    let xs = nodes_of k dest in
    let moved =
      grown-Moved v.lists_ok dest t (xs ++ t ∷ []) out
        (λ x. ground (arith, has-append x xs (t ∷ [])))
        (Distinct-insert t xs [] (rw append-nil (out dest))
          (rw append-nil (v.lists_ok.distinct dest)))
        (omega (arith, length-append xs (t ∷ []))) in
    let ready_kept =
      subst (IsSorted (λ x. (update k.tcbs t new x).pri)) (erase_absent t _ (out ready_list))
        (ready_list-IsSorted v t new) in
    let sleepers_kept =
      subst (IsSorted (λ x. (update k.tcbs t new x).wake_point))
        (erase_absent t _ (out sleeping_list)) (sleepers-IsSorted v t new) in
    Moved-IsValid v t new _ dest moved refl refl fit runs
      (subst (IsSorted (λ x. (update k.tcbs t new x).pri))
        (sym (nodes-add_ne (set_tcb k t new) dest t ready_list (λ e. nr (sym e)))) ready_kept)
      (subst (IsSorted (λ x. (update k.tcbs t new x).wake_point))
        (sym (nodes-add_ne (set_tcb k t new) dest t sleeping_list (λ e. ns (sym e)))) sleepers_kept)
  where
    nodes-add_ne :
        (k : Kernel) (dest t m : ℕ) → m ≢ dest → nodes_of (add_to k dest t) m ≡ nodes_of k m
    nodes-add_ne k dest t m ne = rw (==_ne m dest ne, nodes_of)

-- A task in no list gets a TCB and goes to its place in the ready list.
pub create-IsValid :
    {k : Kernel} (t : ℕ) (new : Tcb)
    → IsValid k
    → Homeless k.lists t
    → new.status ≡ ready
    → IsValid (insert_in_order (set_tcb k t new) ready_list (pri_cmp (set_tcb k t new)) t)
create-IsValid {k} t new v out s =
    let cmp = pri_cmp (set_tcb k t new) in
    let xs = nodes_of k ready_list in
    Moved-IsValid v t new _ ready_list
      (grown-Moved v.lists_ok ready_list t (insert_sorted cmp t xs) out
        (λ x. has-insert_sorted cmp x t xs)
        (Distinct-insert_sorted cmp t xs (out ready_list) (v.lists_ok.distinct ready_list))
        (length-insert_sorted cmp t xs))
      refl refl (ap is_runnable s) (λ e. absurd (ready-ne (sym s ∙ e)))
      (IsSorted-insert_sorted (λ x. (update k.tcbs t new x).pri) t xs
        (subst (IsSorted (λ x. (update k.tcbs t new x).pri)) (erase_absent t _ (out ready_list))
          (ready_list-IsSorted v t new)))
      (subst (IsSorted (λ x. (update k.tcbs t new x).wake_point))
        (erase_absent t _ (out sleeping_list)) (sleepers-IsSorted v t new))
  where
    ready-ne : ◌≡◌ {A = Status} ready running → ⊥
    ready-ne e = cc
