-- ===== src/Kernel/Sync/Placed.antt =====
-- What blocking and resuming keep of the task lists when a priority may be out of its place in the
-- ready list, as kernel/sync.hpp leaves it, and what they do to the list that tasks wait in.
use mos_core.Prelude.{
  ℕ, ◌≡◌, refl, ◌≢◌, Bool, true, false, List, [], ◌∷◌, ◌++◌, arith, ◌==◌, Bool-cases, inl, inr, sym,
  ap, ◌∙◌, ==_ne, ==_self,
}
use mos_core.DataType.Sequence.{has, erase}
use mos_core.Kernel.State.{
  Status, ready, running, blocked, Tcb, Kernel, nodes_of, status_of, ready_list, set_tcb, update,
  pri_cmp,
}
use mos_core.Kernel.State.Lists.{erase-elsewhere, ListsOk, send_to-Moved, send_to_in_order-Moved}
use mos_core.Kernel.State.Invariant.{
  is_runnable, fits, Homes, IsValid, Homes-Moved, update_self, update_ne,
}
use mos_core.Kernel.Task.{block_to_raw, resume_raw, yield_if}
use mos_core.Kernel.Task.Block.{IsQueue, fits_blocked}

pub record IsPlaced (k : Kernel) : Type 0 where
  pub lists_ok : ListsOk k.lists
  pub homes : Homes k

pub IsValid-IsPlaced : {k : Kernel} → IsValid k → IsPlaced k
IsValid-IsPlaced v = record { lists_ok = v.lists_ok; homes = v.homes }

-- Neither the PendSV bit nor the ticks matter.
pub yield_if-IsPlaced : {k : Kernel} (b : Bool) → IsPlaced k → IsPlaced (yield_if b k)
yield_if-IsPlaced true p = record {
  lists_ok = p.lists_ok;
  homes = record {
    status_at = p.homes.status_at;
    ready_home = p.homes.ready_home;
    one_runs = p.homes.one_runs;
  };
}
yield_if-IsPlaced false p = p

-- A TCB written with a member as it was.
pub same_member {ℓ} :
    {A : Type ℓ} (k : Kernel) (t : ℕ) (new : Tcb) (f : Tcb → A)
    → f new ≡ f (k.tcbs t)
    → (x : ℕ) → f (update k.tcbs t new x) ≡ f (k.tcbs x)
same_member k t new f e x = elim (Bool-cases (x == t)) [
  | inl h ↦ let here : x ≡ t = ground arith in rw h (e ∙ ap (λ a. f (k.tcbs a)) (sym here))
  | inr h ↦ rw h
]

pub same_status :
    (k : Kernel) (t : ℕ) (new : Tcb)
    → new.status ≡ status_of k t
    → (x : ℕ) → status_of (set_tcb k t new) x ≡ status_of k x
same_status k t new = same_member k t new (λ u. u.status)

pub set_tcb-IsPlaced :
    {k : Kernel} (t : ℕ) (new : Tcb)
    → new.status ≡ status_of k t
    → IsPlaced k
    → IsPlaced (set_tcb k t new)
set_tcb-IsPlaced {k} t new e p = record {
  lists_ok = p.lists_ok;
  homes = record {
    status_at = λ x l i. ap (fits l) (same_status k t new e x) ∙ p.homes.status_at x l i;
    ready_home = λ x r. p.homes.ready_home x (ap is_runnable (sym (same_status k t new e x)) ∙ r);
    one_runs = λ x r. p.homes.one_runs x (sym (same_status k t new e x) ∙ r);
  };
}

ready-ne : ◌≡◌ {A = Status} ready running → ⊥
ready-ne e = cc

blocked-ne : ◌≡◌ {A = Status} blocked running → ⊥
blocked-ne e = cc

module _ {k : Kernel} (t : ℕ) (p : IsPlaced k) where
  pub block_to_raw-IsPlaced :
      has t (nodes_of k ready_list) ≡ true
      → (dest : ℕ) → IsQueue dest
      → IsPlaced (block_to_raw k t dest)
  unfolding block_to_raw
  block_to_raw-IsPlaced i dest q =
      let new = record (k.tcbs t) { status = blocked } in
      let self = update_self k.tcbs t new in
      let m = send_to-Moved (set_tcb k t new) ready_list dest t p.lists_ok i in
      record {
        lists_ok = m.ok;
        homes =
            Homes-Moved t dest p.homes m
              (λ x ne. ap (λ (u : Tcb). u.status) (update_ne k.tcbs t x new ne)) refl
              (ap (λ (u : Tcb). fits dest u.status) self ∙ fits_blocked dest q)
              (λ r. absurd (blocked-ne (sym (ap (λ (u : Tcb). u.status) self) ∙ r)));
      }

  -- The tasks that wait in a list stand in the order in which they came.
  pub nodes-block_to_raw :
      has t (nodes_of k ready_list) ≡ true
      → (dest : ℕ) → dest ≢ ready_list
      → nodes_of (block_to_raw k t dest) dest ≡ nodes_of k dest ++ t ∷ []
  unfolding block_to_raw
  nodes-block_to_raw i dest ne =
      rw (==_self dest, nodes_of)
        (ap (λ xs. xs ++ t ∷ []) (erase-elsewhere ready_list dest t p.lists_ok i ne))

  pub resume_raw-IsPlaced : (l : ℕ) → has t (nodes_of k l) ≡ true → IsPlaced (resume_raw k t l)
  unfolding resume_raw
  resume_raw-IsPlaced l i =
      let new = record (k.tcbs t) { status = ready } in
      let self = update_self k.tcbs t new in
      let m =
        send_to_in_order-Moved (set_tcb k t new) l ready_list t p.lists_ok i
          (pri_cmp (set_tcb k t new)) in
      record {
        lists_ok = m.ok;
        homes =
            Homes-Moved t ready_list p.homes m
              (λ x ne. ap (λ (u : Tcb). u.status) (update_ne k.tcbs t x new ne)) refl
              (ap (λ (u : Tcb). is_runnable u.status) self)
              (λ r. absurd (ready-ne (sym (ap (λ (u : Tcb). u.status) self) ∙ r)));
      }

  -- The first task of the list leaves the others in their order.
  pub nodes-resume_raw :
      (src : ℕ) (ts : List ℕ)
      → src ≢ ready_list
      → nodes_of k src ≡ t ∷ ts
      → nodes_of (resume_raw k t src) src ≡ ts
  unfolding resume_raw erase
  nodes-resume_raw src ts ne e =
      rw (==_ne src ready_list ne, nodes_of) (ap (erase t) e ∙ rw (==_self t))
