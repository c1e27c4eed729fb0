-- ===== src/Kernel/Scheduler/Restate.antt =====
-- Changes of status alone: what `switch_to` and the branches before it do to the tasks.
use mos_core.Prelude.{
  ℕ, ◌≡◌, refl, ◌≢◌, true, ◌⊎◌, arith, ◌==◌, Bool-cases, inl, inr, sym, ap, ◌∙◌, subst, fun_ext,
}
use mathlib.Core.Path.{subst₂}
use mos_core.DataType.Sequence.{has, IsSorted}
use mos_core.Kernel.State.{
  Status, ready, running, Kernel, Tcb, TcbList, nodes_of, status_of, pri_of, wkpt_of, ready_list,
  sleeping_list, set_tcb, update,
}
use mos_core.Kernel.State.Lists.{ListsOk}
use mos_core.Kernel.State.Invariant.{IsValid, is_runnable, fits}
use mos_core.Kernel.Scheduler.{switch_to}

-- Only statuses have changed, from runnable to runnable.
pub record Restated (k k' : Kernel) : Type 0 where
  pub lists : k'.lists ≡ k.lists
  pub pris : (x : ℕ) → pri_of k' x ≡ pri_of k x
  pub wkpts : (x : ℕ) → wkpt_of k' x ≡ wkpt_of k x
  pub states :
      (x : ℕ)
      → (status_of k' x ≡ status_of k x)
        ⊎ ((is_runnable (status_of k' x) ≡ true) × (is_runnable (status_of k x) ≡ true))

-- Nobody but the current task is running.
abbrev pub OneRuns : Kernel → Type 0
OneRuns k = (x : ℕ) → status_of k x ≡ running → x ≡ k.cur_tcb

pub fits_runnable :
    (l : ℕ) (s s' : Status) → is_runnable s ≡ true → is_runnable s' ≡ true → fits l s ≡ fits l s'
fits_runnable l s s' r r' = ground arith

pub Restated-IsValid : {k k' : Kernel} → IsValid k → Restated k k' → OneRuns k' → IsValid k'
Restated-IsValid {k} {k'} v r one = record {
  lists_ok = subst ListsOk (sym r.lists) v.lists_ok;
  homes = record {
    status_at = λ x l i.
        let j : has x (nodes_of k l) ≡ true =
          ap (λ (f : ℕ → TcbList). has x (f l).nodes) (sym r.lists) ∙ i in
        elim (r.states x) [
          | inl e ↦ ap (fits l) e ∙ v.homes.status_at x l j
          | inr (n, o) ↦ fits_runnable l _ _ n o ∙ v.homes.status_at x l j
        ];
    ready_home = λ x n.
        ap (λ (f : ℕ → TcbList). has x (f ready_list).nodes) r.lists ∙ elim (r.states x) [
          | inl e ↦ v.homes.ready_home x (ap is_runnable (sym e) ∙ n)
          | inr (_, o) ↦ v.homes.ready_home x o
        ];
    one_runs = one;
  };
  sorted =
      subst₂ (λ f l. IsSorted f (l ready_list).nodes) (sym (fun_ext r.pris)) (sym r.lists) v.sorted;
  sleepers =
      subst₂ (λ f l. IsSorted f (l sleeping_list).nodes) (sym (fun_ext r.wkpts)) (sym r.lists)
        v.sleepers;
}

pub Restated-refl : (k : Kernel) → Restated k k
Restated-refl k = record {
  lists = refl;
  pris = λ x. refl;
  wkpts = λ x. refl;
  states = λ x. inl refl;
}

pub Restated-trans : {a b c : Kernel} → Restated a b → Restated b c → Restated a c
Restated-trans {a} {b} {c} p q = record {
  lists = q.lists ∙ p.lists;
  pris = λ x. q.pris x ∙ p.pris x;
  wkpts = λ x. q.wkpts x ∙ p.wkpts x;
  states = λ x. elim (q.states x) [
    | inl e ↦ elim (p.states x) [ inl f ↦ inl (e ∙ f) | inr (n, o) ↦ inr (ap is_runnable e ∙ n, o) ]
    | inr (n, o) ↦ elim (p.states x) [
      | inl f ↦ inr (n, ap is_runnable (sym f) ∙ o)
      | inr (_, o') ↦ inr (n, o')
    ]
  ];
}

-- The state of a runnable task is written over.
pub Restated-set :
    (k : Kernel) (t : ℕ) (new : Tcb)
    → new.pri ≡ pri_of k t
    → new.wake_point ≡ wkpt_of k t
    → is_runnable new.status ≡ true
    → is_runnable (status_of k t) ≡ true
    → Restated k (set_tcb k t new)
Restated-set k t new p w n o = record {
  lists = refl;
  pris = λ x. written x (λ (u : Tcb). u.pri) p;
  wkpts = λ x. written x (λ (u : Tcb). u.wake_point) w;
  states = λ x. elim (Bool-cases (x == t)) [
    | inl e ↦
        let here : x ≡ t = ground arith in
        inr (rw (e, status_of) n, ap (λ a. is_runnable (status_of k a)) here ∙ o)
    | inr e ↦ inl (rw (e, status_of))
  ];
}
  where
    written :
        (x : ℕ) (f : Tcb → ℕ) → f new ≡ f (k.tcbs t) → f (update k.tcbs t new x) ≡ f (k.tcbs x)
    written x f e = elim (Bool-cases (x == t)) [
      | inl y ↦ let here : x ≡ t = ground arith in rw y (e ∙ ap (λ a. f (k.tcbs a)) (sym here))
      | inr y ↦ rw y
    ]

pub switch_to-Restated :
    (k : Kernel) (t : ℕ) → is_runnable (status_of k t) ≡ true → Restated k (switch_to k t)
unfolding switch_to
switch_to-Restated k t o =
    let r = Restated-set k t (record (k.tcbs t) { status = running }) refl refl refl o in
    record { lists = r.lists; pris = r.pris; wkpts = r.wkpts; states = r.states }

pub switch_to-OneRuns :
    (k : Kernel) (t : ℕ) → ((x : ℕ) → status_of k x ≢ running) → OneRuns (switch_to k t)
unfolding switch_to
switch_to-OneRuns k t idle x r = elim (Bool-cases (x == t)) [
  | inl e ↦ ground arith
  | inr e ↦ absurd (idle x (rw (e, status_of) at r))
]

-- Once the current task does not run, nobody does.
pub none_runs :
    {k : Kernel} → IsValid k → status_of k k.cur_tcb ≢ running → (x : ℕ) → status_of k x ≢ running
none_runs {k} v stopped x r = stopped (ap (status_of k) (sym (v.homes.one_runs x r)) ∙ r)

pub none_runs-set :
    {k : Kernel} (new : Tcb)
    → IsValid k
    → new.status ≡ ready
    → (x : ℕ) → status_of (set_tcb k k.cur_tcb new) x ≢ running
none_runs-set {k} new v s x r = elim (Bool-cases (x == k.cur_tcb)) [
  | inl e ↦ let was : new.status ≡ running = rw (e, status_of) at r in cc
  | inr e ↦
      let was : status_of k x ≡ running = rw (e, status_of) at r in
      let cur = v.homes.one_runs x was in ground arith
]

pub Restated-runnable :
    {k k' : Kernel} (x : ℕ)
    → Restated k k'
    → is_runnable (status_of k x) ≡ true
    → is_runnable (status_of k' x) ≡ true
Restated-runnable x r o = elim (r.states x) [ inl e ↦ ap is_runnable e ∙ o | inr (n, _) ↦ n ]
