-- ===== src/Tests/Creation.antt =====
-- kernel/task.hpp: new tasks in the kernel of `Demo`, whose lists are in memory.
use mos_core.Prelude.{
  ℕ, ◌+◌, ◌≡◌, refl, ◌⊎◌, inl, inr, true, false, [], ◌∷◌, some, arith, ◌==◌, if◌then◌else◌,
  Bool-cases, leb, subst, sym,
}
use mos_core.DataType.Sequence.{has}
use mos_core.DataType.LinkedList.{Links}
use mos_core.DataType.LinkedList.Shape.{IsRing}
use mos_core.Kernel.State.{Kernel, dynamic_page, nodes_of}
use mos_core.Kernel.State.Lists.{Homeless}
use mos_core.Kernel.State.Invariant.{IsValid}
use mos_core.Kernel.Alloc.{unused}
use mos_core.Kernel.Task.{create_impl}
use mos_core.Kernel.Task.Create.{create_from_isr}
use mos_core.Kernel.Task.Create.Created.{Created}
use mos_core.Kernel.Task.Create.Pool.{HoldsLists, create_from_isr-Created}
use mos_core.Kernel.Scheduler.{pend_sv, preempt_pri}
use mos_core.Kernel.Scheduler.Wake.{is_due}
use mos_core.Kernel.System.Preemption.{create_impl-preempts}
use mos_core.Tests.Demo.{demo, demo-IsValid}

unlisted : (t : ℕ) → leb 6 t ≡ true → Homeless demo.lists t
unlisted t large m = ground arith

create_impl-preempts_example :
    (k' : Kernel) × (k2 : Kernel) × (create_impl demo 0x800 120 dynamic_page 7 ≡ some (7, k'))
    × (pend_sv preempt_pri k' ≡ some k2)
    × IsValid k2
    × ((k2.cur_tcb ≡ 7) ⊎ (is_due k' k2.cur_tcb ≡ true))
create_impl-preempts_example =
    create_impl-preempts 0x800 120 dynamic_page 7 demo-IsValid refl (omega arith) (omega arith) refl
      (unlisted 7 refl) refl (λ x i. ground arith)

-- The head of the list `l` is at 100 + l.
abbrev memory : Links
memory = record {
  next = λ p.
      if p == 100
      then 1
      else if p == 1
      then 2
      else if p == 2
      then 100
      else if p == 101
      then 4
      else if p == 4
      then 101
      else if p == 102
      then 3
      else if p == 3
      then 102
      else if p == 110
      then 5
      else if p == 5
      then 110
      else p;
  prev = λ p.
      if p == 100
      then 2
      else if p == 2
      then 1
      else if p == 1
      then 100
      else if p == 101
      then 4
      else if p == 4
      then 101
      else if p == 102
      then 3
      else if p == 3
      then 102
      else if p == 110
      then 5
      else if p == 5
      then 110
      else p;
}

at_list :
    (l n : ℕ)
    → (l == n) ≡ true
    → IsRing memory (100 + n) (nodes_of demo n)
    → IsRing memory (100 + l) (nodes_of demo l)
at_list l n e r =
    let here : n ≡ l = ground arith in subst (λ a. IsRing memory (100 + a) (nodes_of demo a)) here r

empty_list :
    (l : ℕ)
    → nodes_of demo l ≡ []
    → memory.next (100 + l) ≡ 100 + l
    → memory.prev (100 + l) ≡ 100 + l
    → IsRing memory (100 + l) (nodes_of demo l)
empty_list l e next prev =
    subst (IsRing memory (100 + l)) (sym e) record {
      chain = (next, prev);
      apart = refl;
      distinct = ground arith;
      not_null = ground arith;
    }

memory-HoldsLists : HoldsLists memory (λ l. 100 + l) demo
memory-HoldsLists l = elim (Bool-cases (l == 0)) [
  | inl e ↦ at_list l 0 e (record {
    chain = ((refl, refl), ((refl, refl), (refl, refl)));
    apart = refl;
    distinct = ground arith;
    not_null = refl;
  })
  | inr e ↦ elim (Bool-cases (l == 1)) [
    | inl e1 ↦ at_list l 1 e1 (record {
      chain = ((refl, refl), (refl, refl));
      apart = refl;
      distinct = ground arith;
      not_null = refl;
    })
    | inr e1 ↦ elim (Bool-cases (l == 2)) [
      | inl e2 ↦ at_list l 2 e2 (record {
        chain = ((refl, refl), (refl, refl));
        apart = refl;
        distinct = ground arith;
        not_null = refl;
      })
      | inr e2 ↦ elim (Bool-cases (l == 10)) [
        | inl e3 ↦ at_list l 10 e3 (record {
          chain = ((refl, refl), (refl, refl));
          apart = refl;
          distinct = ground arith;
          not_null = refl;
        })
        | inr e3 ↦ empty_list l (ground arith) (ground arith) (ground arith)
      ]
    ]
  ]
]

create_from_isr-Created_example :
    ((create_from_isr memory (1 ∷ 200 ∷ []) (λ n. 0) demo 0x800 140 ≡ some (0, demo))
      × ((x : ℕ) → has x (1 ∷ 200 ∷ []) ≡ true → unused memory x ≡ false))
    ⊎ ((page : ℕ) × (k' : Kernel) × (create_from_isr memory (1 ∷ 200 ∷ []) (λ n. 0) demo 0x800 140
          ≡ some (page, k'))
        × (has page (1 ∷ 200 ∷ []) ≡ true)
        × ((l : ℕ) → has page (nodes_of demo l) ≡ false)
        × Created demo k' 140 page)
create_from_isr-Created_example =
    create_from_isr-Created (1 ∷ 200 ∷ []) (λ n. 0) 0x800 140 demo-IsValid memory-HoldsLists refl
      refl (omega arith)
