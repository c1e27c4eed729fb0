-- ===== src/Kernel/Task/Create/Pool.antt =====
-- A task on a page of the pool, when the kernel's lists are the ones in memory.
use mos_core.Prelude.{
  ==_ne, ℕ, ◌>>=◌, ◌≡◌, refl, ◌≢◌, ◌⊎◌, inl, inr, true, false, List, some, arith, leb, ap, ◌∙◌,
}
use mos_core.DataType.Sequence.{has}
use mos_core.DataType.LinkedList.{Links}
use mos_core.DataType.LinkedList.Shape.{IsRing}
use mos_core.Kernel.State.{Kernel, pool_page, nodes_of, task_max}
use mos_core.Kernel.State.Invariant.{IsValid}
use mos_core.Kernel.Alloc.{unused, palloc}
use mos_core.Kernel.Alloc.Fresh.{palloc-Fresh}
use mos_core.Kernel.Task.{create_raw}
use mos_core.Kernel.Task.Create.{create_from_isr, page_words, page_alloc}
use mos_core.Kernel.Task.Create.Created.{Created, create_raw-Created}

-- The pointers in memory hold the kernel's lists, each at its head.
abbrev pub HoldsLists : Links → (heads : ℕ → ℕ) → Kernel → Type 0
HoldsLists h heads k = (l : ℕ) → IsRing h (heads l) (nodes_of k l)

module _ {h : Links} {heads : ℕ → ℕ} {k : Kernel} (page_pool : List ℕ) (new_page : ℕ → ℕ)
    (fn pri : ℕ) (v : IsValid k) (memory : HoldsLists h heads k)
    (addresses : has 0 page_pool ≡ false) (room : leb task_max k.debug_len ≡ false)
    (some_fn : fn ≢ 0) where
  -- With the kernel's lists in memory, the invariant, room in the table of tasks, and a function:
  -- `create_from_isr` gives a new task, ready and in the ready list, on a page of the pool that no task
  -- in a list has, as long as one is not used; otherwise it returns `nullptr` and changes nothing.
  pub create_from_isr-Created :
      ((create_from_isr h page_pool new_page k fn pri ≡ some (0, k))
        × ((x : ℕ) → has x page_pool ≡ true → unused h x ≡ false))
      ⊎ ((page : ℕ) × (k' : Kernel) × (create_from_isr h page_pool new_page k fn pri
            ≡ some (page, k'))
          × (has page page_pool ≡ true)
          × ((l : ℕ) → has page (nodes_of k l) ≡ false)
          × Created k k' pri page)
  unfolding create_from_isr page_alloc create_raw palloc
  create_from_isr-Created =
      let (raw, e, fresh) = palloc-Fresh h page_pool new_page page_words in
      let no_page : create_raw k fn pri pool_page 0 ≡ some (0, k) = rw (==_ne fn 0 some_fn) refl in
      let on_page = λ (a : ℕ). create_raw k fn pri pool_page a in
      elim fresh [
        | inl (z, all) ↦
            inl (
              ap (λ o. o >>= on_page) e ∙ ap (λ a. create_raw k fn pri pool_page a) z ∙ no_page,
              all,
            )
        | inr (i, out) ↦
            let nz : raw ≢ 0 = λ z. ground (arith, addresses, ap (λ a. has a page_pool) z, i) in
            let (k', made, c) =
              create_raw-Created pri pool_page raw v nz room
                (λ l. out (heads l) (nodes_of k l) (memory l)) fn some_fn in
            inr (
              raw,
              k',
              ap (λ o. o >>= on_page) e ∙ made,
              i,
              λ l. out (heads l) (nodes_of k l) (memory l),
              c,
            )
      ]
