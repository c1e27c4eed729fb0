-- ===== src/Kernel/Task/Create.antt =====
-- kernel/task.hpp: `page_alloc`, the functions `create` and `create_from_isr`.
-- The memory `h`, in which the first word of a page is a pointer of a TCB, stands beside the state of
-- the kernel. `new_page` is what `new uint32_t[page_size]` returns. An interrupt between the
-- allocation of the page and the creation of the task is not part of the model.
pub mod Created
pub mod Pool
use mos_core.Prelude.{ℕ, ◌≡◌, ◌>>=◌, List, [], ◌∷◌, Option, none, some}
use mos_core.DataType.LinkedList.{Links}
use mos_core.Kernel.State.{PagePolicy, pool_page, dynamic_page, Kernel}
use mos_core.Kernel.Page.{Page}
use mos_core.Kernel.Alloc.{palloc}
use mos_core.Kernel.Task.{create_raw, create_impl}

-- `MOS_CONF_PAGE_SIZE / sizeof(uint32_t)`
abbrev pub page_words : ℕ
page_words = 256

module _ (h : Links) (page_pool : List ℕ) (new_page : ℕ → ℕ) where
  -- `none` is the failed assertion in `palloc`.
  unfoldable pub page_alloc : PagePolicy → (size : ℕ) → Option Page
  page_alloc policy size = do
    raw ← palloc h page_pool new_page policy size
    some (record { policy = policy; raw = raw; size = size })

  -- From memory of the caller.
  unfoldable pub create : Kernel → (fn pri : ℕ) → Page → Option (ℕ × Kernel)
  create k fn pri page = create_impl k fn pri page.policy page.raw

  -- From the pool.
  unfoldable pub create_pool : Kernel → (fn pri : ℕ) → Option (ℕ × Kernel)
  unfolding page_alloc create
  create_pool k fn pri = do page ← page_alloc pool_page page_words; create k fn pri page

  -- From the heap.
  unfoldable pub create_dynamic : Kernel → (fn pri page_size : ℕ) → Option (ℕ × Kernel)
  unfolding page_alloc create
  create_dynamic k fn pri page_size = do
    page ← page_alloc dynamic_page page_size
    create k fn pri page

  unfoldable pub create_from_isr : Kernel → (fn pri : ℕ) → Option (ℕ × Kernel)
  unfolding page_alloc
  create_from_isr k fn pri = do
    page ← page_alloc pool_page page_words
    create_raw k fn pri page.policy page.raw
