-- ===== src/Kernel/Alloc.antt =====
-- kernel/alloc.hpp: `palloc`. The first word of a page is the pointer `prev` of the TCB in it.
pub mod Fresh
use mos_core.Prelude.{
  ℕ, ◌-◌, ◌^◌, Bool, ◌||◌, List, [], ◌∷◌, Option, none, some, ◌==◌, if◌then◌else◌,
}
use mos_core.DataType.LinkedList.{Links}
use mos_core.Kernel.State.{PagePolicy, static_page, pool_page, dynamic_page, error_page, no_tick}

-- Never allocated, or linked to itself since it was recycled.
abbrev pub unused : Links → ℕ → Bool
unused h raw = (h.prev raw == 0) || (h.prev raw == raw)

-- The first page of the pool that is not used, or `nullptr`.
unfoldable pub pool_alloc : Links → (page_pool : List ℕ) → ℕ
pool_alloc h [] = 0
pool_alloc h (raw ∷ raws) = if unused h raw then raw else pool_alloc h raws

-- `new_page` is what `new uint32_t[page_size]` returns; `none` is the failed assertion.
unfoldable pub palloc :
    Links → (page_pool : List ℕ) → (new_page : ℕ → ℕ) → PagePolicy → (page_size : ℕ) → Option ℕ
palloc h page_pool new_page policy page_size = elim policy [
  | pool_page ↦ some (pool_alloc h page_pool)
  | dynamic_page ↦ if page_size == no_tick then none else some (new_page page_size)
  | static_page ↦ some 0
  | error_page ↦ some 0
]
