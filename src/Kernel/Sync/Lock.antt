-- ===== src/Kernel/Sync/Lock.antt =====
-- kernel/sync.hpp, `Lock_t`. `acquire` is `down` of the semaphore and, when it returns, `take`.
pub mod Ownership
use mos_core.Prelude.{ℕ, Option, none, some, ◌==◌, if◌then◌else◌}
use mos_core.Kernel.State.{Kernel}
use mos_core.Kernel.Sync.Sema.{Sema, down, up}

pub record Lock : Type 0 where
  pub sema : Sema
  pub owner : ℕ

unfoldable pub acquire : Kernel → Lock → Option (Kernel × Lock)
unfolding down
acquire k l = elim (down k l.sema) [
  | none ↦ none
  | some (k1, s1) ↦ some (k1, record l { sema = s1 })
]

-- `MOS_ASSERT(owner != current())` stops a task that holds the lock.
unfoldable pub take : Kernel → Lock → Option Lock
take k l = if l.owner == k.cur_tcb then none else some (record l { owner = k.cur_tcb })

unfoldable pub release : Kernel → Lock → Option (Kernel × Lock)
unfolding up
release k l =
    if l.owner == k.cur_tcb
    then elim (up k l.sema) [
      | none ↦ none
      | some (k1, s1) ↦ some (k1, record l { owner = 0; sema = s1 })
    ]
    else none
