-- ===== src/Kernel/Sync/RxBuf.antt =====
-- kernel/data_type/buffer.hpp: `SyncRxBuf_t`, a buffer of received characters beside a semaphore. The
-- interrupt fills the buffer and signals; a task that receives waits, reads and clears.
use mos_core.Prelude.{ℕ, List, Option, none, some}
use mos_core.DataType.Buffer.{Buffer, clear}
use mos_core.Kernel.State.{Kernel}
use mos_core.Kernel.Sync.Sema.{Sema, down, up, up_from_isr}

pub record SyncRxBuf : Type 0 where
  pub buf : Buffer ℕ
  pub sema : Sema

-- The state of the kernel and the buffer with the semaphore that an operation leaves.
abbrev with_sema : SyncRxBuf → Option (Kernel × Sema) → Option (Kernel × SyncRxBuf)
with_sema b none = none
with_sema b (some (k, s)) = some (k, record b { sema = s })

unfoldable pub wait : Kernel → SyncRxBuf → Option (Kernel × SyncRxBuf)
wait k b = with_sema b (down k b.sema)

unfoldable pub signal : Kernel → SyncRxBuf → Option (Kernel × SyncRxBuf)
signal k b = with_sema b (up k b.sema)

unfoldable pub signal_from_isr : Kernel → SyncRxBuf → Option (Kernel × SyncRxBuf)
signal_from_isr k b = with_sema b (up_from_isr k b.sema)

-- The constructor and the destructor of the object that `recv` returns.
unfoldable pub recv_begin : Kernel → SyncRxBuf → Option (Kernel × SyncRxBuf)
unfolding wait
recv_begin k b = wait k b

unfoldable pub recv_end : SyncRxBuf → SyncRxBuf
recv_end b = record b { buf = clear 0 b.buf }

abbrev pub as_str : SyncRxBuf → List ℕ
as_str b = b.buf.raw
