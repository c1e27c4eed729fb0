-- ===== src/Tests/Switches.antt =====
-- kernel/scheduler.hpp at the kernel of `Demo`.
use mos_core.Prelude.{◌≡◌, refl, some, arith}
use mos_core.Kernel.State.{Kernel}
use mos_core.Kernel.Scheduler.{next_tcb, preempt_pri, wake_up_sleeper}
use mos_core.Kernel.Scheduler.Wake.{Woke, wake_up_sleeper-Woke}
use mos_core.Kernel.Scheduler.Choice.{Runs, next_tcb-Runs}
use mos_core.Tests.Demo.{demo, demo-IsValid}

next_tcb-Runs_example :
    (k' : Kernel) × (k1 : Kernel) × (next_tcb preempt_pri demo ≡ some k')
    × Woke demo k1
    × Runs k1 k'
next_tcb-Runs_example = next_tcb-Runs 2 demo-IsValid refl

wake_up_sleeper-Woke_example : (k' : Kernel) × (wake_up_sleeper 2 demo ≡ some k') × Woke demo k'
wake_up_sleeper-Woke_example = wake_up_sleeper-Woke 2 demo-IsValid (omega arith)
