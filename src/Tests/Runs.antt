-- ===== src/Tests/Runs.antt =====
-- The kernel of `Demo` after a tick and an `up_from_isr` of a semaphore, with the idle task 2.
use mos_core.Prelude.{◌≡◌, refl, some}
use mos_core.Kernel.State.{Kernel}
use mos_core.Kernel.State.Invariant.{IsValid}
use mos_core.Kernel.Task.{resume_raw, dec_tmslc, inc_ticks}
use mos_core.Kernel.Scheduler.{next_tcb, preempt_pri, sys_tick}
use mos_core.Kernel.Scheduler.Wake.{Woke}
use mos_core.Kernel.Scheduler.Choice.{Runs}
use mos_core.Kernel.System.{Reach, start, then_step, ticking, upping_from_isr}
use mos_core.Kernel.System.Sound.{Sound}
use mos_core.Kernel.System.Reachable.{Reach-Runs}
use mos_core.Kernel.Sync.Sema.{up_raw}
use mos_core.Tests.Waiting.{sema}
use mos_core.Tests.Demo.{demo, demo-IsValid}

abbrev woken : Kernel
woken = resume_raw (sys_tick demo) 5 10

demo-Sound : Sound 2 demo
demo-Sound = record { valid = demo-IsValid; listed = refl }

two_steps : Reach 2 demo woken
unfolding sys_tick inc_ticks dec_tmslc up_raw
two_steps = then_step (then_step start ticking) (upping_from_isr sema refl)

Reach-Runs_example :
    IsValid woken
    × ((k2 : Kernel) × (k1 : Kernel) × (next_tcb preempt_pri woken ≡ some k2)
        × Woke woken k1
        × Runs k1 k2)
Reach-Runs_example = Reach-Runs demo-Sound two_steps
