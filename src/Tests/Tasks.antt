-- ===== src/Tests/Tasks.antt =====
-- kernel/task.hpp at the kernel of `Demo`.
use mos_core.Prelude.{ℕ, suc, ◌≡◌, refl, ◌≢◌, true, some, arith, length, [], ◌∷◌}
use mos_core.DataType.Sequence.{insert_sorted}
use mos_core.DataType.BitMap.{first_zero}
use mos_core.Kernel.State.{
  ready, Kernel, nodes_of, status_of, pri_of, wkpt_of, ready_list, dynamic_page,
}
use mos_core.Kernel.State.Invariant.{IsValid}
use mos_core.Kernel.Task.{
  delay, resume, change_pri, terminate, terminate_raw, create_task, home_guess, tid_alloc,
}
use mos_core.Kernel.Task.Block.{BlockedAt, delay-BlockedAt}
use mos_core.Kernel.Task.Resume.{ResumedAt, Preempts, resume-ResumedAt, change_pri-IsValid}
use mos_core.Kernel.Task.Lifecycle.{EndedIn, terminate-EndedIn, terminate_raw-miscounts}
use mos_core.Tests.Demo.{demo, demo-IsValid}

delay-BlockedAt_example :
    (k' : Kernel) × (delay demo 20 ≡ some k') × BlockedAt demo k' 1 2 × (wkpt_of k' 1 ≡ 25)
delay-BlockedAt_example = delay-BlockedAt 20 demo-IsValid refl (omega arith) refl

resume-ResumedAt_example :
    (k' : Kernel) × (resume demo 5 10 ≡ some k') × ResumedAt demo k' 5 × Preempts k'
resume-ResumedAt_example = resume-ResumedAt 5 10 demo-IsValid refl (omega arith) refl refl

change_pri-IsValid_example :
    (k' : Kernel) × (change_pri demo 2 129 ≡ some k')
    × IsValid k'
    × (pri_of k' 2 ≡ 129)
    × (status_of k' 2 ≡ ready)
    × ((x : ℕ) → x ≢ 2 → k'.tcbs x ≡ demo.tcbs x)
    × Preempts k'
change_pri-IsValid_example = change_pri-IsValid 2 129 demo-IsValid refl refl

terminate-EndedIn_example :
    (k' : Kernel) × (terminate demo 1 ≡ some k') × EndedIn demo k' 1 × (k'.pend ≡ true)
unfolding home_guess
terminate-EndedIn_example = terminate-EndedIn 1 demo-IsValid refl (omega arith) refl refl

terminate_raw-miscounts_example :
    ((terminate_raw demo 5).lists 10).len ≡ suc (length (nodes_of (terminate_raw demo 5) 10))
terminate_raw-miscounts_example =
    terminate_raw-miscounts 5 10 demo-IsValid refl (omega arith) refl (omega arith) (omega arith)

-- The new task of the highest priority is the first one of the ready list.
created_first : nodes_of (create_task demo 128 dynamic_page 7).1 ready_list ≡ 7 ∷ 1 ∷ 2 ∷ []
unfolding create_task tid_alloc first_zero insert_sorted
created_first = refl
