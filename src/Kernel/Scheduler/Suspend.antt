-- ===== src/Kernel/Scheduler/Suspend.antt =====
-- kernel/scheduler.hpp, `SuspendGuard_t` and `is_ready`: the guard that suspends scheduling.
use mos_core.Prelude.{
  ℕ, ◌+◌, ◌-◌, ◌%◌, ◌^◌, ◌≡◌, ◌<◌, ◌≤◌, refl, Bool, true, false, arith, if◌then◌else◌, leb, ◌==◌,
}

-- The counter of guards, an `int32_t` as its value plus 2 ^ 31, and whether the status is `Ok`.
pub record Suspension : Type 0 where
  pub cnt : ℕ
  pub ok : Bool

abbrev pub no_guard : ℕ
no_guard = 2 ^ 31

unfoldable pub enter : Suspension → Suspension
enter s = record { cnt = (s.cnt + 1) % 2 ^ 32; ok = false }

unfoldable pub leave : Suspension → Suspension
leave s =
    let cnt = (s.cnt + 2 ^ 32 - 1) % 2 ^ 32 in
    record { cnt = cnt; ok = if leb cnt no_guard then true else s.ok }

abbrev pub is_ready : Suspension → Bool
is_ready s = s.ok

-- `suspend(section)`
unfoldable pub suspend : (Suspension → Suspension) → Suspension → Suspension
unfolding enter leave
suspend body s = leave (body (enter s))

-- A body that leaves the counter as it finds it and does not run with the scheduler on: behind it the
-- counter is as before, and the scheduler is on exactly if no other guard is there.
suspend-balanced :
    (body : Suspension → Suspension) (s : Suspension)
    → no_guard ≤ s.cnt
    → s.cnt + 1 < 2 ^ 32
    → ((t : Suspension) → t.ok ≡ false → ((body t).cnt ≡ t.cnt) × ((body t).ok ≡ false))
    → ((suspend body s).cnt ≡ s.cnt) × ((suspend body s).ok ≡ (s.cnt == no_guard))
unfolding suspend enter leave
suspend-balanced body s low high inner =
    let (same, off) = inner (enter s) refl in (omega (arith, same), ground (arith, same, off))
