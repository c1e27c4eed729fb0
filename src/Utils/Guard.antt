-- ===== src/Utils/Guard.antt =====
-- kernel/utils.hpp, `IrqGuard_t`: nested critical sections.
use mos_core.Prelude.{
  ℕ, suc, ◌+◌, ◌-◌, ◌%◌, ◌^◌, ◌<◌, ◌≡◌, refl, Bool, true, false, not, arith, ◌==◌, if◌then◌else◌,
  leb, max, ◌∙◌,
}

-- The nesting counter, an `int32_t` as its value plus 2 ^ 31, and whether interrupts are disabled.
pub record Irq : Type 0 where
  pub cnt : ℕ
  pub masked : Bool

abbrev pub no_guard : ℕ
no_guard = 2 ^ 31

unfoldable pub enter : Irq → Irq
enter s = record { cnt = (s.cnt + 1) % 2 ^ 32; masked = true }

unfoldable pub leave : Irq → Irq
leave s =
    let cnt = (s.cnt + 2 ^ 32 - 1) % 2 ^ 32 in
    record { cnt = cnt; masked = if leb cnt no_guard then false else s.masked }

-- Code with guards: nothing, or a guarded block and what comes behind it.
pub data Block : Type 0 where
  done : Block
  guarded : (inner rest : Block) → Block

unfoldable pub run : Irq → Block → Irq
run s done = s
run s (guarded inner rest) = run (leave (run (enter s) inner)) rest

abbrev pub depth : Block → ℕ
depth done = 0
depth (guarded inner rest) = max (suc (depth inner)) (depth rest)

abbrev pub is_done : Block → Bool
is_done done = true
is_done (guarded inner rest) = false

-- Guards of any nesting within the range of the counter leave the counter as it was. Interrupts are
-- enabled behind the outermost guard and stay disabled within it; code without guards changes nothing.
pub run-balanced :
    (s : Irq) (b : Block)
    → no_guard < s.cnt + 1
    → s.cnt + depth b < 2 ^ 32
    → ((run s b).cnt ≡ s.cnt)
      × ((run s b).masked ≡ (if is_done b then s.masked else not (s.cnt == no_guard)))
unfolding run enter leave
run-balanced s done low high = (refl, refl)
run-balanced s (guarded inner rest) low high =
    let within = run-balanced (enter s) inner (omega arith) (omega arith) in
    let mid = leave (run (enter s) inner) in
    let counted : mid.cnt ≡ s.cnt = omega (arith, within.0) in
    let off : (run (enter s) inner).masked ≡ true = ground (arith, within.1) in
    let open_ : mid.masked ≡ not (s.cnt == no_guard) = ground (arith, counted, off) in
    let after = run-balanced mid rest (omega (arith, counted)) (omega (arith, counted)) in
    (after.0 ∙ counted, ground (arith, after.1, counted, open_))
