-- ===== src/Tests/Small.antt =====
-- kernel/utils.hpp on small inputs.
use mos_core.Prelude.{
  ℕ, ◌-◌, ◌≡◌, refl, ◌↔◌, false, ◌||◌, List, [], ◌∷◌, some, arith, ◌==◌, if◌then◌else◌,
}
use mos_core.Utils.Strings.{strcmp, null_int}
use mos_core.Utils.Strings.Compare.{HoldsStr, strcmp-strings}
use mos_core.Utils.Guard.{Irq, no_guard, Block, done, guarded, run, run-balanced}

-- The strings "ls" at 10 and "lsx" at 20.
abbrev bytes : ℕ → ℕ
bytes p =
    if (p == 10) || (p == 20)
    then 108
    else if (p == 11) || (p == 21)
    then 115
    else if p == 22
    then 120
    else 0

abbrev short : List ℕ
short = 108 ∷ 115 ∷ []

abbrev long : List ℕ
long = 108 ∷ 115 ∷ 120 ∷ []

at_ten : HoldsStr bytes 10 short
at_ten = (refl, omega arith, omega arith, (refl, omega arith, omega arith, refl))

at_twenty : HoldsStr bytes 20 long
at_twenty = (
  refl,
  omega arith,
  omega arith,
  (refl, omega arith, omega arith, (refl, omega arith, omega arith, refl)),
)

strcmp-strings_example :
    (strcmp 3 bytes 10 20 ≡ some (null_int - 120)) × ((null_int - 120 ≡ null_int) ↔ (short ≡ long))
strcmp-strings_example = strcmp-strings 3 bytes 10 20 short long at_ten at_twenty (omega arith)

abbrev idle : Irq
idle = record { cnt = no_guard; masked = false }

abbrev nested : Block
nested = guarded (guarded done done) (guarded done done)

run-balanced_example : ((run idle nested).cnt ≡ no_guard) × ((run idle nested).masked ≡ false)
run-balanced_example = run-balanced idle nested (omega arith) (omega arith)
