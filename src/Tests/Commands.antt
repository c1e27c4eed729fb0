-- ===== src/Tests/Commands.antt =====
-- shell.hpp on the line " ls x", and kernel/data_type/bitmap.hpp on two words.
use mos_core.Prelude.{
  ℕ, ◌+◌, ◌≤◌, ◌<◌, ◌⊎◌, inl, inr, true, Bool-cases, ◌^◌, ◌≡◌, refl, ◌≢◌, ◌||◌, List, [], ◌∷◌, some,
  arith, ◌==◌, if◌then◌else◌,
}
use mos_core.DataType.BitMap.{first_zero, first_zero_from, leading_zeros}
use mos_core.Utils.Strings.Compare.{HoldsStr}
use mos_core.DataType.Sequence.{has}
use mos_core.Kernel.Task.{block}
use mos_core.Shell.{match_cmd, task_ctrl_cmd, uname_cmd}
use mos_core.Shell.Commands.{Named, task_ctrl_cmd-runs_by_name}
use mos_core.Shell.UserName.{uname_cmd-name}
use mos_core.Tests.Demo.{demo}
use mos_core.Shell.Match.{match_cmd-argument}

abbrev bytes : ℕ → ℕ
bytes p =
    if (p == 10) || (p == 21)
    then 108
    else if (p == 11) || (p == 22)
    then 115
    else if (p == 20) || (p == 23)
    then 32
    else if p == 24
    then 120
    else 0

command : HoldsStr bytes 10 (108 ∷ 115 ∷ [])
command = (refl, omega arith, omega arith, (refl, omega arith, omega arith, refl))

line : HoldsStr bytes 20 (32 ∷ 108 ∷ 115 ∷ 32 ∷ 120 ∷ [])
line = (
  refl,
  omega arith,
  omega arith,
  (
    refl,
    omega arith,
    omega arith,
    (
      refl,
      omega arith,
      omega arith,
      (refl, omega arith, omega arith, (refl, omega arith, omega arith, refl)),
    ),
  ),
)

match_cmd-argument_example :
    (r : ℕ) × (match_cmd 6 bytes 10 20 ≡ some r) × ((r ≢ 0) × HoldsStr bytes r (120 ∷ []))
match_cmd-argument_example =
    match_cmd-argument 6 bytes 10 20 (108 ∷ 115 ∷ []) (32 ∷ 108 ∷ 115 ∷ 32 ∷ 120 ∷ []) command line
      (omega arith) (omega arith) (omega arith)

uname_cmd-name_example :
    (2 < 8 × HoldsStr (uname_cmd 8 100 bytes 10) 100 (108 ∷ 115 ∷ []))
    ⊎ (8 ≤ 2 × ((x : ℕ) → x < 8 → uname_cmd 8 100 bytes 10 (100 + x) ≢ 0))
uname_cmd-name_example =
    uname_cmd-name 8 100 bytes 10 108 (115 ∷ []) (omega arith) command (inr (omega arith))

abbrev ls_name : List ℕ
ls_name = 108 ∷ 115 ∷ []

-- The task 1 is called "ls", the others have no name.
abbrev names : ℕ → ℕ
names t = if t == 1 then 10 else 30

abbrev label : ℕ → List ℕ
label t = if t == 1 then ls_name else []

named : Named 6 bytes names label demo.raw
named t i nz = elim (Bool-cases (t == 1)) [
  | inl e ↦ rw e (command, omega arith)
  | inr e ↦ rw e (refl, omega arith)
]

task_ctrl_cmd-runs_by_name_example :
    ((task_ctrl_cmd 6 bytes names demo 10 block ≡ some demo)
      × ((ls_name ≡ []) ⊎ ((x : ℕ) → has x demo.raw ≡ true → x ≢ 0 → label x ≢ ls_name)))
    ⊎ ((t : ℕ) × (t ≢ 0)
        × (has t demo.raw ≡ true)
        × (label t ≡ ls_name)
        × (task_ctrl_cmd 6 bytes names demo 10 block ≡ block demo t))
task_ctrl_cmd-runs_by_name_example =
    task_ctrl_cmd-runs_by_name 6 bytes names label 10 ls_name command demo block named

abbrev words : List ℕ
words = 2 ^ 31 ∷ 5 ∷ []

-- The second bit is the first one that is clear.
second_clear : first_zero words ≡ some 1
unfolding first_zero first_zero_from leading_zeros
second_clear = refl
