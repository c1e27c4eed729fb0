-- ===== src/Shell.antt =====
-- shell.hpp: matching a line of input with a command, and the commands on tasks.
-- The text is in a memory of bytes; an argument string is its address, and 0 is `nullptr`. `none` says
-- that the fuel ran out. What the commands print is left out.
pub mod Match
pub mod Commands
pub mod UserName
use mos_core.Prelude.{
  ℕ, zero, suc, ◌+◌, ◌/◌, ◌%◌, ◌≡◌, Bool, true, false, not, ◌&&◌, ◌||◌, List, [], ◌∷◌, Option, none,
  some, ◌==◌, if◌then◌else◌,
}
use mos_core.Kernel.State.{Kernel, blocked_list, find_slot}
use mos_core.Utils.Literals.{systick}
use mos_core.Kernel.Task.{terminate, block, resume}
use mos_core.Utils.Memory.{Bytes, memcpy}
use mos_core.Utils.Strings.{strlen, strcmp, strncmp, null_int}

abbrev pub blank : ℕ
blank = 32

-- `skip`: past all blanks.
unfoldable pub skip : ℕ → (ℕ → ℕ) → (str : ℕ) → Option ℕ
skip zero mem str = none
skip (suc fuel) mem str =
    let rest = skip fuel mem (str + 1) in if mem str == blank then rest else some str

-- `check` with the length of the command.
unfoldable pub check : (ℕ → ℕ) → (text xlen str : ℕ) → Bool
check mem text xlen str =
    ((mem (str + xlen) == blank) || (mem (str + xlen) == 0))
    && (strncmp mem str text xlen == null_int)

-- `Command_t::match`
unfoldable pub match_cmd : ℕ → (ℕ → ℕ) → (text str : ℕ) → Option ℕ
match_cmd fuel mem text str = elim (strlen fuel mem text) [
  | none ↦ none
  | some xlen ↦ elim (skip fuel mem str) [
    | none ↦ none
    | some s ↦ let argv = skip fuel mem (s + xlen) in if check mem text xlen s then argv else some 0
  ]
]

-- The search of `parser` in a table of command texts: the command and its argument.
unfoldable pub search : ℕ → (ℕ → ℕ) → (texts : List ℕ) → (str : ℕ) → Option (Option (ℕ × ℕ))
search fuel mem [] str = some none
search fuel mem (text ∷ texts) str =
    let later = search fuel mem texts str in
    elim (match_cmd fuel mem text str) [
      | none ↦ none
      | some argv ↦ if argv == 0 then later else some (some (text, argv))
    ]

-- `parser`: the system commands first, then those of the user.
unfoldable pub parser :
    ℕ → (ℕ → ℕ) → (sys_cmd_map usr_cmd_map : List ℕ) → (str : ℕ) → Option (Option (ℕ × ℕ))
parser fuel mem sys_cmd_map usr_cmd_map str =
    let usr = search fuel mem usr_cmd_map str in
    if mem str == 0 then some none else elim (search fuel mem sys_cmd_map str) [
      | none ↦ none
      | some none ↦ usr
      | some (some hit) ↦ some (some hit)
    ]

-- `Task::find` by name, where `names` has the address of each task's name.
unfoldable pub find_name : ℕ → (ℕ → ℕ) → (names : ℕ → ℕ) → Kernel → (name : ℕ) → ℕ
find_name fuel mem names k name =
    find_slot (λ t. elim (strcmp fuel mem (names t) name) [ none ↦ false | some d ↦ d == null_int ])
      k.raw

-- `task_ctrl_cmd`
unfoldable pub task_ctrl_cmd :
    ℕ
    → (ℕ → ℕ)
    → (names : ℕ → ℕ) → Kernel
    → (argv : ℕ) → (Kernel → ℕ → Option Kernel)
    → Option Kernel
task_ctrl_cmd fuel mem names k argv ok =
    let run = ok k (find_name fuel mem names k argv) in
    if mem argv == 0 then some k else if find_name fuel mem names k argv == 0 then some k else run

unfoldable pub kill_cmd : ℕ → (ℕ → ℕ) → (names : ℕ → ℕ) → Kernel → (argv : ℕ) → Option Kernel
kill_cmd fuel mem names k argv = task_ctrl_cmd fuel mem names k argv terminate

unfoldable pub block_cmd : ℕ → (ℕ → ℕ) → (names : ℕ → ℕ) → Kernel → (argv : ℕ) → Option Kernel
block_cmd fuel mem names k argv = task_ctrl_cmd fuel mem names k argv block

unfoldable pub resume_cmd : ℕ → (ℕ → ℕ) → (names : ℕ → ℕ) → Kernel → (argv : ℕ) → Option Kernel
resume_cmd fuel mem names k argv =
    task_ctrl_cmd fuel mem names k argv (λ k' t. resume k' t blocked_list)

-- `uname_cmd` on the memory, with `Global::user_name` at an address and room for `size` bytes.
unfoldable pub uname_cmd : (size user_name : ℕ) → Bytes → (argv : ℕ) → Bytes
uname_cmd size user_name mem argv =
    if not (argv == 0) && not (mem argv == 0) then memcpy mem user_name argv size else mem

-- The hours, minutes and seconds of `time_cmd`.
unfoldable pub time_cmd : Kernel → ℕ × ℕ × ℕ
time_cmd k = let up_tks = k.os_ticks / systick in (up_tks / 3600, up_tks % 3600 / 60, up_tks % 60)
