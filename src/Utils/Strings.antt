-- ===== src/Utils/Strings.antt =====
-- kernel/utils.hpp, `strlen`, `strcmp` and `strncmp`, on a memory of bytes.
-- An `int` result is kept as its value plus 2 ^ 31. `none` says that the fuel ran out.
pub mod Compare
use mos_core.Prelude.{
  ℕ, zero, suc, ◌+◌, ◌-◌, ◌^◌, ◌≡◌, ◌≢◌, Bool, true, false, not, ◌&&◌, List, [], ◌∷◌, Option, none,
  some, ◌==◌, if◌then◌else◌,
}

-- The number of steps of `s` from `p` to the terminator.
unfoldable pub strlen : ℕ → (ℕ → ℕ) → (p : ℕ) → Option ℕ
strlen zero mem p = none
strlen (suc fuel) mem p =
    let more = strlen fuel mem (p + 1) in
    if mem p == 0 then some 0 else elim more [ none ↦ none | some n ↦ some (n + 1) ]

abbrev pub null_int : ℕ
null_int = 2 ^ 31

-- The difference of two bytes.
abbrev pub byte_diff : ℕ → ℕ → ℕ
byte_diff a b = null_int + a - b

unfoldable pub strcmp : ℕ → (ℕ → ℕ) → (p q : ℕ) → Option ℕ
strcmp zero mem p q = none
strcmp (suc fuel) mem p q =
    let more = strcmp fuel mem (p + 1) (q + 1) in
    if not (mem p == 0) && (mem p == mem q) then more else some (byte_diff (mem p) (mem q))

-- The loop of `strncmp` with `n` rounds left.
unfoldable pub strncmp : (ℕ → ℕ) → (p q n : ℕ) → ℕ
strncmp mem p q zero = null_int
strncmp mem p q (suc n) =
    let more = strncmp mem (p + 1) (q + 1) n in
    if not (mem p == mem q)
    then byte_diff (mem p) (mem q)
    else if mem p == 0
    then null_int
    else more
