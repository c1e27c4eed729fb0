-- ===== src/Shell/Match.antt =====
-- A line matches a command when it starts with blanks and the command's name, and then ends or has a
-- blank; the argument is what stands behind the blanks after the name.
use mos_core.Prelude.{
  ℕ, zero, suc, ◌+◌, ◌<◌, ◌≡◌, refl, ◌≢◌, ◌⊎◌, inl, inr, true, false, List, [], ◌∷◌, Option, none,
  some, arith, ◌==◌, if◌then◌else◌, length, sym, Bool-cases, ==_ne, subst,
}
use mos_core.Utils.Strings.{strncmp, null_int}
use mos_core.Utils.Strings.Compare.{HoldsStr, strlen-length}
use mos_core.Shell.{blank, skip, check, match_cmd}

-- The line without the blanks in front.
abbrev pub trim : List ℕ → List ℕ
trim [] = []
trim (c ∷ cs) = if c == blank then trim cs else c ∷ cs

-- What the line holds behind the name, if it starts with it and then ends or has a blank.
abbrev pub argument : List ℕ → List ℕ → Option (List ℕ)
argument [] [] = some []
argument [] (c ∷ cs) = if c == blank then some (trim cs) else none
argument (x ∷ xs) [] = none
argument (x ∷ xs) (c ∷ cs) = if x == c then argument xs cs else none

-- `skip` ends at the first byte that is no blank.
pub skip-trim :
    (fuel : ℕ) (mem : ℕ → ℕ) (p : ℕ) (cs : List ℕ)
    → HoldsStr mem p cs
    → length cs < fuel
    → (r : ℕ) × (skip fuel mem p ≡ some r) × HoldsStr mem r (trim cs) × (p < r + 1)
unfolding skip
skip-trim zero mem p cs h lt = elim lt [ ]
skip-trim (suc fuel) mem p [] h lt = (p, rw h refl, h, omega arith)
skip-trim (suc fuel) mem p (c ∷ cs) h lt = elim (Bool-cases (c == blank)) [
  | inl e ↦
      let (r, run, at, le) = skip-trim fuel mem (p + 1) cs h.3 (omega arith) in
      (r, rw (h.0, e) run, rw e at, omega arith)
  | inr e ↦ (p, rw (h.0, e) refl, rw e h, omega arith)
]

-- The comparison of a line with a name: the line goes on behind the name, or they differ.
abbrev Compared : (ℕ → ℕ) → ℕ → ℕ → List ℕ → List ℕ → Type 0
Compared mem p q name line =
    ((rest : List ℕ) × (strncmp mem p q (length name) ≡ null_int)
      × HoldsStr mem (p + length name) rest
      × (argument name line ≡ argument [] rest)
      × (length rest < length line + 1))
    ⊎ (((strncmp mem p q (length name) == null_int) ≡ false) × (argument name line ≡ none))

strncmp-Compared :
    (mem : ℕ → ℕ) (p q : ℕ) (name line : List ℕ)
    → HoldsStr mem q name
    → HoldsStr mem p line
    → Compared mem p q name line
unfolding strncmp
strncmp-Compared mem p q [] line h g =
    inl (line, refl, subst (λ a. HoldsStr mem a line) (omega arith) g, refl, omega arith)
strncmp-Compared mem p q (x ∷ xs) [] h g = inr (rw (g, h.0) (ground (arith, h.1, h.2)), refl)
strncmp-Compared mem p q (x ∷ xs) (c ∷ cs) h g = elim (Bool-cases (x == c)) [
  | inl e ↦
      let same : x ≡ c = ground arith in
      let eq : (mem p == mem q) ≡ true = ground (arith, h.0, g.0) in
      let in_line : (mem p == 0) ≡ false = ground (arith, g.0, g.1) in
      elim (strncmp-Compared mem (p + 1) (q + 1) xs cs h.3 g.3) [
        | inl (rest, z, at, a, le) ↦ inl (
          rest,
          rw (eq, in_line) z,
          subst (λ b. HoldsStr mem b rest) (omega arith) at,
          rw e a,
          omega arith,
        )
        | inr (nz, a) ↦ inr (rw (eq, in_line) nz, rw e a)
      ]
  | inr e ↦ inr (rw (g.0, h.0) (ground (arith, h.2, g.2)), rw e refl)
]

length-trim : (cs : List ℕ) → length (trim cs) < length cs + 1
length-trim [] = omega arith
length-trim (c ∷ cs) = ground (arith, length-trim cs)

-- What `match` returns for an argument, or for none.
abbrev pub Returns : (ℕ → ℕ) → Option (List ℕ) → ℕ → Type 0
Returns mem none r = r ≡ 0
Returns mem (some args) r = (r ≢ 0) × HoldsStr mem r args

-- The test and the last `skip`, behind a name that is there.
behind_name :
    (fuel : ℕ) (mem : ℕ → ℕ) (text xlen s : ℕ) (rest : List ℕ)
    → (strncmp mem s text xlen == null_int) ≡ true
    → HoldsStr mem (s + xlen) rest
    → length rest < fuel
    → s ≢ 0
    → (r : ℕ) × ((if check mem text xlen s then skip fuel mem (s + xlen) else some 0) ≡ some r)
      × Returns mem (argument [] rest) r
unfolding check
behind_name fuel mem text xlen s [] z at lt nz =
    let (r, run, held, le) = skip-trim fuel mem (s + xlen) [] at lt in
    (r, rw (at, z) run, (λ e. nz (omega arith), held))
behind_name fuel mem text xlen s (c ∷ cs) z at lt nz = elim (Bool-cases (c == blank)) [
  | inl e ↦
      let (r, run, held, le) = skip-trim fuel mem (s + xlen) (c ∷ cs) at lt in
      (r, rw (at.0, e, z) run, rw e (λ q. nz (omega arith), rw e at held))
  | inr e ↦ (0, rw (at.0, e, ==_ne c 0 at.1) refl, rw e refl)
]

no_name :
    (mem : ℕ → ℕ) (text xlen s : ℕ)
    → (strncmp mem s text xlen == null_int) ≡ false
    → check mem text xlen s ≡ false
unfolding check
no_name mem text xlen s z = ground arith

-- `match` of a line with a command, each a string in memory, ends. With blanks in front, then the
-- name of the command, then a blank or the end, the result is the address of what stands behind the
-- blanks; otherwise it is `nullptr`.
pub match_cmd-argument :
    (fuel : ℕ) (mem : ℕ → ℕ) (text str : ℕ) (name line : List ℕ)
    → HoldsStr mem text name
    → HoldsStr mem str line
    → str ≢ 0
    → length name < fuel
    → length line < fuel
    → (r : ℕ) × (match_cmd fuel mem text str ≡ some r) × Returns mem (argument name (trim line)) r
unfolding match_cmd
match_cmd-argument fuel mem text str name line h g nz small short =
    let (s, run, at, le) = skip-trim fuel mem str line g short in
    let measured = strlen-length fuel mem text name h small in
    elim (strncmp-Compared mem s text name (trim line) h at) [
      | inl (rest, z, there, a, shorter) ↦
          let (r, out, held) =
            behind_name fuel mem text (length name) s rest (rw z refl) there
              (omega (arith, length-trim line)) (λ e. nz (omega arith)) in
          (
            r,
            rw (measured, match_cmd) (rw (run, match_cmd) out),
            subst (λ o. Returns mem o r) (sym a) held,
          )
      | inr (differ, a) ↦ (
        0,
        rw (measured, match_cmd)
            (rw (run, no_name mem text (length name) s differ, match_cmd) refl),
        subst (λ o. Returns mem o 0) (sym a) refl,
      )
    ]
