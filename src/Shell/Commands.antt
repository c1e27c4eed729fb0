-- ===== src/Shell/Commands.antt =====
-- The commands on tasks: which task a name stands for, and what is done with it.
use mos_core.Prelude.{
  ℕ, ◌<◌, ◌≡◌, refl, ◌≢◌, ◌⊎◌, inl, inr, Bool, true, false, not, ◌&&◌, List, [], ◌∷◌, Option, none,
  some, arith, ◌==◌, if◌then◌else◌, length, Bool-cases, sym, ap, ◌∙◌, subst, ==_ne,
}
use mos_core.DataType.Sequence.{has}
use mos_core.Kernel.State.{Kernel, find_slot}
use mos_core.Utils.Strings.{strcmp, null_int}
use mos_core.Utils.Strings.Compare.{HoldsStr, dictionary, strcmp-strings}
use mos_core.Shell.{find_name, task_ctrl_cmd}

-- Each task in the table has its name, a string in memory.
abbrev pub Named : ℕ → (ℕ → ℕ) → (names : ℕ → ℕ) → (label : ℕ → List ℕ) → List ℕ → Type 0
Named fuel mem names label raw =
    (t : ℕ)
    → has t raw ≡ true
    → t ≢ 0
    → HoldsStr mem (names t) (label t) × (length (label t) < fuel)

-- What a search of the table by a test gives.
abbrev Slot : (ℕ → Bool) → List ℕ → ℕ → Type 0
Slot test raw t =
    ((t ≡ 0) × ((x : ℕ) → has x raw ≡ true → x ≢ 0 → test x ≡ false))
    ⊎ ((t ≢ 0) × (has t raw ≡ true) × (test t ≡ true))

find_slot-Slot : (test : ℕ → Bool) (raw : List ℕ) → Slot test raw (find_slot test raw)
unfolding find_slot
find_slot-Slot test [] = inl (refl, λ x i. cc)
find_slot-Slot test (p ∷ ps) = elim (Bool-cases (not (p == 0) && test p)) [
  | inl e ↦
      let found : find_slot test (p ∷ ps) ≡ p = rw (e, find_slot) refl in
      subst (Slot test (p ∷ ps)) (sym found) (inr (ground arith, ground arith, ground arith))
  | inr e ↦
      let later : find_slot test (p ∷ ps) ≡ find_slot test ps = rw (e, find_slot) refl in
      subst (Slot test (p ∷ ps)) (sym later) (elim (find_slot-Slot test ps) [
        | inl (z, all) ↦ inl (
          z,
          λ x i nz. elim (Bool-cases (x == p)) [
            | inl here ↦ let same : x ≡ p = ground arith in ap test same ∙ ground (arith, same)
            | inr there ↦ all x (ground arith) nz
          ],
        )
        | inr (nz, i, t) ↦ inr (nz, ground (arith, i), t)
      ])
]

module _ (fuel : ℕ) (mem : ℕ → ℕ) (names : ℕ → ℕ) (label : ℕ → List ℕ) (name : ℕ) (s : List ℕ)
    (held : HoldsStr mem name s) where
  -- The test of `find`.
  abbrev fetch : ℕ → Bool
  fetch t = elim (strcmp fuel mem (names t) name) [ none ↦ false | some d ↦ d == null_int ]

  fetch-label :
      (t : ℕ)
      → HoldsStr mem (names t) (label t)
      → length (label t) < fuel
      → ((fetch t ≡ true) × (label t ≡ s)) ⊎ ((fetch t ≡ false) × (label t ≢ s))
  fetch-label t h small =
      let (e, iff) = strcmp-strings fuel mem (names t) name (label t) s h held small in
      elim (Bool-cases (dictionary (label t) s == null_int)) [
        | inl y ↦ inl (rw (e, fetch) y, iff.0 (ground arith))
        | inr n ↦ inr (rw (e, fetch) n, λ q. ground (arith, n, iff.1 q))
      ]

  -- When each task in the table has its name, a string that is shorter than the fuel: a command on
  -- tasks with the name of a task as its argument is run on a task of that name, and with no name, or
  -- one that no task in the table has, it changes nothing.
  pub task_ctrl_cmd-runs_by_name :
      (k : Kernel) (ok : Kernel → ℕ → Option Kernel)
      → Named fuel mem names label k.raw
      → ((task_ctrl_cmd fuel mem names k name ok ≡ some k)
          × ((s ≡ []) ⊎ ((x : ℕ) → has x k.raw ≡ true → x ≢ 0 → label x ≢ s)))
        ⊎ ((t : ℕ) × (t ≢ 0)
            × (has t k.raw ≡ true)
            × (label t ≡ s)
            × (task_ctrl_cmd fuel mem names k name ok ≡ ok k t))
  unfolding task_ctrl_cmd find_name
  task_ctrl_cmd-runs_by_name k ok named = elim (Bool-cases (mem name == 0)) [
    | inl e ↦ inl (rw (e, task_ctrl_cmd) refl, inl (empty s held (ground arith)))
    | inr e ↦ elim (find_slot-Slot fetch k.raw) [
      | inl (z, all) ↦ inl (
        chosen e true (ground (arith, z)),
        inr (λ x i nz. elim (fetch-label x (named x i nz).0 (named x i nz).1) [
          | inl (y, same) ↦ absurd (clash (sym y ∙ all x i nz))
          | inr (n, differ) ↦ differ
        ]),
      )
      | inr (nz, i, y) ↦
          let t = find_slot fetch k.raw in
          elim (fetch-label t (named t i nz).0 (named t i nz).1) [
            | inl (y', same) ↦ inr (t, nz, i, same, chosen e false (==_ne t 0 nz))
            | inr (n, differ) ↦ absurd (clash (sym y ∙ n))
          ]
    ]
  ]
    where
      clash : true ≢ false
      clash e = cc

      chosen :
          (mem name == 0) ≡ false
          → (b : Bool) → (find_slot fetch k.raw == 0) ≡ b
          → task_ctrl_cmd fuel mem names k name ok
            ≡ (if b then some k else ok k (find_slot fetch k.raw))
      chosen e b z =
          let t = find_slot fetch k.raw in
          ap (λ c. if c then some k else if t == 0 then some k else ok k t) e
          ∙ ap (λ c. if c then some k else ok k t) z

      empty : (cs : List ℕ) → HoldsStr mem name cs → mem name ≡ 0 → cs ≡ []
      empty [] h z = refl
      empty (c ∷ cs) h z = absurd (h.1 (sym h.0 ∙ z))
