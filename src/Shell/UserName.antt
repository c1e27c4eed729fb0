-- ===== src/Shell/UserName.antt =====
-- The user name that `uname_cmd` sets.
use mos_core.Prelude.{
  ℕ, suc, ◌+◌, ◌≤◌, ◌<◌, ◌≡◌, ◌≢◌, ◌⊎◌, inl, inr, true, not, ◌&&◌, List, ◌∷◌, arith, ◌==◌,
  if◌then◌else◌, ltb, length, Bool-cases, sym, ap, ◌∙◌, subst,
}
use mos_core.Utils.Strings.Compare.{HoldsStr}
use mos_core.Utils.Memory.{Bytes, memcpy}
use mos_core.Utils.Memory.Copied.{Apart, memcpy_at, memcpy-HoldsStr, HoldsStr-nonzero}
use mos_core.Shell.{uname_cmd}

-- `uname` with a name that is not empty and does not overlap the user name sets that to it when it
-- has room with its terminator. A longer name fills all of the array and leaves no terminator in it.
pub uname_cmd-name :
    (size user_name : ℕ) (mem : Bytes) (argv c : ℕ) (cs : List ℕ)
    → argv ≢ 0
    → HoldsStr mem argv (c ∷ cs)
    → Apart user_name argv size
    → (suc (length cs) < size × HoldsStr (uname_cmd size user_name mem argv) user_name (c ∷ cs))
      ⊎ (size ≤ suc (length cs)
          × ((x : ℕ) → x < size → uname_cmd size user_name mem argv (user_name + x) ≢ 0))
unfolding uname_cmd
uname_cmd-name size user_name mem argv c cs nz h apart =
    let set : (not (argv == 0) && not (mem argv == 0)) ≡ true = ground (arith, nz, h.0, h.1) in
    let copied : uname_cmd size user_name mem argv ≡ memcpy mem user_name argv size =
      ap (λ b. if b then memcpy mem user_name argv size else mem) set in
    elim (Bool-cases (ltb (suc (length cs)) size)) [
      | inl lt ↦ inl (
        ground arith,
        subst (λ m. HoldsStr m user_name (c ∷ cs)) (sym copied)
            (memcpy-HoldsStr mem user_name argv size (c ∷ cs) apart h (ground arith)),
      )
      | inr ge ↦ inr (
        ground arith,
        λ x lt z. HoldsStr-nonzero mem argv x (c ∷ cs) h (ground (arith, lt)) (
            sym (memcpy_at mem user_name argv size x apart lt)
            ∙ sym (ap (λ (m : Bytes). m (user_name + x)) copied)
            ∙ z),
      )
    ]
