-- ===== src/Kernel/Alloc/Fresh.antt =====
-- A page from the pool is not the page of a task in any list.
use mos_core.Prelude.{
  ℕ, ◌≡◌, refl, ◌≢◌, ◌⊎◌, inl, inr, true, false, List, [], ◌∷◌, some, arith, ◌==◌, Bool-cases, sym,
  ap, ◌∙◌, subst,
}
use mos_core.DataType.Sequence.{has, Distinct}
use mos_core.DataType.LinkedList.{Links}
use mos_core.DataType.LinkedList.Shape.{Chain, IsRing}
use mos_core.Kernel.State.{pool_page}
use mos_core.Kernel.Alloc.{unused, pool_alloc, palloc}

-- The node behind which a node of a chain stands is another one.
prev-ne :
    (h : Links) (a : ℕ) (xs : List ℕ) (b x : ℕ)
    → Chain h a xs b
    → has a xs ≡ false
    → Distinct xs
    → has x xs ≡ true
    → (has (h.prev x) (a ∷ xs) ≡ true) × (h.prev x ≢ x)
prev-ne h a [] b x c out d i = cc
prev-ne h a (y ∷ ys) b x c out d i = elim (Bool-cases (x == y)) [
  | inl e ↦
      let here : x ≡ y = ground arith in
      let at : h.prev x ≡ a = ap h.prev here ∙ c.0.1 in
      (ground (arith, at), λ z. ground (arith, at))
  | inr e ↦ let (i', n) = prev-ne h y ys b x c.1 d.0 d.1 (ground arith) in (ground (arith, i'), n)
]

pub listed_used :
    {h : Links} {head : ℕ} {xs : List ℕ} (x : ℕ)
    → IsRing h head xs
    → has x xs ≡ true
    → unused h x ≡ false
listed_used {h} {head} {xs} x r i =
    let (i', n) = prev-ne h head xs head x r.chain r.apart r.distinct i in
    let nz : h.prev x ≢ 0 = λ z. ground (arith, ap (λ a. has a (head ∷ xs)) z, i', r.not_null) in
    ground arith

-- What a search of the pool finds.
abbrev pub FreshIn : Links → List ℕ → ℕ → Type 0
FreshIn h raws raw =
    ((raw ≡ 0) × ((x : ℕ) → has x raws ≡ true → unused h x ≡ false))
    ⊎ ((has raw raws ≡ true) × ((head : ℕ) (xs : List ℕ) → IsRing h head xs → has raw xs ≡ false))

pool_alloc-FreshIn : (h : Links) (raws : List ℕ) → FreshIn h raws (pool_alloc h raws)
unfolding pool_alloc
pool_alloc-FreshIn h [] = inl (refl, λ x i. cc)
pool_alloc-FreshIn h (y ∷ ys) = elim (Bool-cases (unused h y)) [
  | inl e ↦
      let found : pool_alloc h (y ∷ ys) ≡ y = rw (e, pool_alloc) refl in
      subst (FreshIn h (y ∷ ys)) (sym found) (
        inr (
          ground arith,
          λ head xs r. elim (Bool-cases (has y xs)) [
            | inl i ↦ absurd (clash (sym e ∙ listed_used y r i))
            | inr o ↦ o
          ],
        ))
  | inr e ↦
      let later : pool_alloc h (y ∷ ys) ≡ pool_alloc h ys = rw (e, pool_alloc) refl in
      subst (FreshIn h (y ∷ ys)) (sym later) (elim (pool_alloc-FreshIn h ys) [
        | inl (z, all) ↦ inl (
          z,
          λ x i. elim (Bool-cases (x == y)) [
            | inl here ↦ let same : x ≡ y = ground arith in ap (unused h) same ∙ e
            | inr there ↦ all x (ground arith)
          ],
        )
        | inr (i, out) ↦ inr (ground (arith, i), out)
      ])
]
  where
    clash : true ≢ false
    clash e = cc

-- `palloc` from the pool always returns. The result is a page of the pool that no list in memory
-- holds as a node; or it is `nullptr`, and every page of the pool is used.
pub palloc-Fresh :
    (h : Links) (page_pool : List ℕ) (new_page : ℕ → ℕ) (page_size : ℕ)
    → (raw : ℕ) × (palloc h page_pool new_page pool_page page_size ≡ some raw)
      × FreshIn h page_pool raw
unfolding palloc
palloc-Fresh h page_pool new_page page_size =
    (pool_alloc h page_pool, refl, pool_alloc-FreshIn h page_pool)
