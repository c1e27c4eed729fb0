-- ===== src/DataType/LinkedList/Shape.antt =====
-- What a list in memory stands for: the sequence of its nodes.
use mos_core.Prelude.{ℕ, ◌%◌, ◌^◌, ◌≡◌, ◌≢◌, true, false, List, [], ◌∷◌, ◌++◌, arith, length}
use mos_core.DataType.Sequence.{has, Distinct}
use mos_core.DataType.LinkedList.{Links, ListImpl}

-- `b` stands directly behind `a`.
abbrev pub Linked : Links → ℕ → ℕ → Type 0
Linked h a b = (h.next a ≡ b) × (h.prev b ≡ a)

-- From `a` the pointers lead through the nodes `xs` to `b`, in both directions.
abbrev pub Chain : Links → ℕ → List ℕ → ℕ → Type 0
Chain h a [] b = Linked h a b
Chain h a (x ∷ xs) b = Linked h a x × Chain h x xs b

-- The list with head node `head` holds the nodes `xs`, once each.
pub record IsRing (h : Links) (head : ℕ) (xs : List ℕ) : Type 0 where
  pub chain : Chain h head xs head
  pub apart : has head xs ≡ false
  pub distinct : Distinct xs
  pub not_null : has 0 (head ∷ xs) ≡ false

-- The list is in memory, and its length is counted.
pub record IsList (h : Links) (l : ListImpl) (xs : List ℕ) : Type 0 where
  pub ring : IsRing h l.head xs
  pub counted : l.len ≡ length xs % 2 ^ 32

abbrev pub first_or : List ℕ → ℕ → ℕ
first_or [] b = b
first_or (x ∷ xs) b = x

abbrev pub last_or : ℕ → List ℕ → ℕ
last_or a [] = a
last_or a (x ∷ xs) = last_or x xs

-- A chain survives a change that spares the pointers it reads.
pub Chain-frame :
    (h g : Links) (a : ℕ) (xs : List ℕ) (b : ℕ)
    → ((p : ℕ) → has p (a ∷ xs) ≡ true → g.next p ≡ h.next p)
    → ((p : ℕ) → has p (b ∷ xs) ≡ true → g.prev p ≡ h.prev p)
    → Chain h a xs b
    → Chain g a xs b
Chain-frame h g a [] b n p c = (ground (arith, n a), ground (arith, p b))
Chain-frame h g a (x ∷ xs) b n p c = (
  (ground (arith, n a), ground (arith, p x)),
  Chain-frame h g x xs b (λ q i. n q (ground arith)) (λ q i. p q (ground arith)) c.1,
)

pub Chain-first :
    (h : Links) (a : ℕ) (xs : List ℕ) (b : ℕ) → Chain h a xs b → h.next a ≡ first_or xs b
Chain-first h a [] b c = c.0
Chain-first h a (x ∷ xs) b c = c.0.0

pub Chain-last :
    (h : Links) (a : ℕ) (ys zs : List ℕ) (b : ℕ)
    → Chain h a (ys ++ zs) b
    → h.prev (first_or zs b) ≡ last_or a ys
Chain-last h a [] [] b c = c.1
Chain-last h a [] (z ∷ zs) b c = c.0.1
Chain-last h a (y ∷ ys) zs b c = Chain-last h y ys zs b c.1

pub has-last_or : (a : ℕ) (ys : List ℕ) → has (last_or a ys) (a ∷ ys) ≡ true
has-last_or a [] = ground arith
has-last_or a (y ∷ ys) = ground (arith, has-last_or y ys)

pub has-first_or : (zs : List ℕ) (b : ℕ) → has (first_or zs b) (b ∷ zs) ≡ true
has-first_or [] b = ground arith
has-first_or (z ∷ zs) b = ground arith

-- A member and a node outside are different.
pub ne_of_has : (a b : ℕ) (xs : List ℕ) → has a xs ≡ true → has b xs ≡ false → a ≢ b
ne_of_has a b xs i o e = ground arith
