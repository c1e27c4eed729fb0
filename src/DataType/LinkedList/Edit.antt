-- ===== src/DataType/LinkedList/Edit.antt =====
-- `insert` and `remove` on the sequence that a list stands for.
use mos_core.Prelude.{
  ℕ, ◌≡◌, refl, ◌≢◌, false, List, [], ◌∷◌, ◌++◌, arith, ◌==◌, if◌then◌else◌, length-append, sym,
  ==_ne, subst,
}
use mathlib.Core.Path.{subst₂}
use mos_core.DataType.LinkedList.{Links, ListImpl, link_before, unlink, insert, remove, deinit}
use mos_core.DataType.Sequence.{
  has, Distinct, has-append, has-insert, Distinct-insert, Distinct-remove,
}
use mos_core.DataType.LinkedList.Shape.{
  Linked, Chain, IsRing, IsList, first_or, last_or, Chain-frame, Chain-last, has-last_or,
  has-first_or,
}

-- How the links change when `node` goes between `l` and `pos`.
record Inserted (h g : Links) (node l pos : ℕ) : Type 0 where
  next_at : (p : ℕ) → g.next p ≡ (if p == l then node else if p == node then pos else h.next p)
  prev_at : (p : ℕ) → g.prev p ≡ (if p == pos then node else if p == node then l else h.prev p)

link_before-Inserted :
    (h : Links) (node pos : ℕ)
    → node ≢ pos
    → Inserted h (link_before node pos h) node (h.prev pos) pos
link_before-Inserted h node pos ne = record {
  next_at = λ p. ground arith;
  prev_at = λ p. ground arith;
}

Inserted-Chain :
    (h g : Links) (node a : ℕ) (ys zs : List ℕ) (b : ℕ)
    → Inserted h g node (last_or a ys) (first_or zs b)
    → Chain h a (ys ++ zs) b
    → has node (b ∷ a ∷ ys ++ zs) ≡ false
    → has a (ys ++ zs) ≡ false
    → has b (ys ++ zs) ≡ false
    → Distinct (ys ++ zs)
    → Chain g a (ys ++ node ∷ zs) b
Inserted-Chain h g node a [] [] b ins c new na nb d = (
  (ground (arith, ins.next_at a), ground (arith, ins.prev_at node)),
  (ground (arith, ins.next_at node), ground (arith, ins.prev_at b)),
)
Inserted-Chain h g node a [] (z ∷ zs) b ins c new na nb d = (
  (ground (arith, ins.next_at a), ground (arith, ins.prev_at node)),
  (
    (ground (arith, ins.next_at node), ground (arith, ins.prev_at z)),
    Chain-frame h g z zs b (λ p i. ground (arith, ins.next_at p))
        (λ p i. ground (arith, ins.prev_at p)) c.1,
  ),
)
Inserted-Chain h g node a (y ∷ ys) zs b ins c new na nb d = (
  (
    ground (arith, ins.next_at a, has-last_or y ys, has-append a ys zs),
    ground (arith, ins.prev_at y, has-first_or zs b, has-append y ys zs),
  ),
  Inserted-Chain h g node y ys zs b ins c.1 (ground arith) d.0 (ground arith) d.1,
)

-- How the links change when `node` leaves its place between `l` and `r`.
record Unlinked (h g : Links) (node l r : ℕ) : Type 0 where
  next_at : (p : ℕ) → g.next p ≡ (if p == node then node else if p == l then r else h.next p)
  prev_at : (p : ℕ) → g.prev p ≡ (if p == node then node else if p == r then l else h.prev p)

unlink-Unlinked :
    (h : Links) (node : ℕ) → Unlinked h (unlink node h) node (h.prev node) (h.next node)
unfolding deinit
unlink-Unlinked h node = record { next_at = λ p. ground arith; prev_at = λ p. ground arith }

Unlinked-Chain :
    (h g : Links) (node a : ℕ) (ys zs : List ℕ) (b : ℕ)
    → Unlinked h g node (last_or a ys) (first_or zs b)
    → Chain h a (ys ++ node ∷ zs) b
    → has node (b ∷ a ∷ ys ++ zs) ≡ false
    → has a (ys ++ zs) ≡ false
    → has b (ys ++ zs) ≡ false
    → Distinct (ys ++ zs)
    → Chain g a (ys ++ zs) b
Unlinked-Chain h g node a [] [] b un c new na nb d =
    (ground (arith, un.next_at a), ground (arith, un.prev_at b))
Unlinked-Chain h g node a [] (z ∷ zs) b un c new na nb d = (
  (ground (arith, un.next_at a), ground (arith, un.prev_at z)),
  Chain-frame h g z zs b (λ p i. ground (arith, un.next_at p)) (λ p i. ground (arith, un.prev_at p))
      c.1.1,
)
Unlinked-Chain h g node a (y ∷ ys) zs b un c new na nb d = (
  (
    ground (arith, un.next_at a, has-last_or y ys, has-append a ys zs),
    ground (arith, un.prev_at y, has-first_or zs b, has-append y ys zs),
  ),
  Unlinked-Chain h g node y ys zs b un c.1 (ground arith) d.0 (ground arith) d.1,
)

Chain-next :
    (h : Links) (a node : ℕ) (ys zs : List ℕ) (b : ℕ)
    → Chain h a (ys ++ node ∷ zs) b
    → h.next node ≡ first_or zs b
Chain-next h a node [] [] b c = c.1.0
Chain-next h a node [] (z ∷ zs) b c = c.1.0.0
Chain-next h a node (y ∷ ys) zs b c = Chain-next h y node ys zs b c.1

first_or-ne :
    (node head : ℕ) (ys zs : List ℕ) → has node (head ∷ ys ++ zs) ≡ false → node ≢ first_or zs head
first_or-ne node head ys zs new = ground (arith, has-first_or zs head, has-append node ys zs)

module _ {h : Links} {head : ℕ} (node : ℕ) (ys zs : List ℕ) where
  ring-Inserted :
      IsRing h head (ys ++ zs)
      → has node (0 ∷ head ∷ ys ++ zs) ≡ false
      → Inserted h (link_before node (first_or zs head) h) node (last_or head ys) (first_or zs head)
  ring-Inserted is new =
      subst (λ l. Inserted h (link_before node (first_or zs head) h) node l (first_or zs head))
        (Chain-last h head ys zs head is.chain)
        (link_before-Inserted h node (first_or zs head)
          (first_or-ne node head ys zs (ground arith)))

  insert-IsRing :
      IsRing h head (ys ++ zs)
      → has node (0 ∷ head ∷ ys ++ zs) ≡ false
      → IsRing (link_before node (first_or zs head) h) head (ys ++ node ∷ zs)
  insert-IsRing is new = record {
    chain =
        Inserted-Chain h _ node head ys zs head (ring-Inserted is new) is.chain (ground arith)
          is.apart is.apart is.distinct;
    apart = ground (arith, has-insert head node ys zs, is.apart);
    distinct = Distinct-insert node ys zs (ground arith) is.distinct;
    not_null = ground (arith, has-insert 0 node ys zs, is.not_null);
  }

  ring-Unlinked :
      IsRing h head (ys ++ node ∷ zs)
      → Unlinked h (unlink node h) node (last_or head ys) (first_or zs head)
  ring-Unlinked is =
      subst₂ (λ l r. Unlinked h (unlink node h) node l r)
        (Chain-last h head ys (node ∷ zs) head is.chain)
        (Chain-next h head node ys zs head is.chain) (unlink-Unlinked h node)

  remove-IsRing : IsRing h head (ys ++ node ∷ zs) → IsRing (unlink node h) head (ys ++ zs)
  remove-IsRing is =
      let (out, d) = Distinct-remove node ys zs is.distinct in
      let a = has-insert head node ys zs in
      record {
        chain =
            Unlinked-Chain h _ node head ys zs head (ring-Unlinked is) is.chain
              (ground (arith, is.apart)) (ground (arith, is.apart)) (ground (arith, is.apart)) d;
        apart = ground (arith, is.apart);
        distinct = d;
        not_null = ground (arith, has-insert 0 node ys zs, is.not_null);
      }

-- Only the nodes of the list and the node that is moved are written.
abbrev pub SameOutside : Links → Links → List ℕ → Type 0
SameOutside h g xs = (p : ℕ) → has p xs ≡ false → (g.next p ≡ h.next p) × (g.prev p ≡ h.prev p)

-- `insert` of a new node before the node `pos` puts it there in the sequence, counts it, and
-- writes no other node's links.
pub insert-IsList :
    (h : Links) (l : ListImpl) (node : ℕ) (ys zs : List ℕ)
    → IsList h l (ys ++ zs)
    → has node (0 ∷ l.head ∷ ys ++ zs) ≡ false
    → let (h', l') = insert h l node (first_or zs l.head) in
      IsList h' l' (ys ++ node ∷ zs)
      × (l'.head ≡ l.head)
      × SameOutside h h' (node ∷ l.head ∷ ys ++ zs)
unfolding insert
insert-IsList h l node ys zs is new =
    let pos = first_or zs l.head in
    let nonnull : (pos == 0) ≡ false =
      ==_ne pos 0 (λ e. first_or-ne 0 l.head ys zs is.ring.not_null (sym e)) in
    let ins = ring-Inserted node ys zs is.ring new in
    rw nonnull (
      record {
        ring = insert-IsRing node ys zs is.ring new;
        counted = omega (arith, is.counted, length-append ys zs, length-append ys (node ∷ zs));
      },
      refl,
      λ p out. (
        ground (arith, ins.next_at p, has-last_or l.head ys, has-append p ys zs),
        ground (arith, ins.prev_at p, has-first_or zs l.head, has-append p ys zs),
      ),
    )

-- `remove` of a node of the list takes it out of the sequence, leaves it linked to itself, counts
-- down, and writes no other node's links.
pub remove-IsList :
    (h : Links) (l : ListImpl) (node : ℕ) (ys zs : List ℕ)
    → IsList h l (ys ++ node ∷ zs)
    → let (h', l') = remove h l node in
      IsList h' l' (ys ++ zs)
      × (l'.head ≡ l.head)
      × Linked h' node node
      × SameOutside h h' (l.head ∷ ys ++ node ∷ zs)
unfolding remove
remove-IsList h l node ys zs is =
    let un = ring-Unlinked node ys zs is.ring in
    (
      record {
        ring = remove-IsRing node ys zs is.ring;
        counted = omega (arith, is.counted, length-append ys zs, length-append ys (node ∷ zs));
      },
      refl,
      (ground (arith, un.next_at node), ground (arith, un.prev_at node)),
      λ p out. (
        ground (arith, un.next_at p, has-last_or l.head ys, has-append p ys (node ∷ zs)),
        ground (arith, un.prev_at p, has-first_or zs l.head, has-append p ys (node ∷ zs)),
      ),
    )
