-- ===== src/DataType/LinkedList/Order.antt =====
-- The walks along a list: `insert_in_order`, `iter` and `iter_until`, and `send_to` between lists.
use mos_core.Prelude.{
  ℕ, zero, suc, ◌<◌, ◌≡◌, refl, Bool, true, false, List, [], ◌∷◌, ◌++◌, some, arith, if◌then◌else◌,
  length, sym, ap, ◌∙◌, subst, append-nil,
}
use mos_core.DataType.Sequence.{
  has, before, behind, before-append-behind, insert_sorted, insert_sorted-split, has-append,
  has-insert, Distinct-remove,
}
use mos_core.DataType.LinkedList.{
  Links, ListImpl, insert, remove, add, send_to, begin, seek, insert_in_order, iter_from, iter,
  iter_until_from, iter_until,
}
use mos_core.DataType.LinkedList.Shape.{Chain, IsList, first_or, Chain-first, Chain-frame}
use mos_core.DataType.LinkedList.Edit.{SameOutside, insert-IsList, remove-IsList}

seek-behind :
    (fuel : ℕ) (cmp : ℕ → ℕ → Bool) (h : Links) (a : ℕ) (xs : List ℕ) (stop node : ℕ)
    → Chain h a xs stop
    → has stop xs ≡ false
    → length xs < fuel
    → seek fuel cmp h stop node (first_or xs stop) ≡ some (first_or (behind cmp node xs) stop)
unfolding seek
seek-behind zero cmp h a xs stop node c out lt = absurd (omega arith)
seek-behind (suc fuel) cmp h a [] stop node c out lt = ground arith
seek-behind (suc fuel) cmp h a (x ∷ xs) stop node c out lt = ground (
  arith,
  Chain-first h x xs stop c.1,
  seek-behind fuel cmp h x xs stop node c.1 (ground arith) (omega arith),
)

-- `insert_in_order` with fuel for one round more than the list has nodes ends, and puts a new node
-- before the first one that does not compare below it: it counts it and writes no other list.
pub insert_in_order-IsList :
    (fuel : ℕ) (cmp : ℕ → ℕ → Bool) (h : Links) (l : ListImpl) (node : ℕ) (xs : List ℕ)
    → IsList h l xs
    → has node (0 ∷ l.head ∷ xs) ≡ false
    → length xs < fuel
    → (r : Links × ListImpl) × (insert_in_order fuel cmp h l node ≡ some r)
      × IsList r.0 r.1 (insert_sorted cmp node xs)
      × (r.1.head ≡ l.head)
      × SameOutside h r.0 (node ∷ l.head ∷ xs)
unfolding insert_in_order begin
insert_in_order-IsList fuel cmp h l node xs is new lt =
    let ys = before cmp node xs in
    let zs = behind cmp node xs in
    let whole = before-append-behind cmp node xs in
    let start : h.next l.head ≡ first_or xs l.head = Chain-first h l.head xs l.head is.ring.chain in
    let found = seek-behind fuel cmp h l.head xs l.head node is.ring.chain is.ring.apart lt in
    let (list, kept, same) =
      insert-IsList h l node ys zs (subst (λ t. IsList h l t) (sym whole) is)
        (ground (arith, whole)) in
    (
      insert h l node (first_or zs l.head),
      rw (ap (seek fuel cmp h l.head node) start ∙ found, insert_in_order),
      rw insert_sorted-split list,
      kept,
      subst (λ t. SameOutside h (insert h l node (first_or zs l.head)).0 (node ∷ l.head ∷ t)) whole
          same,
    )

iter_from-nodes :
    (fuel : ℕ) (h : Links) (a : ℕ) (xs : List ℕ) (stop : ℕ)
    → Chain h a xs stop
    → has stop xs ≡ false
    → length xs < fuel
    → iter_from fuel h stop (first_or xs stop) ≡ some xs
unfolding iter_from
iter_from-nodes zero h a xs stop c out lt = absurd (omega arith)
iter_from-nodes (suc fuel) h a [] stop c out lt = ground arith
iter_from-nodes (suc fuel) h a (x ∷ xs) stop c out lt = ground (
  arith,
  Chain-first h x xs stop c.1,
  iter_from-nodes fuel h x xs stop c.1 (ground arith) (omega arith),
)

-- `iter` ends, and visits each node of the list once, in order.
pub iter-nodes :
    (fuel : ℕ) (h : Links) (l : ListImpl) (xs : List ℕ)
    → IsList h l xs
    → length xs < fuel
    → iter fuel h l ≡ some xs
unfolding iter begin
iter-nodes fuel h l xs is lt =
    rw (Chain-first h l.head xs l.head is.ring.chain)
      (iter_from-nodes fuel h l.head xs l.head is.ring.chain is.ring.apart lt)

-- The first node of a sequence that the test accepts, or `nullptr`.
abbrev pub find_node : (ℕ → Bool) → List ℕ → ℕ
find_node test [] = 0
find_node test (x ∷ xs) = if test x then x else find_node test xs

iter_until_from-find :
    (fuel : ℕ) (test : ℕ → Bool) (h : Links) (a : ℕ) (xs : List ℕ) (stop : ℕ)
    → Chain h a xs stop
    → has stop xs ≡ false
    → length xs < fuel
    → iter_until_from fuel test h stop (first_or xs stop) ≡ some (find_node test xs)
unfolding iter_until_from
iter_until_from-find zero test h a xs stop c out lt = absurd (omega arith)
iter_until_from-find (suc fuel) test h a [] stop c out lt = ground arith
iter_until_from-find (suc fuel) test h a (x ∷ xs) stop c out lt = ground (
  arith,
  Chain-first h x xs stop c.1,
  iter_until_from-find fuel test h x xs stop c.1 (ground arith) (omega arith),
)

-- `iter_until` ends, with the first node that the test accepts, or with `nullptr` if none is.
pub iter_until-find :
    (fuel : ℕ) (test : ℕ → Bool) (h : Links) (l : ListImpl) (xs : List ℕ)
    → IsList h l xs
    → length xs < fuel
    → iter_until fuel test h l ≡ some (find_node test xs)
unfolding iter_until begin
iter_until-find fuel test h l xs is lt =
    rw (Chain-first h l.head xs l.head is.ring.chain)
      (iter_until_from-find fuel test h l.head xs l.head is.ring.chain is.ring.apart lt)

-- A list survives what is written outside of its nodes.
IsList-frame :
    (h g : Links) (l : ListImpl) (xs ws : List ℕ)
    → SameOutside h g ws
    → ((p : ℕ) → has p (l.head ∷ xs) ≡ true → has p ws ≡ false)
    → IsList h l xs
    → IsList g l xs
IsList-frame h g l xs ws same apart is = record {
  ring = record {
    chain =
        Chain-frame h g l.head xs l.head (λ p i. (same p (apart p i)).0)
          (λ p i. (same p (apart p i)).1) is.ring.chain;
    apart = is.ring.apart;
    distinct = is.ring.distinct;
    not_null = is.ring.not_null;
  };
  counted = is.counted;
}

-- A Boolean that cannot be true is false.
false_of : (b : Bool) → (b ≡ true → b ≡ false) → b ≡ false
false_of true h = h refl
false_of false h = refl

module _ (h : Links) (src dest : ListImpl) (node : ℕ) (ys zs ws : List ℕ)
    (is : IsList h src (ys ++ node ∷ zs)) (at : IsList h dest ws)
    (apart : (p : ℕ)
      → has p (dest.head ∷ ws) ≡ true
      → has p (src.head ∷ ys ++ node ∷ zs) ≡ false) where
  not-in-dest : has node (0 ∷ dest.head ∷ ws ++ []) ≡ false
  not-in-dest =
      let o =
        false_of (has node (dest.head ∷ ws))
          (λ i. ground (arith, apart node i, has-insert node node ys zs)) in
      ground (arith, is.ring.not_null, o, has-insert 0 node ys zs, has-append node ws [])

  not-moved :
      (p : ℕ) → has p (src.head ∷ ys ++ zs) ≡ true → has p (node ∷ dest.head ∷ ws ++ []) ≡ false
  not-moved p i =
      let o =
        false_of (has p (dest.head ∷ ws))
          (λ j. ground (arith, apart p j, has-insert p node ys zs)) in
      let (out, _) = Distinct-remove node ys zs is.ring.distinct in
      ground (arith, o, has-insert src.head node ys zs, is.ring.apart, has-append p ws [])

-- `send_to` between two lists that share no node moves the node from its place in the one to the
-- end of the other; both stay lists in memory with their nodes counted.
pub send_to-IsList :
    (h : Links) (src dest : ListImpl) (node : ℕ) (ys zs ws : List ℕ)
    → IsList h src (ys ++ node ∷ zs)
    → IsList h dest ws
    → ((p : ℕ) → has p (dest.head ∷ ws) ≡ true → has p (src.head ∷ ys ++ node ∷ zs) ≡ false)
    → let (h', src', dest') = send_to h src dest node in
      IsList h' src' (ys ++ zs) × IsList h' dest' (ws ++ node ∷ [])
unfolding send_to add
send_to-IsList h src dest node ys zs ws is at apart =
    let (left, kept, alone, same) = remove-IsList h src node ys zs is in
    let h1 = (remove h src node).0 in
    let still : IsList h1 dest (ws ++ []) =
      subst (λ t. IsList h1 dest t) (sym (append-nil ws))
        (IsList-frame h h1 dest ws (src.head ∷ ys ++ node ∷ zs) same apart at) in
    let (moved, _, spared) =
      insert-IsList h1 dest node ws [] still (not-in-dest h src dest node ys zs ws is at apart) in
    (
      IsList-frame h1 _ _ (ys ++ zs) (node ∷ dest.head ∷ ws ++ []) spared
          (not-moved h src dest node ys zs ws is at apart) left,
      moved,
    )
