-- ===== src/DataType/Sequence.antt =====
-- Sequences of nodes: what the list operations of kernel/data_type/list.hpp do to the order.
use mos_core.Prelude.{
  ℕ, suc, ◌≤◌, ◌≡◌, refl, ◌≢◌, Bool, true, false, ◌||◌, List, [], ◌∷◌, ◌++◌, arith, ◌==◌,
  if◌then◌else◌, ltb, length, Bool-cases, inl, inr, sym, subst,
}

abbrev pub has : ℕ → List ℕ → Bool
has a [] = false
has a (x ∷ xs) = (a == x) || has a xs

abbrev pub Distinct : List ℕ → Type 0
Distinct [] = Unit {0}
Distinct (x ∷ xs) = (has x xs ≡ false) × Distinct xs

pub has-append : (a : ℕ) (xs ys : List ℕ) → has a (xs ++ ys) ≡ (has a xs || has a ys)
has-append a [] ys = refl
has-append a (x ∷ xs) ys = ground (arith, has-append a xs ys)

pub has-insert :
    (a node : ℕ) (ys zs : List ℕ) → has a (ys ++ node ∷ zs) ≡ ((a == node) || has a (ys ++ zs))
has-insert a node [] zs = refl
has-insert a node (y ∷ ys) zs = ground (arith, has-insert a node ys zs)

pub Distinct-insert :
    (node : ℕ) (ys zs : List ℕ)
    → has node (ys ++ zs) ≡ false
    → Distinct (ys ++ zs)
    → Distinct (ys ++ node ∷ zs)
Distinct-insert node [] zs new d = (new, d)
Distinct-insert node (y ∷ ys) zs new d =
    (ground (arith, has-insert y node ys zs), Distinct-insert node ys zs (ground arith) d.1)

pub Distinct-remove :
    (node : ℕ) (ys zs : List ℕ)
    → Distinct (ys ++ node ∷ zs)
    → (has node (ys ++ zs) ≡ false) × Distinct (ys ++ zs)
Distinct-remove node [] zs d = d
Distinct-remove node (y ∷ ys) zs d =
    let (out, rest) = Distinct-remove node ys zs d.1 in
    (ground (arith, has-insert y node ys zs), (ground (arith, has-insert y node ys zs), rest))

-- Where the walk of `insert_in_order` stops: the nodes before the place, and those behind it.
abbrev pub before : (ℕ → ℕ → Bool) → ℕ → List ℕ → List ℕ
before cmp node [] = []
before cmp node (x ∷ xs) = if cmp x node then x ∷ before cmp node xs else []

abbrev pub behind : (ℕ → ℕ → Bool) → ℕ → List ℕ → List ℕ
behind cmp node [] = []
behind cmp node (x ∷ xs) = if cmp x node then behind cmp node xs else x ∷ xs

pub before-append-behind :
    (cmp : ℕ → ℕ → Bool) (node : ℕ) (xs : List ℕ) → before cmp node xs ++ behind cmp node xs ≡ xs
before-append-behind cmp node [] = refl
before-append-behind cmp node (x ∷ xs) = ground (arith, before-append-behind cmp node xs)

-- The sequence after `insert_in_order`.
unfoldable pub insert_sorted : (ℕ → ℕ → Bool) → ℕ → List ℕ → List ℕ
insert_sorted cmp node [] = node ∷ []
insert_sorted cmp node (x ∷ xs) =
    if cmp x node then x ∷ insert_sorted cmp node xs else node ∷ x ∷ xs

pub insert_sorted-split :
    (cmp : ℕ → ℕ → Bool) (node : ℕ) (xs : List ℕ)
    → insert_sorted cmp node xs ≡ before cmp node xs ++ node ∷ behind cmp node xs
unfolding insert_sorted
insert_sorted-split cmp node [] = refl
insert_sorted-split cmp node (x ∷ xs) = ground (arith, insert_sorted-split cmp node xs)

-- The sequence after `remove`.
unfoldable pub erase : ℕ → List ℕ → List ℕ
erase node [] = []
erase node (x ∷ xs) = if node == x then xs else x ∷ erase node xs

pub has-insert_sorted :
    (cmp : ℕ → ℕ → Bool) (a node : ℕ) (xs : List ℕ)
    → has a (insert_sorted cmp node xs) ≡ ((a == node) || has a xs)
unfolding insert_sorted
has-insert_sorted cmp a node [] = refl
has-insert_sorted cmp a node (x ∷ xs) = ground (arith, has-insert_sorted cmp a node xs)

pub Distinct-insert_sorted :
    (cmp : ℕ → ℕ → Bool) (node : ℕ) (xs : List ℕ)
    → has node xs ≡ false
    → Distinct xs
    → Distinct (insert_sorted cmp node xs)
unfolding insert_sorted
Distinct-insert_sorted cmp node [] new d = (refl, tt)
Distinct-insert_sorted cmp node (x ∷ xs) new d = elim (Bool-cases (cmp x node)) [
  | inl e ↦ rw e (
    ground (arith, has-insert_sorted cmp x node xs),
    Distinct-insert_sorted cmp node xs (ground arith) d.1,
  )
  | inr e ↦ rw e (new, d)
]

pub length-insert_sorted :
    (cmp : ℕ → ℕ → Bool) (node : ℕ) (xs : List ℕ)
    → length (insert_sorted cmp node xs) ≡ suc (length xs)
unfolding insert_sorted
length-insert_sorted cmp node [] = refl
length-insert_sorted cmp node (x ∷ xs) = ground (arith, length-insert_sorted cmp node xs)

pub erase_absent : (node : ℕ) (xs : List ℕ) → has node xs ≡ false → erase node xs ≡ xs
unfolding erase
erase_absent node [] out = refl
erase_absent node (x ∷ xs) out = ground (arith, erase_absent node xs)

pub has-erase_self : (node : ℕ) (xs : List ℕ) → Distinct xs → has node (erase node xs) ≡ false
unfolding erase
has-erase_self node [] d = refl
has-erase_self node (x ∷ xs) d = ground (arith, has-erase_self node xs d.1)

pub has-erase :
    (a node : ℕ) (xs : List ℕ)
    → Distinct xs
    → has a (erase node xs) ≡ (if a == node then false else has a xs)
unfolding erase
has-erase a node [] d = ground arith
has-erase a node (x ∷ xs) d = ground (arith, has-erase a node xs d.1)

pub Distinct-erase : (node : ℕ) (xs : List ℕ) → Distinct xs → Distinct (erase node xs)
unfolding erase
Distinct-erase node [] d = tt
Distinct-erase node (x ∷ xs) d = elim (Bool-cases (node == x)) [
  | inl e ↦ rw e d.1
  | inr e ↦ rw e (ground (arith, has-erase x node xs d.1), Distinct-erase node xs d.1)
]

pub length-erase :
    (node : ℕ) (xs : List ℕ) → has node xs ≡ true → suc (length (erase node xs)) ≡ length xs
unfolding erase
length-erase node [] i = cc
length-erase node (x ∷ xs) i = ground (arith, length-erase node xs)

-- No key falls along the sequence.
abbrev pub AllFrom : (ℕ → ℕ) → ℕ → List ℕ → Type 0
AllFrom key k [] = Unit {0}
AllFrom key k (x ∷ xs) = (k ≤ key x) × AllFrom key k xs

abbrev pub IsSorted : (ℕ → ℕ) → List ℕ → Type 0
IsSorted key [] = Unit {0}
IsSorted key (x ∷ xs) = AllFrom key (key x) xs × IsSorted key xs

pub AllFrom-has :
    (key : ℕ → ℕ) (k a : ℕ) (xs : List ℕ) → AllFrom key k xs → has a xs ≡ true → k ≤ key a
AllFrom-has key k a [] all i = cc
AllFrom-has key k a (x ∷ xs) all i = ground (arith, AllFrom-has key k a xs all.1)

pub AllFrom-mono :
    (key : ℕ → ℕ) (j k : ℕ) (xs : List ℕ) → j ≤ k → AllFrom key k xs → AllFrom key j xs
AllFrom-mono key j k [] le all = tt
AllFrom-mono key j k (x ∷ xs) le all = (omega arith, AllFrom-mono key j k xs le all.1)

pub AllFrom-erase :
    (key : ℕ → ℕ) (k node : ℕ) (xs : List ℕ) → AllFrom key k xs → AllFrom key k (erase node xs)
unfolding erase
AllFrom-erase key k node [] all = tt
AllFrom-erase key k node (x ∷ xs) all = ground (arith, AllFrom-erase key k node xs all.1)

pub IsSorted-erase :
    (key : ℕ → ℕ) (node : ℕ) (xs : List ℕ) → IsSorted key xs → IsSorted key (erase node xs)
unfolding erase
IsSorted-erase key node [] s = tt
IsSorted-erase key node (x ∷ xs) s =
    ground (arith, IsSorted-erase key node xs s.1, AllFrom-erase key (key x) node xs s.0)

-- The order that `TCB_t::pri_cmp` and `TCB_t::wkpt_cmp` compare by.
abbrev pub by_key : (ℕ → ℕ) → ℕ → ℕ → Bool
by_key key a b = ltb (key a) (key b)

pub AllFrom-insert_sorted :
    (key : ℕ → ℕ) (k node : ℕ) (xs : List ℕ)
    → k ≤ key node
    → AllFrom key k xs
    → AllFrom key k (insert_sorted (by_key key) node xs)
unfolding insert_sorted
AllFrom-insert_sorted key k node [] le all = (le, tt)
AllFrom-insert_sorted key k node (x ∷ xs) le all =
    ground (arith, AllFrom-insert_sorted key k node xs le all.1)

-- `insert_in_order` keeps a sorted list sorted.
pub IsSorted-insert_sorted :
    (key : ℕ → ℕ) (node : ℕ) (xs : List ℕ)
    → IsSorted key xs
    → IsSorted key (insert_sorted (by_key key) node xs)
unfolding insert_sorted
IsSorted-insert_sorted key node [] s = (tt, tt)
IsSorted-insert_sorted key node (x ∷ xs) s = elim (Bool-cases (ltb (key x) (key node))) [
  | inl e ↦ rw e (
    AllFrom-insert_sorted key (key x) node xs (ground arith) s.0,
    IsSorted-insert_sorted key node xs s.1,
  )
  | inr e ↦ rw e ((ground arith, AllFrom-mono key (key node) (key x) xs (ground arith) s.0), s)
]

AllFrom-congr :
    (key key' : ℕ → ℕ) (t k : ℕ) (xs : List ℕ)
    → has t xs ≡ false
    → ((x : ℕ) → x ≢ t → key' x ≡ key x)
    → AllFrom key k xs
    → AllFrom key' k xs
AllFrom-congr key key' t k [] out same all = tt
AllFrom-congr key key' t k (x ∷ xs) out same all =
    let ne : x ≢ t = ground arith in
    (omega (arith, same x ne, all.0), AllFrom-congr key key' t k xs (ground arith) same all.1)

pub IsSorted-congr :
    (key key' : ℕ → ℕ) (t : ℕ) (xs : List ℕ)
    → has t xs ≡ false
    → ((x : ℕ) → x ≢ t → key' x ≡ key x)
    → IsSorted key xs
    → IsSorted key' xs
IsSorted-congr key key' t [] out same s = tt
IsSorted-congr key key' t (x ∷ xs) out same s =
    let ne : x ≢ t = ground arith in
    (
      subst (λ k. AllFrom key' k xs) (sym (same x ne))
          (AllFrom-congr key key' t (key x) xs (ground arith) same s.0),
      IsSorted-congr key key' t xs (ground arith) same s.1,
    )

-- A sorted list without a node stays sorted when the key of that node alone has changed.
pub IsSorted-erase_congr :
    (key key' : ℕ → ℕ) (t : ℕ) (xs : List ℕ)
    → ((x : ℕ) → x ≢ t → key' x ≡ key x)
    → Distinct xs
    → IsSorted key xs
    → IsSorted key' (erase t xs)
IsSorted-erase_congr key key' t xs same d s =
    IsSorted-congr key key' t (erase t xs) (has-erase_self t xs d) same (IsSorted-erase key t xs s)
