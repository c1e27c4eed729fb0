-- ===== src/Kernel/State/Lists.antt =====
-- The task lists together: each task is in one list at most, once, and every list is counted.
use mos_core.Prelude.{
  ℕ, suc, ◌+◌, ◌%◌, ◌≡◌, ◌≢◌, Bool, true, false, ◌&&◌, ◌||◌, List, [], ◌∷◌, ◌++◌, arith, ◌==◌,
  if◌then◌else◌, length, length-append, Bool-cases, ==_ne, inl, inr, sym, ap, ◌∙◌, append-nil,
}
use mos_core.DataType.Sequence.{
  has, Distinct, has-append, erase, erase_absent, has-erase, has-erase_self, Distinct-erase,
  length-erase, insert_sorted, has-insert_sorted, Distinct-insert_sorted, length-insert_sorted,
  Distinct-insert,
}
use mos_core.Kernel.State.{
  TcbList, Kernel, nodes_of, send_to, send_to_in_order, u32, update, without,
}

-- The lists of the kernel as a whole.
pub record ListsOk (lists : ℕ → TcbList) : Type 0 where
  pub distinct : (l : ℕ) → Distinct (lists l).nodes
  pub one_home : (x l m : ℕ) → has x (lists l).nodes ≡ true → has x (lists m).nodes ≡ true → l ≡ m
  pub counted : (l : ℕ) → (lists l).len ≡ length (lists l).nodes % u32

-- The task is in none of the lists.
abbrev pub Homeless : (ℕ → TcbList) → ℕ → Type 0
Homeless lists t = (m : ℕ) → has t (lists m).nodes ≡ false

pub erase-elsewhere :
    {lists : ℕ → TcbList} (l m t : ℕ)
    → ListsOk lists
    → has t (lists l).nodes ≡ true
    → m ≢ l
    → erase t (lists m).nodes ≡ (lists m).nodes
erase-elsewhere {lists} l m t ok i ne = elim (Bool-cases (has t (lists m).nodes)) [
  | inl j ↦ absurd (ne (ok.one_home t m l j i))
  | inr o ↦ erase_absent t (lists m).nodes o
]

module _ {lists : ℕ → TcbList} (ok : ListsOk lists) (l t : ℕ) where
  pub has-without :
      (x m : ℕ)
      → has x (without l t (lists m) m).nodes ≡ (if x == t then false else has x (lists m).nodes)
  has-without x m = has-erase x t (lists m).nodes (ok.distinct m)

  pub without-Homeless : Homeless (λ m. without l t (lists m) m) t
  without-Homeless m = has-erase_self t (lists m).nodes (ok.distinct m)

  -- `remove` of a task from the list that it is in.
  pub without-ListsOk : has t (lists l).nodes ≡ true → ListsOk (λ m. without l t (lists m) m)
  without-ListsOk i = record {
    distinct = λ m. Distinct-erase t (lists m).nodes (ok.distinct m);
    one_home = λ x m n p q.
        ok.one_home x m n (ground (arith, has-without x m)) (ground (arith, has-without x n));
    counted = λ m. elim (Bool-cases (m == l)) [
      | inl e ↦
          let here : m ≡ l = ground arith in
          ground (
            arith,
            ok.counted m,
            length-erase t (lists m).nodes,
            ap (λ a. has t (lists a).nodes) here,
          )
      | inr e ↦ rw e (
          ok.counted m
          ∙ ap (λ xs. length xs % u32) (sym (erase-elsewhere l m t ok i (ground arith))))
    ];
  }

abbrev pub grown : (ℕ → TcbList) → ℕ → List ℕ → ℕ → TcbList
grown lists l xs = update lists l (record { nodes = xs; len = ((lists l).len + 1) % u32 })

-- A list that gains a task which had no home: its sequence is `xs`, with the task somewhere in it.
module _ {lists : ℕ → TcbList} (ok : ListsOk lists) (l t : ℕ) (xs : List ℕ) (new : Homeless lists t)
    (members : (x : ℕ) → has x xs ≡ ((x == t) || has x (lists l).nodes)) (d : Distinct xs)
    (longer : length xs ≡ suc (length (lists l).nodes)) where
  pub has-grown :
      (x m : ℕ)
      → has x (grown lists l xs m).nodes
        ≡ (if (m == l) && (x == t) then true else has x (lists m).nodes)
  has-grown x m = elim (Bool-cases (m == l)) [
    | inl e ↦
        let here : m ≡ l = ground arith in
        rw e (ground (arith, members x, ap (λ a. has x (lists a).nodes) here))
    | inr e ↦ rw e
  ]

  pub grown-ListsOk : ListsOk (grown lists l xs)
  grown-ListsOk = record {
    distinct = λ m. elim (Bool-cases (m == l)) [ inl e ↦ rw e d | inr e ↦ rw e (ok.distinct m) ];
    one_home =
        λ x m n p q. ground (arith, has-grown x m, has-grown x n, new m, new n, ok.one_home x m n);
    counted = λ m. elim (Bool-cases (m == l)) [
      | inl e ↦ rw e (omega (arith, ok.counted l, longer))
      | inr e ↦ rw e (ok.counted m)
    ];
  }

-- The effect on membership of moving a task from one list to another.
pub record Moved (old lists : ℕ → TcbList) (t dest : ℕ) : Type 0 where
  pub has_at :
      (x m : ℕ) → has x (lists m).nodes ≡ (if x == t then m == dest else has x (old m).nodes)
  pub ok : ListsOk lists

-- A task that was in no list has come to the list `l`.
pub grown-Moved :
    {lists : ℕ → TcbList} (ok : ListsOk lists) (l t : ℕ) (xs : List ℕ)
    → Homeless lists t
    → ((x : ℕ) → has x xs ≡ ((x == t) || has x (lists l).nodes))
    → Distinct xs
    → length xs ≡ suc (length (lists l).nodes)
    → Moved lists (grown lists l xs) t l
grown-Moved {lists} ok l t xs new members d longer = record {
  has_at = λ x m. elim (Bool-cases (x == t)) [
    | inl e ↦
        let here : x ≡ t = ground arith in
        ground (
          arith,
          has-grown ok l t xs new members d longer x m,
          ap (λ a. has a (lists m).nodes) here,
          new m,
        )
    | inr e ↦ ground (arith, has-grown ok l t xs new members d longer x m)
  ];
  ok = grown-ListsOk ok l t xs new members d longer;
}

module _ {old : ℕ → TcbList} (ok : ListsOk old) (l dest t : ℕ) (xs : List ℕ)
    (i : has t (old l).nodes ≡ true) where
  abbrev left : ℕ → TcbList
  left m = without l t (old m) m

  left-Moved :
      ((x : ℕ) → has x xs ≡ ((x == t) || has x (left dest).nodes))
      → Distinct xs
      → length xs ≡ suc (length (left dest).nodes)
      → Moved old (grown left dest xs) t dest
  left-Moved members d longer =
      let rest = without-ListsOk ok l t i in
      let alone = without-Homeless ok l t in
      record {
        has_at = λ x m.
            ground
              (arith, has-grown rest dest t xs alone members d longer x m, has-without ok l t x m);
        ok = grown-ListsOk rest dest t xs alone members d longer;
      }

module _ (k : Kernel) (l dest t : ℕ) (ok : ListsOk k.lists) (i : has t (nodes_of k l) ≡ true) where
  -- `send_to` of a task of the list.
  pub send_to-Moved : Moved k.lists (send_to k l dest t).lists t dest
  send_to-Moved =
      let ys = erase t (nodes_of k dest) in
      left-Moved ok l dest t (ys ++ t ∷ []) i (λ x. ground (arith, has-append x ys (t ∷ [])))
        (Distinct-insert t ys [] (rw append-nil (without-Homeless ok l t dest))
          (rw append-nil (Distinct-erase t (nodes_of k dest) (ok.distinct dest))))
        (omega (arith, length-append ys (t ∷ [])))

  -- `send_to_in_order` of a task of the list, which may be the same list.
  pub send_to_in_order-Moved :
      (cmp : ℕ → ℕ → Bool) → Moved k.lists (send_to_in_order k l dest cmp t).lists t dest
  send_to_in_order-Moved cmp =
      let ys = erase t (nodes_of k dest) in
      left-Moved ok l dest t (insert_sorted cmp t ys) i (λ x. has-insert_sorted cmp x t ys)
        (Distinct-insert_sorted cmp t ys (without-Homeless ok l t dest)
          (Distinct-erase t (nodes_of k dest) (ok.distinct dest)))
        (length-insert_sorted cmp t ys)

-- The lists that a task is not sent to keep their order.
pub nodes-send_to_ne :
    (k : Kernel) (l dest t m : ℕ)
    → m ≢ dest
    → nodes_of (send_to k l dest t) m ≡ erase t (nodes_of k m)
nodes-send_to_ne k l dest t m ne = rw (==_ne m dest ne, nodes_of)
