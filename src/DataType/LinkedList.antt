-- ===== src/DataType/LinkedList.antt =====
-- kernel/data_type/list.hpp: `ListNode_t` and `ListImpl_t`, circular doubly linked lists of nodes
-- that stand inside other objects. A node is its address and `Links` holds the two pointers of
-- every node. Addresses are numbers, 0 is `nullptr`, and `len` wraps at 2^32. The two barriers of
-- `insert` and `remove` order the accesses, which a sequential model does anyhow.
pub mod Shape
pub mod Edit
pub mod Order
use mos_core.Prelude.{
  ℕ, zero, suc, ◌+◌, ◌-◌, ◌%◌, ◌^◌, ◌≡◌, Bool, true, false, not, ◌&&◌, List, [], ◌∷◌, Option, none,
  some, ◌==◌, if◌then◌else◌,
}

pub record Links : Type 0 where
  pub next : ℕ → ℕ
  pub prev : ℕ → ℕ

pub record ListImpl : Type 0 where
  pub head : ℕ
  pub len : ℕ

abbrev pub update : (ℕ → ℕ) → ℕ → ℕ → ℕ → ℕ
update f a v b = if b == a then v else f b

abbrev pub set_next : ℕ → ℕ → Links → Links
set_next a v h = record h { next = update h.next a v }

abbrev pub set_prev : ℕ → ℕ → Links → Links
set_prev a v h = record h { prev = update h.prev a v }

-- A node linked to itself.
pub deinit : ℕ → Links → Links
deinit node h = set_next node node (set_prev node node h)

pub size : ListImpl → ℕ
size l = l.len

pub empty : ListImpl → Bool
unfolding size
empty l = size l == 0

pub begin : Links → ListImpl → ℕ
begin h l = h.next l.head

abbrev pub end : ListImpl → ℕ
end l = l.head

-- The four writes of `insert`, in order.
abbrev pub link_before : ℕ → ℕ → Links → Links
link_before node pos h =
    let h1 = set_next node pos h in
    let h2 = set_prev node (h1.prev pos) h1 in
    let h3 = set_next (h2.prev pos) node h2 in set_prev pos node h3

pub insert : Links → ListImpl → ℕ → ℕ → Links × ListImpl
insert h l node pos =
    if pos == 0 then (h, l) else (link_before node pos h, record l { len = (l.len + 1) % 2 ^ 32 })

-- The writes of `remove`: the neighbours of the node are linked to each other, the node to itself.
abbrev pub unlink : ℕ → Links → Links
unlink node h =
    let before = h.prev node in
    let after = h.next node in deinit node (set_prev after before (set_next before after h))

pub remove : Links → ListImpl → ℕ → Links × ListImpl
unfolding deinit
remove h l node = (unlink node h, record l { len = (l.len + 2 ^ 32 - 1) % 2 ^ 32 })

-- The walk of `insert_in_order`; `none` when the fuel runs out.
seek : ℕ → (ℕ → ℕ → Bool) → Links → ℕ → ℕ → ℕ → Option ℕ
seek zero cmp h stop node st = none
seek (suc fuel) cmp h stop node st =
    let rest = seek fuel cmp h stop node (h.next st) in
    if not (st == stop) && cmp st node then rest else some st

pub insert_in_order : ℕ → (ℕ → ℕ → Bool) → Links → ListImpl → ℕ → Option (Links × ListImpl)
unfolding seek begin insert
insert_in_order fuel cmp h l node = elim (seek fuel cmp h (end l) node (begin h l)) [
  | none ↦ none
  | some st ↦ some (insert h l node st)
]

pub add : Links → ListImpl → ℕ → Links × ListImpl
unfolding insert
add h l node = insert h l node (end l)

-- `send_to`: the node leaves `src` and becomes the last one of `dest`.
pub send_to : Links → ListImpl → ListImpl → ℕ → Links × ListImpl × ListImpl
unfolding remove add
send_to h src dest node =
    let (h1, src1) = remove h src node in let (h2, dest1) = add h1 dest node in (h2, src1, dest1)

-- The nodes that `iter` visits; `none` when the fuel runs out.
iter_from : ℕ → Links → ℕ → ℕ → Option (List ℕ)
iter_from zero h stop it = none
iter_from (suc fuel) h stop it =
    let rest = iter_from fuel h stop (h.next it) in
    if it == stop then some [] else elim rest [ none ↦ none | some xs ↦ some (it ∷ xs) ]

pub iter : ℕ → Links → ListImpl → Option (List ℕ)
unfolding iter_from begin
iter fuel h l = iter_from fuel h (end l) (begin h l)

-- `iter_until`: the first node that the test accepts, or `nullptr`.
iter_until_from : ℕ → (ℕ → Bool) → Links → ℕ → ℕ → Option ℕ
iter_until_from zero test h stop it = none
iter_until_from (suc fuel) test h stop it =
    let rest = iter_until_from fuel test h stop (h.next it) in
    if it == stop then some 0 else if test it then some it else rest

pub iter_until : ℕ → (ℕ → Bool) → Links → ListImpl → Option ℕ
unfolding iter_until_from begin
iter_until fuel test h l = iter_until_from fuel test h (end l) (begin h l)
