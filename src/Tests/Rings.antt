-- ===== src/Tests/Rings.antt =====
-- kernel/data_type/list.hpp: two lists in memory.
use mos_core.Prelude.{◌≡◌, refl, [], ◌∷◌, some, arith, ◌==◌, if◌then◌else◌}
use mos_core.DataType.Sequence.{insert_sorted, by_key}
use mos_core.DataType.LinkedList.{Links, ListImpl, insert_in_order}
use mos_core.DataType.LinkedList.Shape.{IsList}
use mos_core.DataType.LinkedList.Edit.{SameOutside}
use mos_core.DataType.LinkedList.Order.{insert_in_order-IsList}

-- A list with head 1 and the nodes 2 and 3, and a list with head 6 and the node 7; 4 is linked to
-- itself.
abbrev memory : Links
memory = record {
  next = λ p.
      if p == 1
      then 2
      else if p == 2
      then 3
      else if p == 3
      then 1
      else if p == 6
      then 7
      else if p == 7
      then 6
      else p;
  prev = λ p.
      if p == 1
      then 3
      else if p == 2
      then 1
      else if p == 3
      then 2
      else if p == 6
      then 7
      else if p == 7
      then 6
      else p;
}

abbrev here : ListImpl
here = record { head = 1; len = 2 }

abbrev there : ListImpl
there = record { head = 6; len = 1 }

here-IsList : IsList memory here (2 ∷ 3 ∷ [])
here-IsList = record {
  ring = record {
    chain = ((refl, refl), ((refl, refl), (refl, refl)));
    apart = refl;
    distinct = (refl, (refl, tt));
    not_null = refl;
  };
  counted = refl;
}

there-IsList : IsList memory there (7 ∷ [])
there-IsList = record {
  ring = record {
    chain = ((refl, refl), (refl, refl));
    apart = refl;
    distinct = (refl, tt);
    not_null = refl;
  };
  counted = refl;
}

insert_in_order-IsList_example :
    (r : Links × ListImpl) × (insert_in_order 3 (by_key (λ a. a)) memory here 4 ≡ some r)
    × IsList r.0 r.1 (insert_sorted (by_key (λ a. a)) 4 (2 ∷ 3 ∷ []))
    × (r.1.head ≡ 1)
    × SameOutside memory r.0 (4 ∷ 1 ∷ 2 ∷ 3 ∷ [])
insert_in_order-IsList_example =
    insert_in_order-IsList 3 (by_key (λ a. a)) memory here 4 (2 ∷ 3 ∷ []) here-IsList refl
      (omega arith)
