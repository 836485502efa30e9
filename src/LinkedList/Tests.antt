-- ===== src/LinkedList/Tests.antt =====
-- A list at concrete values: nodes at 0x100 and 0x200.
use eterna.Base.{ℕ, some, ◌≡◌, refl, true, List, [], ◌∷◌, arith, ◌==◌, if◌then◌else◌}
use eterna.LinkedList.{SinglyLinkedList, remove, add_end, for_each, destroy_loop}
use eterna.LinkedList.Lookup.{for_each-addresses}
use eterna.LinkedList.End.{add_end-IsList}
use eterna.LinkedList.Ops.{IsList}
use eterna.LinkedList.Remove.{IsChain, remove_at, remove-IsChain}

abbrev two : SinglyLinkedList ℕ
two = record {
  nodes = λ p.
      if p == 0x100 then record { data_ = 7; next = 0x200 } else record { data_ = 8; next = 0 };
  length = 2;
  head = 0x100;
  tail = 0x200;
  deleted = [];
}

abbrev its_nodes : List (ℕ × ℕ)
its_nodes = (0x100, 7) ∷ (0x200, 8) ∷ []

two-IsList : IsList two its_nodes
two-IsList = record {
  chain = (refl, omega arith, refl, (refl, omega arith, refl, refl));
  different = ((omega arith, tt), (tt, tt));
  counted = refl;
  last = refl;
}

two-IsChain : IsChain two its_nodes
two-IsChain = record { chain = two-IsList.chain; different = two-IsList.different; counted = refl }

remove-IsChain_example :
    IsChain (remove two 1).0 (remove_at its_nodes 1) × ((remove two 1).1 ≡ true)
remove-IsChain_example = remove-IsChain two its_nodes 1 two-IsChain (omega arith)

add_end-IsList_example :
    (t : SinglyLinkedList ℕ) × (add_end two 0x300 9 ≡ some t)
    × IsList t ((0x100, 7) ∷ (0x200, 8) ∷ (0x300, 9) ∷ [])
add_end-IsList_example =
    add_end-IsList two 0x300 0x100 9 7 ((0x200, 8) ∷ []) two-IsList (omega arith)
      (omega arith, (omega arith, tt))

for_each-addresses_example :
    (for_each two 3 ≡ 0x100 ∷ 0x200 ∷ [])
    × ((destroy_loop 3 two).head ≡ 0)
    × ((destroy_loop 3 two).deleted ≡ 0x200 ∷ 0x100 ∷ [])
for_each-addresses_example = for_each-addresses two its_nodes two-IsList
