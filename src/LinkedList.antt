-- ===== src/LinkedList.antt =====
-- `SinglyLinkedList`, include/linked_list.hpp: nodes in memory, with the pointers of the list. The node that `new`
-- gives is a parameter of `add` and `add_end`, 0 if there is none; `delete` records the node. The length is
-- not cut at 64 bits, since a list is shorter than memory, and the loop of `remove` is that of a list with `Length` nodes.
pub mod Chain
pub mod Ops
pub mod Remove
pub mod Lookup
pub mod End
mod Tests
use eterna.Base.{
  ℕ, zero, suc, ◌+◌, ◌-◌, Bool, true, false, Option, none, some, List, [], ◌∷◌, leb, ◌==◌,
  if◌then◌else◌,
}

pub record Node (A : Type 0) : Type 0 where
  pub data_ : A
  pub next : ℕ

pub record SinglyLinkedList (A : Type 0) : Type 0 where
  pub nodes : ℕ → Node A
  pub length : ℕ
  pub head : ℕ
  pub tail : ℕ
  pub deleted : List ℕ

module _ {A : Type 0} where
  unfoldable pub write_node : (ℕ → Node A) → ℕ → Node A → ℕ → Node A
  write_node m p n q = if q == p then n else m q

  unfoldable pub add : SinglyLinkedList A → ℕ → A → SinglyLinkedList A
  add s new_head value = if new_head == 0 then s else record {
    nodes = write_node s.nodes new_head (record { data_ = value; next = s.head });
    length = s.length + 1;
    head = new_head;
    tail = if s.tail == 0 then new_head else s.tail;
    deleted = s.deleted;
  }

  -- `none` where the list is empty: the source calls a function that is not declared.
  unfoldable pub add_end : SinglyLinkedList A → ℕ → A → Option (SinglyLinkedList A)
  add_end s new_tail value =
      if s.head == 0
      then none
      else if new_tail == 0
      then some s
      else let created = write_node s.nodes new_tail (record { data_ = value; next = 0 }) in
        let tail = if s.tail == 0 then s.head else s.tail in
        some (record {
          nodes = write_node created tail (record (created tail) { next = new_tail });
          length = s.length + 1;
          head = s.head;
          tail = new_tail;
          deleted = s.deleted;
        })

  -- The loop of `at`, with `index` already counted up: the last node reached.
  unfoldable pub at_loop : (ℕ → Node A) → ℕ → ℕ → ℕ → ℕ
  at_loop m zero it out = out
  at_loop m (suc index) it out =
      let rest = at_loop m index (m it).next it in if it == 0 then out else rest

  -- `none` is the null pointer that is dereferenced where there is no node.
  unfoldable pub at : SinglyLinkedList A → ℕ → Option A
  at s index =
      let out = at_loop s.nodes (index + 1) s.head 0 in
      if out == 0 then none else some (s.nodes out).data_

  -- The loop of `for_each`: the nodes that the callback, which does not change the list, is given in turn.
  unfoldable pub for_each_loop : (ℕ → Node A) → ℕ → ℕ → List ℕ
  for_each_loop m zero it = []
  for_each_loop m (suc rounds) it =
      let rest = for_each_loop m rounds (m it).next in if it == 0 then [] else it ∷ rest

  unfoldable pub for_each : SinglyLinkedList A → ℕ → List ℕ
  for_each s rounds = for_each_loop s.nodes rounds s.head

  -- The loop of `~SinglyLinkedList`, which reads a node's `Next` before it deletes the node.
  unfoldable pub destroy_loop : ℕ → SinglyLinkedList A → SinglyLinkedList A
  destroy_loop zero s = s
  destroy_loop (suc rounds) s =
      let rest =
        destroy_loop rounds
          (record s { head = (s.nodes s.head).next; deleted = s.head ∷ s.deleted }) in
      if s.head == 0 then s else rest

  -- The loop of `remove` before its `left + 1`th step: the previous node and the current one.
  unfoldable pub remove_loop : (ℕ → Node A) → ℕ → ℕ → ℕ × ℕ
  remove_loop m zero prev = (prev, (m prev).next)
  remove_loop m (suc left) prev = remove_loop m left (m prev).next

  unfoldable pub remove : SinglyLinkedList A → ℕ → SinglyLinkedList A × Bool
  remove s index =
      let (prev, current) = remove_loop s.nodes (index - 1) s.head in
      let next = (s.nodes current).next in
      if leb s.length index
      then (s, false)
      else if index == 0
      then if s.head == 0 then (record s { tail = 0 }, true) else (
        record s {
          head = (s.nodes s.head).next;
          length = s.length - 1;
          deleted = s.head ∷ s.deleted;
        },
        true,
      )
      else (
        record s {
          nodes = write_node s.nodes prev (record (s.nodes prev) { next = next });
          length = s.length - 1;
          tail = if next == 0 then prev else s.tail;
          deleted = current ∷ s.deleted;
        },
        true,
      )
