-- ===== src/LinkedList/Ops.antt =====
-- A list of nodes, and `add`.
use eterna.Base.{
  ℕ, ◌<◌, ◌≡◌, refl, ap, subst, sym, true, false, List, [], ◌∷◌, arith, ◌==◌, if◌then◌else◌, length,
}
use eterna.LinkedList.{Node, SinglyLinkedList, write_node, add}
use eterna.LinkedList.Chain.{Chain, Missing, Different, last_address, Chain-write_node}

module _ {A : Type 0} where
  -- The list's nodes are a chain of different addresses, which the length counts and whose last is the tail.
  pub record IsList (s : SinglyLinkedList A) (xs : List (ℕ × A)) : Type 0 where
    pub chain : Chain s.nodes s.head xs
    pub different : Different xs
    pub counted : s.length ≡ length xs
    pub last : s.tail ≡ last_address 0 xs

  pub last_address_pos :
      (m : ℕ → Node A) (p a : ℕ) (v : A) (xs : List (ℕ × A))
      → Chain m p ((a, v) ∷ xs)
      → 0 < last_address a xs
  last_address_pos m p a v [] (e, pos, d, c) = pos
  last_address_pos m p a v ((b, w) ∷ xs) (e, pos, d, c) = last_address_pos m (m a).next b w xs c

  module _ (s : SinglyLinkedList A) (xs : List (ℕ × A)) (a : ℕ) (v : A) (l : IsList s xs)
      (pos : 0 < a) (fresh : Missing a xs) where
    new_tail : (if s.tail == 0 then a else s.tail) ≡ last_address a xs
    new_tail = by_shape xs l.chain l.last
      where
        by_shape :
            (ys : List (ℕ × A))
            → Chain s.nodes s.head ys
            → s.tail ≡ last_address 0 ys
            → (if s.tail == 0 then a else s.tail) ≡ last_address a ys
        by_shape [] c e = ground (arith, e)
        by_shape ((b, w) ∷ ys) c e = ground (arith, e, last_address_pos s.nodes s.head b w ys c)

    abbrev front : Node A
    front = record { data_ = v; next = s.head }

    written_front : write_node s.nodes a front a ≡ front
    unfolding write_node
    written_front = let same : (a == a) ≡ true = ground arith in rw same refl

    -- `add` puts a new node in front.
    pub add-IsList : IsList (add s a v) ((a, v) ∷ xs)
    unfolding add
    add-IsList =
        let some_node : (a == 0) ≡ false = ground arith in
        let m = write_node s.nodes a front in
        rw some_node (record {
          chain = (
            refl,
            pos,
            ap (λ n. n.data_) written_front,
            subst (λ q. Chain m q xs) (sym (ap (λ n. n.next) written_front))
                (Chain-write_node s.nodes s.head a front xs fresh l.chain),
          );
          different = (fresh, l.different);
          counted = omega (arith, l.counted);
          last = new_tail;
        })
