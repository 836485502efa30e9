-- ===== src/LinkedList/End.antt =====
-- `add_end` puts a node behind the last one.
use eterna.Base.{
  ℕ, ◌+◌, ◌<◌, ◌≡◌, ◌≢◌, ◌∙◌, refl, ap, sym, subst, arith, true, false, some, List, [], ◌∷◌, ◌++◌,
  ◌==◌, length-append,
}
use eterna.LinkedList.{Node, SinglyLinkedList, write_node, add_end}
use eterna.LinkedList.Chain.{Chain, Missing, Different, last_address}
use eterna.LinkedList.Ops.{IsList, last_address_pos}

module _ {A : Type 0} where
  Missing-append :
      (a b : ℕ) (v : A) (xs : List (ℕ × A)) → Missing b xs → b ≢ a → Missing b (xs ++ (a, v) ∷ [])
  Missing-append a b v [] away ne = (ne, _)
  Missing-append a b v ((c, w) ∷ xs) (ne', away) ne = (ne', Missing-append a b v xs away ne)

  Different-append :
      (a : ℕ) (v : A) (xs : List (ℕ × A))
      → Missing a xs
      → Different xs
      → Different (xs ++ (a, v) ∷ [])
  Different-append a v [] away d = (_, _)
  Different-append a v ((b, w) ∷ xs) (ne, away) (fresh, d) =
      (Missing-append a b v xs fresh (λ e. ne (sym e)), Different-append a v xs away d)

  last_address-append :
      (a b : ℕ) (v : A) (xs : List (ℕ × A)) → last_address b (xs ++ (a, v) ∷ []) ≡ a
  last_address-append a b v [] = refl
  last_address-append a b v ((c, w) ∷ xs) = last_address-append a c v xs

  last_address-Missing :
      (q b : ℕ) (w : A) (xs : List (ℕ × A)) → Missing q ((b, w) ∷ xs) → q ≢ last_address b xs
  last_address-Missing q b w [] (ne, away) = ne
  last_address-Missing q b w ((c, w') ∷ xs) (ne, away) = last_address-Missing q c w' xs away

  -- The memory with a new last node behind the one at `t`.
  record Extends (m n : ℕ → Node A) (t a : ℕ) (v : A) : Type 0 where
    linked : n t ≡ record (m t) { next = a }
    created : n a ≡ record { data_ = v; next = 0 }
    others : (q : ℕ) → q ≢ t → q ≢ a → n q ≡ m q

  Chain-append :
      (m n : ℕ → Node A) (p a b : ℕ) (v w : A) (xs : List (ℕ × A))
      → 0 < a
      → Missing a ((b, w) ∷ xs)
      → Different ((b, w) ∷ xs)
      → Extends m n (last_address b xs) a v
      → Chain m p ((b, w) ∷ xs)
      → Chain n p ((b, w) ∷ xs ++ (a, v) ∷ [])
  Chain-append m n p a b v w [] pos away d ext (e, pos', val, c) =
      let next : (n b).next ≡ a = ap (λ x. x.next) ext.linked in
      let end : (n a).next ≡ 0 = ap (λ x. x.next) ext.created in
      (e, pos', ap (λ x. x.data_) ext.linked ∙ val, (next, pos, ap (λ x. x.data_) ext.created, end))
  Chain-append m n p a b v w ((b', w') ∷ xs) pos (ne, away) (fresh, d) ext (e, pos', val, c) =
      let kept : n b ≡ m b =
        ext.others b (last_address-Missing b b' w' xs fresh) (λ same. ne (sym same)) in
      (
        e,
        pos',
        ap (λ x. x.data_) kept ∙ val,
        subst (λ q. Chain n q ((b', w') ∷ xs ++ (a, v) ∷ [])) (sym (ap (λ x. x.next) kept))
            (Chain-append m n (m b).next a b' v w' xs pos away d ext c),
      )

  module _ (s : SinglyLinkedList A) (a b : ℕ) (v w : A) (xs : List (ℕ × A))
      (l : IsList s ((b, w) ∷ xs)) (pos : 0 < a) (fresh : Missing a ((b, w) ∷ xs)) where
    abbrev last : ℕ
    last = last_address b xs

    abbrev with_node : ℕ → Node A
    with_node = write_node s.nodes a (record { data_ = v; next = 0 })

    abbrev linked_nodes : ℕ → Node A
    linked_nodes = write_node with_node last (record (with_node last) { next = a })

    linked_nodes-Extends : Extends s.nodes linked_nodes last a v
    unfolding write_node
    linked_nodes-Extends =
        let here : (last == last) ≡ true = ground arith in
        let there : (a == a) ≡ true = ground arith in
        let apart : a ≢ last = last_address-Missing a b w xs fresh in
        let away : (a == last) ≡ false = ground (arith, apart) in
        let away' : (last == a) ≡ false = ground (arith, apart) in
        record {
          linked = rw (here, away') refl;
          created = rw (away, there) refl;
          others = λ q ne ne'.
              let off : (q == last) ≡ false = ground (arith, ne) in
              let off' : (q == a) ≡ false = ground (arith, ne') in rw (off, off') refl;
        }

    -- The node is put behind those of a list that is not empty, and the list is well formed.
    pub add_end-IsList :
        (t : SinglyLinkedList A) × (add_end s a v ≡ some t) × IsList t ((b, w) ∷ xs ++ (a, v) ∷ [])
    unfolding add_end
    add_end-IsList =
        let some_head : (s.head == 0) ≡ false = ground (arith, l.chain.0, l.chain.1) in
        let some_node : (a == 0) ≡ false = ground arith in
        let some_tail : (s.tail == 0) ≡ false =
          ground (arith, l.last, last_address_pos s.nodes s.head b w xs l.chain) in
        (
          record {
            nodes = linked_nodes;
            length = s.length + 1;
            head = s.head;
            tail = a;
            deleted = s.deleted;
          },
          rw (some_head, some_node, some_tail, l.last) refl,
          record {
            chain =
                Chain-append s.nodes linked_nodes s.head a b v w xs pos fresh l.different
                  linked_nodes-Extends l.chain;
            different = Different-append a v ((b, w) ∷ xs) fresh l.different;
            counted = omega (arith, l.counted, length-append ((b, w) ∷ xs) ((a, v) ∷ []));
            last = sym (last_address-append a b v xs);
          },
        )
