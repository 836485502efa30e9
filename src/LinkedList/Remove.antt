-- ===== src/LinkedList/Remove.antt =====
-- `remove` takes one node out of the chain.
use eterna.Base.{
  ℕ, zero, suc, ◌+◌, ◌-◌, ◌≤◌, ◌<◌, ◌≡◌, ◌≢◌, ◌∙◌, refl, ap, subst, sym, true, false, List, [], ◌∷◌,
  arith, ◌==◌, leb, length,
}
use eterna.LinkedList.{Node, SinglyLinkedList, write_node, remove_loop, remove}
use eterna.LinkedList.Chain.{Chain, Missing, Different, Chain-write_node}

module _ {A : Type 0} where
  -- The list without one element.
  unfoldable pub remove_at : List (ℕ × A) → ℕ → List (ℕ × A)
  remove_at [] k = []
  remove_at (x ∷ xs) zero = xs
  remove_at (x ∷ xs) (suc k) = x ∷ remove_at xs k

  length-remove_at :
      (xs : List (ℕ × A)) (k : ℕ) → k < length xs → length (remove_at xs k) + 1 ≡ length xs
  unfolding remove_at
  length-remove_at [] k inside = absurd (omega arith)
  length-remove_at (x ∷ xs) zero inside = omega arith
  length-remove_at (x ∷ xs) (suc k) inside = omega (arith, length-remove_at xs k (omega arith))

  Missing-remove_at :
      (a : ℕ) (xs : List (ℕ × A)) (k : ℕ) → Missing a xs → Missing a (remove_at xs k)
  unfolding remove_at
  Missing-remove_at a [] k away = tt
  Missing-remove_at a (x ∷ xs) zero (ne, away) = away
  Missing-remove_at a (x ∷ xs) (suc k) (ne, away) = (ne, Missing-remove_at a xs k away)

  Different-remove_at : (xs : List (ℕ × A)) (k : ℕ) → Different xs → Different (remove_at xs k)
  unfolding remove_at
  Different-remove_at [] k d = tt
  Different-remove_at (x ∷ xs) zero (away, d) = d
  Different-remove_at ((a, v) ∷ xs) (suc k) (away, d) =
      (Missing-remove_at a xs k away, Different-remove_at xs k d)

  -- The previous node is one of the list.
  previous_in :
      (m : ℕ → Node A) (p k b a : ℕ) (v : A) (xs : List (ℕ × A))
      → Chain m p ((a, v) ∷ xs)
      → k < length xs + 1
      → Missing b ((a, v) ∷ xs)
      → b ≢ (remove_loop m k p).0
  unfolding remove_loop
  previous_in m p zero b a v xs (e, pos, d, c) inside (ne, away) = λ q. ne (q ∙ e)
  previous_in m p (suc k) b a v [] (e, pos, d, c) inside away = absurd (omega arith)
  previous_in m p (suc k) b a v ((a', w) ∷ xs) (e, pos, d, c) inside (ne, away) =
      previous_in m (m p).next k b a' w xs (rw e c) (omega arith) away

  abbrev unlinked : (ℕ → Node A) → ℕ → ℕ → ℕ → Node A
  unlinked m k p =
      let r = remove_loop m k p in write_node m r.0 (record (m r.0) { next = (m r.1).next })

  -- Unlinking the node behind the `k`th one.
  unlinked-Chain :
      (m : ℕ → Node A) (p k a : ℕ) (v : A) (xs : List (ℕ × A))
      → Chain m p ((a, v) ∷ xs)
      → Different ((a, v) ∷ xs)
      → k < length xs
      → Chain (unlinked m k p) p ((a, v) ∷ remove_at xs k)
  unfolding remove_loop remove_at write_node
  unlinked-Chain m p k a v [] c diff inside = absurd (omega arith)
  unlinked-Chain m p zero a v ((b, w) ∷ xs) (e, pos, d, (e', pos', d', c)) ((ne, away), diff)
        inside =
      let n : Node A = record (m p) { next = (m (m p).next).next } in
      let here : (a == p) ≡ true = ground (arith, e) in
      let at_a : write_node m p n a ≡ n = rw here refl in
      let data_at : (m p).data_ ≡ v = ap (λ q. (m q).data_) e ∙ d in
      let next_at : (m (m p).next).next ≡ (m b).next =
        ap (λ q. (m q).next) (ap (λ q. (m q).next) e ∙ e') in
      let rest = Chain-write_node m (m b).next p n xs (subst (λ q. Missing q xs) (sym e) away) c in
      (
        e,
        pos,
        ap (λ x. x.data_) at_a ∙ data_at,
        subst (λ q. Chain (write_node m p n) q xs) (sym (ap (λ x. x.next) at_a ∙ next_at)) rest,
      )
  unlinked-Chain m p (suc k) a v ((b, w) ∷ xs) (e, pos, d, c) (away, diff) inside =
      let rest = unlinked-Chain m (m p).next k b w xs (rw e c) diff (omega arith) in
      let kept : unlinked m k (m p).next a ≡ m a =
        let apart : (a == (remove_loop m k (m p).next).0) ≡ false =
          ground (arith, previous_in m (m p).next k a b w xs (rw e c) (omega arith) away) in
        rw apart refl in
      let same : (m p).next ≡ (unlinked m k (m p).next a).next =
        ap (λ q. (m q).next) e ∙ sym (ap (λ x. x.next) kept) in
      (
        e,
        pos,
        ap (λ x. x.data_) kept ∙ d,
        subst (λ q. Chain (unlinked m k (m p).next) q ((b, w) ∷ remove_at xs k)) same rest,
      )

  -- The list but for its tail.
  pub record IsChain (s : SinglyLinkedList A) (xs : List (ℕ × A)) : Type 0 where
    pub chain : Chain s.nodes s.head xs
    pub different : Different xs
    pub counted : s.length ≡ length xs

  module _ (s : SinglyLinkedList A) (a : ℕ) (v : A) (xs : List (ℕ × A))
      (l : IsChain s ((a, v) ∷ xs)) where
    remove_first-IsChain : IsChain (remove s 0).0 xs
    unfolding remove
    remove_first-IsChain =
        let (e, pos, d, c) = l.chain in
        let inside : leb s.length 0 ≡ false = ground (arith, l.counted) in
        let some_head : (s.head == 0) ≡ false = ground (arith, e) in
        rw (inside, some_head)
          (record {
            chain = subst (λ q. Chain s.nodes (s.nodes q).next xs) (sym e) c;
            different = l.different.1;
            counted = omega (arith, l.counted);
          })

    remove_later-IsChain :
        (k : ℕ) → k < length xs → IsChain (remove s (suc k)).0 ((a, v) ∷ remove_at xs k)
    unfolding remove
    remove_later-IsChain k within =
        let inside : leb s.length (suc k) ≡ false = ground (arith, l.counted) in
        let steps : suc k - 1 ≡ k = omega arith in
        let later : (suc k == 0) ≡ false = ground arith in
        rw (inside, later, steps)
          (record {
            chain = unlinked-Chain s.nodes s.head k a v xs l.chain l.different within;
            different =
                (Missing-remove_at a xs k l.different.0, Different-remove_at xs k l.different.1);
            counted = omega (arith, l.counted, length-remove_at xs k within);
          })

    remove_says : (index : ℕ) → index < length xs + 1 → (remove s index).1 ≡ true
    unfolding remove
    remove_says index within = ground (arith, l.counted)

  -- `remove` of an index in the list takes its node out of the chain and reports it.
  pub remove-IsChain :
      (s : SinglyLinkedList A) (xs : List (ℕ × A)) (index : ℕ)
      → IsChain s xs
      → index < length xs
      → IsChain (remove s index).0 (remove_at xs index) × ((remove s index).1 ≡ true)
  unfolding remove_at
  remove-IsChain s [] index l within = absurd (omega arith)
  remove-IsChain s ((a, v) ∷ xs) zero l within =
      (remove_first-IsChain s a v xs l, remove_says s a v xs l 0 (omega arith))
  remove-IsChain s ((a, v) ∷ xs) (suc k) l within = (
    remove_later-IsChain s a v xs l k (omega arith),
    remove_says s a v xs l (suc k) (omega arith),
  )

  -- `remove` of an index past the end changes nothing and reports that.
  pub remove_past :
      (s : SinglyLinkedList A) (xs : List (ℕ × A)) (index : ℕ)
      → IsChain s xs
      → length xs ≤ index
      → remove s index ≡ (s, false)
  unfolding remove
  remove_past s xs index l past =
      let over : leb s.length index ≡ true = ground (arith, l.counted) in rw over refl
