-- ===== src/LinkedList/Lookup.antt =====
-- What `at` finds, what `for_each` visits, and what the destructor deletes.
use eterna.Base.{
  ℕ, zero, suc, ◌+◌, ◌<◌, ◌≡◌, refl, arith, true, false, Option, none, some, List, [], ◌∷◌, ◌==◌,
  if◌then◌else◌, length,
}
use eterna.LinkedList.{Node, SinglyLinkedList, at_loop, at, for_each_loop, for_each, destroy_loop}
use eterna.LinkedList.Chain.{Chain}
use eterna.LinkedList.Ops.{IsList}

module _ {A : Type 0} where
  -- The node that is reached in a number of steps, which is the last one if there are fewer; and the one before them.
  abbrev pub reached : Option (ℕ × A) → List (ℕ × A) → ℕ → Option (ℕ × A)
  reached before [] n = before
  reached before (x ∷ xs) zero = before
  reached before (x ∷ xs) (suc n) = reached (some x) xs n

  abbrev address_of : Option (ℕ × A) → ℕ
  address_of none = 0
  address_of (some (a, v)) = a

  abbrev pub value_of : Option (ℕ × A) → Option A
  value_of none = none
  value_of (some (a, v)) = some v

  abbrev InMemory : (ℕ → Node A) → Option (ℕ × A) → Type 0
  InMemory m none = Unit {0}
  InMemory m (some (a, v)) = (0 < a) × ((m a).data_ ≡ v)

  at_loop-reached :
      (m : ℕ → Node A) (p : ℕ) (before : Option (ℕ × A)) (xs : List (ℕ × A)) (n : ℕ)
      → Chain m p xs
      → InMemory m before
      → (at_loop m n p (address_of before) ≡ address_of (reached before xs n))
        × InMemory m (reached before xs n)
  unfolding at_loop
  at_loop-reached m p before [] zero c here = (refl, here)
  at_loop-reached m p before [] (suc n) c here =
      let stop : (p == 0) ≡ true = ground (arith, c) in (rw stop refl, here)
  at_loop-reached m p before (x ∷ xs) zero c here = (refl, here)
  at_loop-reached m p before ((a, v) ∷ xs) (suc n) (e, pos, d, c) here =
      let go : (p == 0) ≡ false = ground (arith, e) in
      let (found, there) = at_loop-reached m (m a).next (some (a, v)) xs n c (pos, d) in
      (rw (go, e) found, there)

  value_lem :
      (m : ℕ → Node A) (o : Option (ℕ × A)) (out : ℕ)
      → out ≡ address_of o
      → InMemory m o
      → (if out == 0 then none else some (m out).data_) ≡ value_of o
  value_lem m none out e there = let stop : (out == 0) ≡ true = ground (arith, e) in rw stop refl
  value_lem m (some (a, v)) out e (pos, d) =
      let go : (out == 0) ≡ false = ground (arith, e) in rw (go, e, d) refl

  -- `at` finds the value at an index, and the last one at an index behind the end; only in an empty list does it follow the null
  -- pointer.
  pub at-reached :
      (s : SinglyLinkedList A) (xs : List (ℕ × A)) (i : ℕ)
      → IsList s xs
      → at s i ≡ value_of (reached none xs (i + 1))
  unfolding at
  at-reached s xs i l =
      let (found, there) = at_loop-reached s.nodes s.head none xs (i + 1) l.chain _ in
      value_lem s.nodes (reached none xs (i + 1)) (at_loop s.nodes (i + 1) s.head 0) found there

  abbrev pub addresses : List (ℕ × A) → List ℕ
  addresses [] = []
  addresses ((a, v) ∷ xs) = a ∷ addresses xs

  abbrev pub behind : List (ℕ × A) → List ℕ → List ℕ
  behind [] deleted = deleted
  behind ((a, v) ∷ xs) deleted = behind xs (a ∷ deleted)

  for_each_loop-addresses :
      (m : ℕ → Node A) (rounds p : ℕ) (xs : List (ℕ × A))
      → length xs < rounds
      → Chain m p xs
      → for_each_loop m rounds p ≡ addresses xs
  unfolding for_each_loop
  for_each_loop-addresses m zero p xs enough c = absurd (omega arith)
  for_each_loop-addresses m (suc rounds) p [] enough c =
      let stop : (p == 0) ≡ true = ground (arith, c) in rw stop refl
  for_each_loop-addresses m (suc rounds) p ((a, v) ∷ xs) enough (e, pos, d, c) =
      let go : (p == 0) ≡ false = ground (arith, e) in
      rw (go, e, for_each_loop-addresses m rounds (m a).next xs (omega arith) c) refl

  destroy_loop-behind :
      (rounds : ℕ) (s : SinglyLinkedList A) (xs : List (ℕ × A))
      → length xs < rounds
      → Chain s.nodes s.head xs
      → ((destroy_loop rounds s).head ≡ 0) × ((destroy_loop rounds s).deleted ≡ behind xs s.deleted)
  unfolding destroy_loop
  destroy_loop-behind zero s xs enough c = absurd (omega arith)
  destroy_loop-behind (suc rounds) s [] enough c =
      let stop : (s.head == 0) ≡ true = ground (arith, c) in rw stop (c, refl)
  destroy_loop-behind (suc rounds) s ((a, v) ∷ xs) enough (e, pos, d, c) =
      let go : (s.head == 0) ≡ false = ground (arith, e) in
      rw (go, e)
        (destroy_loop-behind rounds (record s { head = (s.nodes a).next; deleted = a ∷ s.deleted })
          xs (omega arith) c)

  -- On a list, both loops end within one round more than it has nodes. `for_each` visits its nodes in order, each once, and the
  -- destructor deletes them in order, each once, and nothing else.
  pub for_each-addresses :
      (s : SinglyLinkedList A) (xs : List (ℕ × A))
      → IsList s xs
      → (for_each s (length xs + 1) ≡ addresses xs)
        × ((destroy_loop (length xs + 1) s).head ≡ 0)
        × ((destroy_loop (length xs + 1) s).deleted ≡ behind xs s.deleted)
  unfolding for_each
  for_each-addresses s xs l =
      let (empty, deleted) = destroy_loop-behind (length xs + 1) s xs (omega arith) l.chain in
      (
        for_each_loop-addresses s.nodes (length xs + 1) s.head xs (omega arith) l.chain,
        empty,
        deleted,
      )
