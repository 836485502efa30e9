-- ===== src/LinkedList/Chain.antt =====
-- A list of nodes at different addresses, from a head on.
use eterna.Base.{ℕ, ◌<◌, ◌≡◌, ◌≢◌, false, List, [], ◌∷◌, arith, ◌==◌}
use eterna.LinkedList.{Node, write_node}

module _ {A : Type 0} where
  -- The nodes, with their addresses, from the pointer `p` to the null pointer.
  abbrev pub Chain : (ℕ → Node A) → ℕ → List (ℕ × A) → Type 0
  Chain m p [] = p ≡ 0
  Chain m p ((a, v) ∷ xs) = (p ≡ a) × (0 < a) × ((m a).data_ ≡ v) × Chain m (m a).next xs

  abbrev pub Missing : ℕ → List (ℕ × A) → Type 0
  Missing a [] = Unit
  Missing a ((b, v) ∷ xs) = (a ≢ b) × Missing a xs

  abbrev pub Different : List (ℕ × A) → Type 0
  Different [] = Unit
  Different ((a, v) ∷ xs) = Missing a xs × Different xs

  abbrev pub last_address : ℕ → List (ℕ × A) → ℕ
  last_address a [] = a
  last_address a ((b, v) ∷ xs) = last_address b xs

  abbrev pub values : List (ℕ × A) → List A
  values [] = []
  values ((a, v) ∷ xs) = v ∷ values xs

  -- A write elsewhere leaves a chain.
  pub Chain-write_node :
      (m : ℕ → Node A) (p a : ℕ) (n : Node A) (xs : List (ℕ × A))
      → Missing a xs
      → Chain m p xs
      → Chain (write_node m a n) p xs
  unfolding write_node
  Chain-write_node m p a n [] away c = c
  Chain-write_node m p a n ((b, v) ∷ xs) (ne, away) (e, pos, d, c) =
      let here : (b == a) ≡ false = ground arith in
      (e, pos, rw here d, rw here (Chain-write_node m (m b).next a n xs away c))
