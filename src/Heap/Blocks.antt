-- ===== src/Heap/Blocks.antt =====
-- The live blocks of a heap: what `malloc` adds and `free` removes, and that free neighbours do not occur.
use mathlib.Core.List.{append_assoc}
use eterna.Base.{
  ℕ, zero, suc, ◌+◌, ◌≤◌, ◌≡◌, refl, ap, sym, ◌∙◌, true, false, Option, none, some, List, [], ◌∷◌,
  ◌++◌, arith, ◌==◌, if◌then◌else◌, Bool-cases, inl, inr,
}
use eterna.Heap.{header_size}
use eterna.Heap.Chain.{Seg, seg, after, end_of}
use eterna.Heap.Combine.{merge_next}
use eterna.Heap.Split.{back_seg}
use eterna.Heap.Find.{fits, carve, first_fit}
use eterna.Heap.Expand.{grow, added_length}
use eterna.Heap.Malloc.{place}
use eterna.Heap.Free.{freed}

-- The address and length of each segment in use.
unfoldable pub blocks : ℕ → List Seg → List (ℕ × ℕ)
blocks p [] = []
blocks p (s ∷ xs) =
    if s.free then blocks (after p s) xs else (p + header_size, s.length) ∷ blocks (after p s) xs

-- Blocks between two addresses, in order, each with a header before it.
abbrev pub Apart : ℕ → ℕ → List (ℕ × ℕ) → Type 0
Apart p stop [] = p ≤ stop
Apart p stop ((q, n) ∷ bs) = (p + header_size ≤ q) × Apart (q + n) stop bs

Apart-below : (p p' stop : ℕ) (bs : List (ℕ × ℕ)) → p ≤ p' → Apart p' stop bs → Apart p stop bs
Apart-below p p' stop [] lt a = omega arith
Apart-below p p' stop ((q, n) ∷ bs) lt (a, b) = (omega arith, b)

pub blocks-Apart : (p : ℕ) (xs : List Seg) → Apart p (end_of p xs) (blocks p xs)
unfolding blocks
blocks-Apart p [] = omega arith
blocks-Apart p (s ∷ xs) = elim (Bool-cases s.free) [
  | inl free ↦ rw free (
      Apart-below p (after p s) _ (blocks (after p s) xs) (omega arith)
        (blocks-Apart (after p s) xs))
  | inr held ↦ rw held (omega arith, blocks-Apart (after p s) xs)
]

blocks-append :
    (p : ℕ) (xs ys : List Seg) → blocks p (xs ++ ys) ≡ blocks p xs ++ blocks (end_of p xs) ys
unfolding blocks
blocks-append p [] ys = refl
blocks-append p (x ∷ xs) ys = ground (arith, blocks-append (after p x) xs ys)

module _ (p : ℕ) (a : Seg) where
  pub blocks_free : (xs : List Seg) → a.free ≡ true → blocks p (a ∷ xs) ≡ blocks (after p a) xs
  unfolding blocks
  blocks_free xs free = ground arith

  pub blocks_held :
      (xs : List Seg)
      → a.free ≡ false
      → blocks p (a ∷ xs) ≡ (p + header_size, a.length) ∷ blocks (after p a) xs
  unfolding blocks
  blocks_held xs held = ground arith

  pub blocks-merge_next :
      (rest : List Seg) → a.free ≡ true → blocks p (merge_next (a ∷ rest)) ≡ blocks p (a ∷ rest)
  unfolding blocks merge_next
  blocks-merge_next [] free = refl
  blocks-merge_next (b ∷ rest) free = elim (Bool-cases b.free) [
    | inr held ↦ ground arith
    | inl free' ↦ rw (merge_next, free', blocks, free) (ap (λ e. blocks e rest) (omega arith))
  ]

blocks_joined :
    (p : ℕ) (a : Seg) (rest : List Seg)
    → blocks p (merge_next (seg a.length true ∷ rest)) ≡ blocks (after p a) rest
blocks_joined p a rest =
    blocks-merge_next p (seg a.length true) rest refl ∙ blocks_free p (seg a.length true) rest refl

blocks_one :
    (p : ℕ) (z : Seg) (ys : List Seg)
    → blocks p (z ∷ ys) ≡ blocks p (z ∷ []) ++ blocks (after p z) ys
blocks_one p z ys = blocks-append p (z ∷ []) ys

-- Freeing takes one block away.
pub blocks-freed :
    (p : ℕ) (pre : List Seg) (a : Seg) (rest : List Seg)
    → blocks p (freed pre a rest) ≡ blocks p pre ++ blocks (after (end_of p pre) a) rest
unfolding freed blocks
blocks-freed p [] a rest = blocks_joined p a rest
blocks-freed p (z ∷ []) a rest =
    let joined = merge_next (seg a.length true ∷ rest) in
    ground
      (arith, blocks_joined (after p z) a rest, blocks_one p z joined, blocks-merge_next p z joined)
blocks-freed p (z ∷ w ∷ pre) a rest = ground (
  arith,
  blocks-freed (after p z) (w ∷ pre) a rest,
  blocks_one p z (freed (w ∷ pre) a rest),
  blocks_one p z (w ∷ pre),
  append_assoc (blocks p (z ∷ [])) (blocks (after p z) (w ∷ pre))
      (blocks (after (end_of (after p z) (w ∷ pre)) a) rest),
)

pub blocks-grow : (n p : ℕ) (xs : List Seg) → blocks p (grow n xs) ≡ blocks p xs
unfolding grow blocks
blocks-grow n p [] = refl
blocks-grow n p (z ∷ []) = ground arith
blocks-grow n p (z ∷ w ∷ xs) = ground (arith, blocks-grow n (after p z) (w ∷ xs))

-- `ys` has one block more than `xs`: `n` bytes behind the header at `q`.
abbrev pub Inserted : ℕ → ℕ → List Seg → ℕ → List Seg → Type 0
Inserted n p xs q ys =
    (front : List (ℕ × ℕ)) × (back : List (ℕ × ℕ)) × (blocks p xs ≡ front ++ back)
    × (blocks p ys ≡ front ++ (q + header_size, n) ∷ back)

blocks-carve :
    (n p : ℕ) (a : Seg) (xs : List Seg)
    → fits n a ≡ true
    → blocks p (carve n a xs) ≡ (p + header_size, n) ∷ blocks (after p a) xs
unfolding blocks carve fits
blocks-carve n p a xs fit = elim (Bool-cases (a.length == n)) [
  | inl exact ↦ ground arith
  | inr other ↦
      let meets : after (after p (seg n false)) (back_seg a n) ≡ after p a = ground arith in
      ground (arith, meets)
]

-- The same of a search's result, if it is one.
abbrev pub Placed : ℕ → ℕ → List Seg → Option (ℕ × List Seg) → Type 0
Placed n p xs none = Unit
Placed n p xs (some (q, ys)) = Inserted n p xs q ys

Inserted-behind :
    (n p : ℕ) (a : Seg) (xs : List Seg) (q : ℕ) (ys : List Seg)
    → Inserted n (after p a) xs q ys
    → Inserted n p (a ∷ xs) q (a ∷ ys)
Inserted-behind n p a xs q ys (front, back, e, e') =
    let f = blocks p (a ∷ []) in
    (
      f ++ front,
      back,
      blocks_one p a xs ∙ (ap (λ l. f ++ l) e ∙ sym (append_assoc f front back)),
      blocks_one p a ys
          ∙ (ap (λ l. f ++ l) e' ∙ sym (append_assoc f front ((q + header_size, n) ∷ back))),
    )

Placed-behind :
    (n p : ℕ) (a : Seg) (xs : List Seg) (r : Option (ℕ × List Seg))
    → Placed n (after p a) xs r
    → Placed n p (a ∷ xs) (elim r [ none ↦ none | some (q, ys) ↦ some (q, a ∷ ys) ])
Placed-behind n p a xs none i = tt
Placed-behind n p a xs (some (q, ys)) i = Inserted-behind n p a xs q ys i

Placed_here :
    (n p : ℕ) (a : Seg) (xs : List Seg) → fits n a ≡ true → Inserted n p (a ∷ xs) p (carve n a xs)
unfolding fits
Placed_here n p a xs fit =
    ([], blocks (after p a) xs, blocks_free p a xs (ground arith), blocks-carve n p a xs fit)

first_fit-Placed : (n p : ℕ) (xs : List Seg) → Placed n p xs (first_fit n p xs)
unfolding first_fit
first_fit-Placed n p [] = tt
first_fit-Placed n p (a ∷ xs) =
    let rest = first_fit-Placed n (after p a) xs in
    elim (Bool-cases (fits n a)) [
      | inl fit ↦ rw fit (Placed_here n p a xs fit)
      | inr unfit ↦ rw unfit (Placed-behind n p a xs (first_fit n (after p a) xs) rest)
    ]

Placed-or :
    (n m p : ℕ) (xs : List Seg) (r o : Option (ℕ × List Seg))
    → Placed n p xs r
    → Placed n p (grow m xs) o
    → Placed n p xs (elim r [ some t ↦ some t | none ↦ o ])
Placed-or n m p xs (some (q, ys)) o i j = i
Placed-or n m p xs none none i j = tt
Placed-or n m p xs none (some (q, ys)) i (front, back, e, e') =
    (front, back, sym (blocks-grow m p xs) ∙ e, e')

-- First fit, with expansions, takes one new block and leaves the others where they are.
pub place-Placed : (k n p : ℕ) (xs : List Seg) → Placed n p xs (place k n p xs)
unfolding place
place-Placed zero n p xs = first_fit-Placed n p xs
place-Placed (suc k) n p xs =
    Placed-or n (added_length n) p xs (first_fit n p xs) _ (first_fit-Placed n p xs)
      (place-Placed k n p (grow (added_length n) xs))
