-- ===== src/Heap/Coalesce.antt =====
-- No two free segments are neighbours: `malloc`, `expand_heap` and `free` keep it so.
use eterna.Base.{
  ℕ, zero, suc, ◌≡◌, refl, Bool, true, false, ◌&&◌, Option, none, some, List, [], ◌∷◌, ◌++◌, arith,
  ◌==◌, Bool-cases, inl, inr,
}
use eterna.Heap.Chain.{Seg, seg}
use eterna.Heap.Combine.{merge_next}
use eterna.Heap.Find.{fits, carve, first_fit}
use eterna.Heap.Expand.{grow, added_length}
use eterna.Heap.Malloc.{place}
use eterna.Heap.Free.{freed}

unfoldable pub head_free : List Seg → Bool
head_free [] = false
head_free (s ∷ xs) = s.free

abbrev pub Coalesced : List Seg → Type 0
Coalesced [] = Unit
Coalesced (s ∷ xs) = ((s.free && head_free xs) ≡ false) × Coalesced xs

-- A list in place of another: coalesced, with a free head only if the other has one.
abbrev pub Replaces : List Seg → List Seg → Type 0
Replaces ys xs = Coalesced ys × (head_free ys ≡ true → head_free xs ≡ true)

Replaces-behind :
    (a : Seg) (ys xs : List Seg) → Coalesced (a ∷ xs) → Replaces ys xs → Replaces (a ∷ ys) (a ∷ xs)
unfolding head_free
Replaces-behind a ys xs (apart, c) (d, head) = ((ground (arith, head), d), λ e. e)

merge_next-Coalesced :
    (a : Seg) (rest : List Seg) → Coalesced rest → Coalesced (merge_next (a ∷ rest))
unfolding merge_next head_free
merge_next-Coalesced a [] c = (ground arith, tt)
merge_next-Coalesced a (b ∷ rest) (apart, c) = elim (Bool-cases b.free) [
  | inl free ↦ rw free (ground arith, c)
  | inr held ↦ rw held (ground arith, (ground arith, c))
]

merge_next-head_free : (a : Seg) (rest : List Seg) → head_free (merge_next (a ∷ rest)) ≡ a.free
unfolding merge_next head_free
merge_next-head_free a [] = refl
merge_next-head_free a (b ∷ rest) = ground arith

grow-Coalesced :
    (n : ℕ) (x : Seg) (xs : List Seg) → Coalesced (x ∷ xs) → Replaces (grow n (x ∷ xs)) (x ∷ xs)
unfolding grow head_free
grow-Coalesced n x [] c = elim (Bool-cases x.free) [
  | inl free ↦ rw free ((ground arith, tt), λ e. refl)
  | inr held ↦ rw held ((ground arith, (ground arith, tt)), λ e. ground (arith, e, held))
]
grow-Coalesced n x (y ∷ xs) (apart, c) =
    Replaces-behind x (grow n (y ∷ xs)) (y ∷ xs) (apart, c) (grow-Coalesced n y xs c)

carve-Coalesced :
    (n : ℕ) (a : Seg) (xs : List Seg)
    → fits n a ≡ true
    → Coalesced (a ∷ xs)
    → Replaces (carve n a xs) (a ∷ xs)
unfolding fits carve head_free
carve-Coalesced n a xs fit (apart, c) = elim (Bool-cases (a.length == n)) [
  | inl exact ↦ rw exact ((refl, c), λ e. ground arith)
  | inr other ↦ rw other ((refl, (apart, c)), λ e. ground arith)
]

-- The result of a search, if it has one, is coalesced.
abbrev pub Keeps : List Seg → Option (ℕ × List Seg) → Type 0
Keeps xs none = Unit
Keeps xs (some (q, ys)) = Replaces ys xs

Keeps-behind :
    (a : Seg) (xs : List Seg) (r : Option (ℕ × List Seg))
    → Coalesced (a ∷ xs)
    → Keeps xs r
    → Keeps (a ∷ xs) (elim r [ none ↦ none | some (q, ys) ↦ some (q, a ∷ ys) ])
Keeps-behind a xs none c k = tt
Keeps-behind a xs (some (q, ys)) c k = Replaces-behind a ys xs c k

first_fit-Coalesced : (n p : ℕ) (xs : List Seg) → Coalesced xs → Keeps xs (first_fit n p xs)
unfolding first_fit
first_fit-Coalesced n p [] c = tt
first_fit-Coalesced n p (a ∷ xs) c =
    let rest = first_fit-Coalesced n (eterna.Heap.Chain.after p a) xs c.1 in
    elim (Bool-cases (fits n a)) [
      | inl fit ↦ rw fit (carve-Coalesced n a xs fit c)
      | inr unfit ↦ rw unfit (Keeps-behind a xs _ c rest)
    ]

-- The same of the list alone.
abbrev pub AllCoalesced : Option (ℕ × List Seg) → Type 0
AllCoalesced none = Unit
AllCoalesced (some (q, ys)) = Coalesced ys

AllCoalesced-or :
    (xs : List Seg) (r o : Option (ℕ × List Seg))
    → Keeps xs r
    → AllCoalesced o
    → AllCoalesced (elim r [ some t ↦ some t | none ↦ o ])
AllCoalesced-or xs (some (q, ys)) o k l = k.0
AllCoalesced-or xs none o k l = l

Keeps-AllCoalesced : (xs : List Seg) (r : Option (ℕ × List Seg)) → Keeps xs r → AllCoalesced r
Keeps-AllCoalesced xs none k = tt
Keeps-AllCoalesced xs (some (q, ys)) k = k.0

grow_all : (n : ℕ) (xs : List Seg) → Coalesced xs → Coalesced (grow n xs)
unfolding grow head_free
grow_all n [] c = (refl, tt)
grow_all n (x ∷ xs) c = (grow-Coalesced n x xs c).0

-- The segments that `malloc` leaves.
pub place-Coalesced : (k n p : ℕ) (xs : List Seg) → Coalesced xs → AllCoalesced (place k n p xs)
unfolding place
place-Coalesced zero n p xs c = Keeps-AllCoalesced xs _ (first_fit-Coalesced n p xs c)
place-Coalesced (suc k) n p xs c =
    AllCoalesced-or xs (first_fit n p xs) _ (first_fit-Coalesced n p xs c)
      (place-Coalesced k n p (grow (added_length n) xs) (grow_all (added_length n) xs c))

freed_behind :
    (z : Seg) (pre : List Seg) (a : Seg) (rest : List Seg)
    → Coalesced (z ∷ pre ++ a ∷ rest)
    → Replaces (freed (z ∷ pre) a rest) (z ∷ [])
unfolding freed head_free
freed_behind z [] a rest (apart, (apart', c)) =
    let joined = merge_next (seg a.length true ∷ rest) in
    let d = merge_next-Coalesced (seg a.length true) rest c in
    elim (Bool-cases z.free) [
      | inl free ↦ rw free (merge_next-Coalesced (seg z.length true) joined d, λ e. refl)
      | inr held ↦ rw held ((ground (arith, held), d), λ e. e)
    ]
freed_behind z (w ∷ pre) a rest (apart, c) =
    let (d, head) = freed_behind w pre a rest c in ((ground (arith, head), d), λ e. e)

-- The segments that `free` leaves.
pub freed-Coalesced :
    (pre : List Seg) (a : Seg) (rest : List Seg)
    → Coalesced (pre ++ a ∷ rest)
    → Coalesced (freed pre a rest)
unfolding freed
freed-Coalesced [] a rest (apart, c) = merge_next-Coalesced (seg a.length true) rest c
freed-Coalesced (z ∷ pre) a rest c = (freed_behind z pre a rest c).0
