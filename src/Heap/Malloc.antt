-- ===== src/Heap/Malloc.antt =====
-- `malloc` always returns a block, after two expansions of the heap at most, and does first fit.
use eterna.Base.{
  ℕ, zero, suc, ◌+◌, ◌*◌, ◌%◌, ◌≤◌, ◌<◌, ◌^◌, ◌≡◌, ◌≢◌, refl, true, false, Option, none, some, List,
  [], ◌∷◌, ◌++◌, arith, ◌==◌, leb, if◌then◌else◌, length, Bool-cases, inl, inr, subst, ap, ◌∙◌,
}
use eterna.Pmm.{page_size}
use eterna.Heap.{
  Heap, header_size, Found, taken, none_fits, out_of_rounds, find, expand_heap, round_up, Block,
  block, exhausted, unbacked, Build, malloc,
}
use eterna.Heap.Chain.{Seg, seg, after, IsHeap}
use eterna.Heap.Combine.{join}
use eterna.Heap.Find.{fits, first_fit, Finds, find-Finds}
use eterna.Heap.Expand.{
  grow, added_pages, added_length, length-pages_from, expand_heap-IsHeap, expand_heap_bounds,
}

-- First fit, with so many expansions allowed.
unfoldable pub place : ℕ → ℕ → ℕ → List Seg → Option (ℕ × List Seg)
place zero n p xs = first_fit n p xs
place (suc k) n p xs =
    let rest = place k n p (grow (added_length n) xs) in
    elim (first_fit n p xs) [ some r ↦ some r | none ↦ rest ]

round_up_lem :
    (n : ℕ)
    → 0 < n
    → n < 2 ^ 62
    → (round_up n % 8 ≡ 0) × (n ≤ round_up n) × (round_up n < n + 8) × (8 ≤ round_up n)
unfolding round_up
round_up_lem n pos small = ground arith

round_up-round_up : (n : ℕ) → n % 8 ≡ 0 → round_up n ≡ n
unfolding round_up
round_up-round_up n e = ground arith

length-grow : (n : ℕ) (xs : List Seg) → length (grow n xs) ≤ length xs + 1
unfolding grow
length-grow n [] = omega arith
length-grow n (z ∷ []) = ground arith
length-grow n (z ∷ w ∷ xs) = omega (arith, length-grow n (w ∷ xs))

grow-cons :
    (n : ℕ) (x : Seg) (xs : List Seg) → (y : Seg) × (ys : List Seg) × (grow n (x ∷ xs) ≡ y ∷ ys)
unfolding grow
grow-cons n x [] = elim (Bool-cases x.free) [
  | inl free ↦ (join x (seg n true), [], ground arith)
  | inr held ↦ (x, seg n true ∷ [], ground arith)
]
grow-cons n x (w ∷ xs) = (x, grow n (w ∷ xs), refl)

-- A grown list ends in a free segment, with the new length added to a free last one.
grow_last :
    (n : ℕ) (xs : List Seg)
    → (pre : List Seg) × (z : Seg) × (grow n xs ≡ pre ++ z ∷ []) × (z.free ≡ true) × (n ≤ z.length)
unfolding grow
grow_last n [] = ([], seg n true, refl, refl, omega arith)
grow_last n (z ∷ []) = elim (Bool-cases z.free) [
  | inl free ↦ ([], join z (seg n true), ground arith, free, omega arith)
  | inr held ↦ (z ∷ [], seg n true, ground arith, refl, omega arith)
]
grow_last n (z ∷ w ∷ xs) =
    let (pre, y, e, free, long) = grow_last n (w ∷ xs) in
    (z ∷ pre, y, ap (λ l. z ∷ l) e, free, long)

grow_free_last :
    (n : ℕ) (pre : List Seg) (z : Seg)
    → z.free ≡ true
    → grow n (pre ++ z ∷ []) ≡ pre ++ join z (seg n true) ∷ []
unfolding grow
grow_free_last n [] z free = ground arith
grow_free_last n (x ∷ []) z free = ap (λ l. x ∷ l) (grow_free_last n [] z free)
grow_free_last n (x ∷ y ∷ pre) z free = ap (λ l. x ∷ l) (grow_free_last n (y ∷ pre) z free)

first_fit_last :
    (n p : ℕ) (pre : List Seg) (z : Seg) → fits n z ≡ true → first_fit n p (pre ++ z ∷ []) ≢ none
unfolding first_fit
first_fit_last n p [] z fit = ground arith
first_fit_last n p (x ∷ pre) z fit = ground (arith, first_fit_last n (after p x) pre z fit)

-- After two expansions there is room.
first_fit_grown :
    (n p : ℕ) (xs : List Seg)
    → 8 ≤ n
    → first_fit n p (grow (added_length n) (grow (added_length n) xs)) ≢ none
unfolding fits
first_fit_grown n p xs eight =
    let (pre, z, e, free, long) = grow_last (added_length n) xs in
    rw (e, grow_free_last (added_length n) pre z free)
      (first_fit_last n p pre (join z (seg (added_length n) true)) (ground arith))

-- What `malloc` returns in a heap that starts at `start`: a block behind the header at the place
-- that was found, in a heap with the list of segments that was found.
abbrev pub Gives : ℕ → Option (ℕ × List Seg) → Block → Type 0
Gives start (some (q, ys)) (block address h') =
    (address ≡ q + header_size) × IsHeap h' ys × (h'.heap_start ≡ start)
Gives start _ _ = ⊥

-- What a caller does with the outcome of the search.
abbrev settled : Block → Found → Block
settled again (taken address h') = block address h'
settled again none_fits = again
settled again out_of_rounds = exhausted

settled_lem :
    (again : Block) (r : Found)
    → elim r [ taken address h' ↦ block address h' | none_fits ↦ again | out_of_rounds ↦ exhausted ]
      ≡ settled again r
settled_lem again (taken address h') = refl
settled_lem again none_fits = refl
settled_lem again out_of_rounds = refl

-- The build without `DEBUG_HEAP`.
abbrev pub quiet : ℕ → Build
quiet pages = record { debug_heap = false; pages = pages }

-- What `malloc` does if nothing fits, with so many attempts left.
abbrev expanded : ℕ → ℕ → ℕ → Heap → ℕ → Block
expanded pages k rounds h n =
    if leb (length h.mapped + added_pages n) pages
    then malloc (quiet pages) k rounds (expand_heap h n) n
    else unbacked

malloc_step :
    (pages k rounds : ℕ) (h : Heap) (n : ℕ)
    → 0 < n
    → malloc (quiet pages) (suc k) rounds h n
      ≡ settled (expanded pages k rounds h (round_up n)) (find rounds (round_up n) h h.heap_start)
unfolding malloc
malloc_step pages k rounds h n pos =
    let not_zero : (n == 0) ≡ false = ground arith in
    rw not_zero (settled_lem _ (find rounds (round_up n) h h.heap_start))

malloc-round_up :
    (pages k rounds : ℕ) (h : Heap) (n : ℕ)
    → 0 < n
    → 8 ≤ round_up n
    → round_up n % 8 ≡ 0
    → malloc (quiet pages) (suc k) rounds h n ≡ malloc (quiet pages) (suc k) rounds h (round_up n)
malloc-round_up pages k rounds h n pos eight even = rw (
  malloc_step pages k rounds h n pos,
  malloc_step pages k rounds h (round_up n) (omega arith),
  round_up-round_up (round_up n) even,
)

place_found : (n p : ℕ) (xs : List Seg) → 8 ≤ n → place 2 n p xs ≢ none
unfolding place
place_found n p xs eight = ground (arith, first_fit_grown n p xs eight)

place_later :
    (k n p : ℕ) (xs : List Seg)
    → first_fit n p xs ≡ none
    → place (suc k) n p xs ≡ place k n p (grow (added_length n) xs)
unfolding place
place_later k n p xs nothing = rw (place, nothing)

settled-Gives :
    (n : ℕ) (h : Heap) (xs : List Seg) (again : Block) (o : Option (ℕ × List Seg)) (r : Found)
    → Finds h [] n xs r
    → (first_fit n h.heap_start xs ≡ none → Gives h.heap_start o again)
    → Gives h.heap_start
        (elim (first_fit n h.heap_start xs) [ some t ↦ some t | none ↦ o ])
        (settled again r)
settled-Gives n h xs again o (taken address h') (q, ys, e, at, v, s, t) later = rw e (at, v, s)
settled-Gives n h xs again o none_fits e later = rw e (later e)
settled-Gives n h xs again o out_of_rounds f later = absurd f

or_none {ℓ} : {A : Type ℓ} → (o : Option A) → elim o [ some t ↦ some t | none ↦ none ] ≡ o
or_none none = refl
or_none (some t) = refl

malloc-found :
    (pages k rounds n : ℕ) (h : Heap) (x : Seg) (xs : List Seg) (o : Option (ℕ × List Seg))
    → n % 8 ≡ 0
    → 8 ≤ n
    → n < 2 ^ 63
    → IsHeap h (x ∷ xs)
    → length xs < rounds
    → (first_fit n h.heap_start (x ∷ xs) ≡ none
        → Gives h.heap_start o (expanded pages k rounds h n))
    → Gives h.heap_start
        (elim (first_fit n h.heap_start (x ∷ xs)) [ some t ↦ some t | none ↦ o ])
        (malloc (quiet pages) (suc k) rounds h n)
malloc-found pages k rounds n h x xs o even eight small v enough later =
    rw (malloc_step pages k rounds h n (omega arith), round_up-round_up n even)
      (settled-Gives n h (x ∷ xs) _ o (find rounds n h h.heap_start)
        (find-Finds h n eight small rounds [] x xs v enough) later)

-- `malloc` of a rounded size does what `place` says.
malloc-place :
    (pages k rounds n : ℕ) (h : Heap) (x : Seg) (xs : List Seg)
    → n % 8 ≡ 0
    → 8 ≤ n
    → n < 2 ^ 63
    → IsHeap h (x ∷ xs)
    → length xs + k < rounds
    → h.heap_end + k * (added_pages n * page_size) < 2 ^ 64
    → length h.mapped + k * added_pages n ≤ pages
    → place k n h.heap_start (x ∷ xs) ≢ none
    → Gives h.heap_start (place k n h.heap_start (x ∷ xs)) (malloc (quiet pages) (suc k) rounds h n)
unfolding place
malloc-place pages zero rounds n h x xs even eight small v enough room backed found =
    subst (λ o. Gives h.heap_start o (malloc (quiet pages) 1 rounds h n)) (or_none _)
      (malloc-found pages 0 rounds n h x xs none even eight small v (omega arith)
        (λ nothing. absurd (found nothing)))
malloc-place pages (suc k) rounds n h x xs even eight small v enough room backed found =
    malloc-found pages (suc k) rounds n h x xs _ even eight small v (omega arith) (λ nothing.
      let (y, ys, e) = grow-cons (added_length n) x xs in
      let (same_start, new_end, new_pages) = expand_heap_bounds h n (omega arith) in
      let v' = expand_heap-IsHeap h n (omega arith) x xs v in
      let more : length ys ≤ length xs + 1 =
        omega (arith, length-grow (added_length n) (x ∷ xs), ap length e) in
      let found' : place k n (expand_heap h n).heap_start (y ∷ ys) ≢ none =
        rw (same_start, ← e)
          (λ left. found (place_later k n h.heap_start (x ∷ xs) nothing ∙ left)) in
      let granted : leb (length h.mapped + added_pages n) pages ≡ true = ground (arith, backed) in
      let held : length (expand_heap h n).mapped ≡ added_pages n + length h.mapped =
        ap length new_pages ∙ length-pages_from (added_pages n) h.heap_end h.mapped in
      rw granted (
        subst
          (λ p.
            Gives p (place k n p (grow (added_length n) (x ∷ xs)))
              (malloc (quiet pages) (suc k) rounds (expand_heap h n) n))
          same_start
          (rw e (
            malloc-place pages k rounds n (expand_heap h n) y ys even eight small
              (subst (IsHeap (expand_heap h n)) e v') (omega (arith, more)) (omega (arith, new_end))
              (omega (arith, held, backed)) found'))))

-- Without `DEBUG_HEAP`, `malloc` of 1 to 2 ^ 62 - 1 bytes, in a well-formed heap that has addresses and pages for
-- two expansions, searches three times at most: it returns the block behind the header that first fit gives, in
-- the segments it gives.
pub malloc-Gives :
    (pages rounds n : ℕ) (h : Heap) (x : Seg) (xs : List Seg)
    → 0 < n
    → n < 2 ^ 62
    → IsHeap h (x ∷ xs)
    → length xs + 2 < rounds
    → h.heap_end + 2 * (added_pages (round_up n) * page_size) < 2 ^ 64
    → length h.mapped + 2 * added_pages (round_up n) ≤ pages
    → Gives h.heap_start
        (place 2 (round_up n) h.heap_start (x ∷ xs))
        (malloc (quiet pages) 3 rounds h n)
malloc-Gives pages rounds n h x xs pos small v enough room backed =
    let (even, _, under, eight) = round_up_lem n pos small in
    rw (malloc-round_up pages 2 rounds h n pos eight even) (
      malloc-place pages 2 rounds (round_up n) h x xs even eight (omega arith) v enough room backed
        (place_found (round_up n) h.heap_start (x ∷ xs) eight))
