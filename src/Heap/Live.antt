-- ===== src/Heap/Live.antt =====
-- What a client of `malloc` and `free` sees: the live blocks, over any sequence of calls.
use eterna.Base.{
  ℕ, ◌+◌, ◌*◌, ◌≤◌, ◌<◌, ◌^◌, ◌≡◌, refl, ap, subst, sym, ◌∙◌, true, Option, none, some, List, [],
  ◌∷◌, ◌++◌, arith, Bool-cases, inl, inr, length,
}
use eterna.Pmm.{page_size}
use eterna.Heap.{
  Heap, header_size, round_up, Block, block, null, exhausted, unbacked, malloc, free, init_heap,
}
use eterna.Heap.Chain.{Seg, seg, after, end_of, IsHeap, IsHeap-At}
use eterna.Heap.Expand.{added_pages}
use eterna.Heap.Malloc.{place, Gives, quiet, malloc-Gives}
use eterna.Heap.Free.{freed, free-IsHeap, free_bounds, init_heap-IsHeap}
use eterna.Heap.Blocks.{
  blocks, blocks_free, blocks_held, blocks-freed, Placed, place-Placed, blocks-Apart, Apart,
}
use eterna.Heap.Coalesce.{head_free, Coalesced, AllCoalesced, place-Coalesced, freed-Coalesced}

-- A well-formed heap whose live blocks are `bs`: it is a chain of segments, no two free segments are
-- neighbours, and the segments in use are the blocks.
pub record Live (h : Heap) (bs : List (ℕ × ℕ)) : Type 0 where
  pub segments : List Seg
  pub well_formed : IsHeap h segments
  pub coalesced : Coalesced segments
  pub live : blocks h.heap_start segments ≡ bs

-- The segment of a live block.
abbrev SegmentOf : ℕ → List Seg → List (ℕ × ℕ) → ℕ → ℕ → List (ℕ × ℕ) → Type 0
SegmentOf p xs front q n back =
    (pre : List Seg) × (a : Seg) × (rest : List Seg) × (xs ≡ pre ++ a ∷ rest)
    × (q ≡ end_of p pre + header_size)
    × (blocks p pre ≡ front)
    × (blocks (after (end_of p pre) a) rest ≡ back)

segment_of :
    (p : ℕ) (xs : List Seg) (front : List (ℕ × ℕ)) (q n : ℕ) (back : List (ℕ × ℕ))
    → blocks p xs ≡ front ++ (q, n) ∷ back
    → SegmentOf p xs front q n back
unfolding blocks
segment_of p [] [] q n back e = absurd (ground (arith, e))
segment_of p [] (b ∷ front) q n back e = absurd (ground (arith, e))
segment_of p (x ∷ xs) [] q n back e = elim (Bool-cases x.free) [
  | inl free ↦
      let (pre, a, rest, xs_eq, q_eq, f, b) =
        segment_of (after p x) xs [] q n back (sym (blocks_free p x xs free) ∙ e) in
      (x ∷ pre, a, rest, ap (λ l. x ∷ l) xs_eq, q_eq, ground (arith, f, free), b)
  | inr held ↦ (
    [],
    x,
    xs,
    refl,
    ground (arith, e, blocks_held p x xs held),
    refl,
    ground (arith, e, blocks_held p x xs held),
  )
]
segment_of p (x ∷ xs) (b ∷ front) q n back e = elim (Bool-cases x.free) [
  | inl free ↦
      let (pre, a, rest, xs_eq, q_eq, f, b') =
        segment_of (after p x) xs (b ∷ front) q n back (sym (blocks_free p x xs free) ∙ e) in
      (x ∷ pre, a, rest, ap (λ l. x ∷ l) xs_eq, q_eq, ground (arith, f, free), b')
  | inr held ↦
      let (pre, a, rest, xs_eq, q_eq, f, b') =
        segment_of (after p x) xs front q n back (ground (arith, e, blocks_held p x xs held)) in
      (
        x ∷ pre,
        a,
        rest,
        ap (λ l. x ∷ l) xs_eq,
        q_eq,
        ground (arith, f, held, e, blocks_held p x xs held),
        b',
      )
]

-- The heap that `init_heap` sets up has no live block.
pub init_heap-Live : (h : Heap) → Live (init_heap h) []
unfolding blocks head_free
init_heap-Live h = record {
  segments = seg 4071 true ∷ [];
  well_formed = init_heap-IsHeap h;
  coalesced = (refl, tt);
  live = refl;
}

module _ (h : Heap) (bs : List (ℕ × ℕ)) (v : Live h bs) where
  -- Live blocks lie in the heap in order, disjoint, each behind a header of its own.
  pub Live-Apart : Apart h.heap_start h.heap_end bs
  Live-Apart = rw (← v.live, ← v.well_formed.ends) (blocks-Apart h.heap_start v.segments)

module _ (h : Heap) (front : List (ℕ × ℕ)) (q n : ℕ) (back : List (ℕ × ℕ))
    (v : Live h (front ++ (q, n) ∷ back)) where
  -- `free` of a live block's address removes that block, and no other changes.
  pub free-Live : Live (free h q) (front ++ back)
  free-Live =
      let (pre, a, rest, xs_eq, q_eq, f, b) =
        segment_of h.heap_start v.segments front q n back v.live in
      let w = subst (IsHeap h) xs_eq v.well_formed in
      let p = end_of h.heap_start pre in
      let small : p + header_size < 2 ^ 64 =
        let at = IsHeap-At h pre a rest w in omega (arith, at.within, at.bound) in
      rw q_eq (record {
        segments = freed pre a rest;
        well_formed = free-IsHeap h a rest pre w;
        coalesced = freed-Coalesced pre a rest (subst Coalesced xs_eq v.coalesced);
        live =
            rw ((free_bounds h a rest p small).0, ← f, ← b) (blocks-freed h.heap_start pre a rest);
      })

-- What `malloc` does to the live blocks `bs`: there is one more, of `n` bytes.
abbrev pub Adds : List (ℕ × ℕ) → ℕ → Block → Type 0
Adds bs n (block q h') =
    (front : List (ℕ × ℕ)) × (back : List (ℕ × ℕ)) × (bs ≡ front ++ back)
    × Live h' (front ++ (q, n) ∷ back)
Adds bs n null = ⊥
Adds bs n exhausted = ⊥
Adds bs n unbacked = ⊥

Gives-Adds :
    (start n : ℕ) (xs : List Seg) (r : Option (ℕ × List Seg)) (b : Block)
    → Gives start r b
    → Placed n start xs r
    → AllCoalesced r
    → Adds (blocks start xs) n b
Gives-Adds start n xs (some (q, ys)) (block address h') (at, v, s) (front, back, e, e') c =
    (front, back, e, record { segments = ys; well_formed = v; coalesced = c; live = rw (s, at) e' })
Gives-Adds start n xs (some (q, ys)) null g i c = g
Gives-Adds start n xs (some (q, ys)) exhausted g i c = g
Gives-Adds start n xs (some (q, ys)) unbacked g i c = g
Gives-Adds start n xs none b g i c = absurd g

some_first : (xs : List Seg) → 0 < length xs → (y : Seg) × (ys : List Seg) × (xs ≡ y ∷ ys)
some_first [] pos = absurd (omega arith)
some_first (y ∷ ys) pos = (y, ys, refl)

length-end_of : (p : ℕ) (xs : List Seg) → p + header_size * length xs ≤ end_of p xs
length-end_of p [] = omega arith
length-end_of p (x ∷ xs) = omega (arith, length-end_of (after p x) xs)

module _ (pages rounds n : ℕ) (h : Heap) (bs : List (ℕ × ℕ)) (v : Live h bs) where
  pub malloc-Live :
      0 < n
      → n < 2 ^ 62
      → h.heap_end + 2 ≤ h.heap_start + rounds
      → h.heap_end + 2 * (added_pages (round_up n) * page_size) < 2 ^ 64
      → length h.mapped + 2 * added_pages (round_up n) ≤ pages
      → Adds bs (round_up n) (malloc (quiet pages) 3 rounds h n)
  malloc-Live pos small enough room backed =
      let (x, xs, e) = some_first v.segments v.well_formed.some_segment in
      let r = place 2 (round_up n) h.heap_start v.segments in
      let many = length-end_of h.heap_start v.segments in
      let given : Gives h.heap_start r (malloc (quiet pages) 3 rounds h n) = rw e (
        malloc-Gives pages rounds n h x xs pos small (subst (IsHeap h) e v.well_formed)
          (omega (arith, many, v.well_formed.ends, ap length e)) room backed) in
      subst (λ l. Adds l (round_up n) (malloc (quiet pages) 3 rounds h n)) v.live
        (Gives-Adds h.heap_start (round_up n) v.segments r _ given
          (place-Placed 2 (round_up n) h.heap_start v.segments)
          (place-Coalesced 2 (round_up n) h.heap_start v.segments v.coalesced))
