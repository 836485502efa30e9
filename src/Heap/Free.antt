-- ===== src/Heap/Free.antt =====
-- `free` makes its segment free and joins it with free neighbours on both sides.
use mathlib.Core.List.{append_assoc}
use eterna.Base.{
  ℕ, ◌+◌, ◌<◌, ◌^◌, ◌≡◌, refl, ap, subst, sym, ◌∙◌, true, List, [], ◌∷◌, ◌++◌, arith, if◌then◌else◌,
  Bool-cases, inl, inr, sub64,
}
use eterna.Heap.{
  Heap, header_size, write, combine_forward, combine_backward, set_free, free, init_heap,
}
use eterna.Heap.Chain.{Seg, seg, after, end_of, IsHeap, IsHeap-At, end_of-append}
use eterna.Heap.Combine.{
  join, merge_next, combine_forward-merge_next, combine_backward_first, combine_backward-merge_next,
  combine_forward-SameBounds, combine_backward-SameBounds, SameBounds,
}
use eterna.Heap.Split.{set_free-IsHeap}
use eterna.Heap.Expand.{snoc_view}

-- The segments after the segment `a`, with `pre` before it and `rest` behind it, was made free.
unfoldable pub freed : List Seg → Seg → List Seg → List Seg
freed [] a rest = merge_next (seg a.length true ∷ rest)
freed (z ∷ []) a rest =
    let joined = merge_next (seg a.length true ∷ rest) in
    if z.free then merge_next (z ∷ joined) else z ∷ joined
freed (z ∷ w ∷ pre) a rest = z ∷ freed (w ∷ pre) a rest

freed_first : (a : Seg) (rest : List Seg) → freed [] a rest ≡ merge_next (seg a.length true ∷ rest)
unfolding freed
freed_first a rest = refl

freed-snoc :
    (pre : List Seg) (z a : Seg) (rest : List Seg)
    → freed (pre ++ z ∷ []) a rest
      ≡ pre
        ++ (if z.free
            then merge_next (z ∷ merge_next (seg a.length true ∷ rest))
            else z ∷ merge_next (seg a.length true ∷ rest))
unfolding freed
freed-snoc [] z a rest = refl
freed-snoc (x ∷ []) z a rest = refl
freed-snoc (x ∷ y ∷ pre) z a rest = ap (λ l. x ∷ l) (freed-snoc (y ∷ pre) z a rest)

-- Joining leaves a first segment.
pub merge_next-cons :
    (a : Seg) (rest : List Seg) → (y : Seg) × (ys : List Seg) × (merge_next (a ∷ rest) ≡ y ∷ ys)
unfolding merge_next
merge_next-cons a [] = (a, [], refl)
merge_next-cons a (b ∷ rest) = elim (Bool-cases b.free) [
  | inl free ↦ (join a b, rest, ground arith)
  | inr held ↦ (a, b ∷ rest, ground arith)
]

module _ (h : Heap) (a : Seg) (rest : List Seg) where
  -- The first two writes of `free`: the segment is free and has taken in the one behind it.
  opened :
      (pre : List Seg)
      → IsHeap h (pre ++ a ∷ rest)
      → let p = end_of h.heap_start pre in
        IsHeap
          (combine_forward (set_free h p true) p)
          (pre ++ merge_next (seg a.length true ∷ rest))
  opened pre v =
      combine_forward-merge_next (set_free h (end_of h.heap_start pre) true) pre (seg a.length true)
        rest (set_free-IsHeap h pre a rest true v)

  free_eq :
      (p : ℕ)
      → p + header_size < 2 ^ 64
      → free h (p + header_size) ≡ combine_backward (combine_forward (set_free h p true) p) p
  unfolding free
  free_eq p small = let back : sub64 (p + header_size) header_size ≡ p = omega arith in rw back refl

  opened_start : (p : ℕ) → (combine_forward (set_free h p true) p).heap_start ≡ h.heap_start
  opened_start p = (combine_forward-SameBounds (set_free h p true) p).0

  pub free_bounds : (p : ℕ) → p + header_size < 2 ^ 64 → SameBounds (free h (p + header_size)) h
  free_bounds p small =
      let forward = combine_forward-SameBounds (set_free h p true) p in
      let backward = combine_backward-SameBounds (combine_forward (set_free h p true) p) p in
      rw (free_eq p small) (backward.0 ∙ forward.0, backward.1 ∙ forward.1, backward.2 ∙ forward.2)

  free_first : IsHeap h (a ∷ rest) → IsHeap (free h (h.heap_start + header_size)) (freed [] a rest)
  free_first v =
      let at = IsHeap-At h [] a rest v in
      let g = combine_forward (set_free h h.heap_start true) h.heap_start in
      let w = opened [] v in
      let (y, ys, e) = merge_next-cons (seg a.length true) rest in
      let done : combine_backward g h.heap_start ≡ g =
        subst (λ p. combine_backward g p ≡ g) (opened_start h.heap_start)
          (combine_backward_first g y ys (subst (IsHeap g) e w)) in
      rw (free_eq h.heap_start (omega (arith, at.within, at.bound)), done, freed_first a rest) w

  free_behind :
      (pre : List Seg) (z : Seg)
      → IsHeap h ((pre ++ z ∷ []) ++ a ∷ rest)
      → IsHeap
          (free h (end_of h.heap_start (pre ++ z ∷ []) + header_size))
          (freed (pre ++ z ∷ []) a rest)
  free_behind pre z v =
      let at = IsHeap-At h (pre ++ z ∷ []) a rest v in
      let p = end_of h.heap_start (pre ++ z ∷ []) in
      let g = combine_forward (set_free h p true) p in
      let (y, ys, e) = merge_next-cons (seg a.length true) rest in
      let w : IsHeap g (pre ++ z ∷ y ∷ ys) =
        subst (IsHeap g) (ap (λ l. (pre ++ z ∷ []) ++ l) e ∙ append_assoc pre (z ∷ []) (y ∷ ys))
          (opened (pre ++ z ∷ []) v) in
      let place : after (end_of g.heap_start pre) z ≡ p =
        ap (λ t. after (end_of t pre) z) (opened_start p)
        ∙ sym (end_of-append h.heap_start pre (z ∷ [])) in
      let result =
        subst
          (λ q.
            IsHeap (combine_backward g q)
              (pre ++ (if z.free then merge_next (z ∷ y ∷ ys) else z ∷ y ∷ ys)))
          place (combine_backward-merge_next g pre z y ys w) in
      rw (free_eq p (omega (arith, at.within, at.bound)), freed-snoc pre z a rest, e) result

  -- `free` of a segment's address: the segment becomes free and is joined with free neighbours.
  pub free-IsHeap :
      (pre : List Seg)
      → IsHeap h (pre ++ a ∷ rest)
      → IsHeap (free h (end_of h.heap_start pre + header_size)) (freed pre a rest)
  free-IsHeap [] v = free_first v
  free-IsHeap (x ∷ pre) v =
      let (front, z, e) = snoc_view x pre in
      subst (λ l. IsHeap (free h (end_of h.heap_start l + header_size)) (freed l a rest)) (sym e)
        (free_behind front z (subst (λ l. IsHeap h (l ++ a ∷ rest)) e v))

-- The heap that `init_heap` sets up: one free segment on the first page.
pub init_heap-IsHeap : (h : Heap) → IsHeap (init_heap h) (seg 4071 true ∷ [])
unfolding init_heap write
init_heap-IsHeap h = record {
  chain = (ground arith, tt);
  ends = ground arith;
  last = refl;
  some_segment = omega arith;
  not_null = omega arith;
  bound = ground arith;
}
