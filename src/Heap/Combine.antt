-- ===== src/Heap/Combine.antt =====
-- `combine_forward` and `combine_backward` join neighbours on the list of segments.
use eterna.Base.{
  ℕ, ◌+◌, ◌≡◌, refl, Bool, true, false, List, [], ◌∷◌, ◌++◌, arith, if◌then◌else◌, Bool-cases, inl,
  inr,
}
use eterna.Heap.{Heap, header_size, write, combine_forward, combine_backward}
use eterna.Heap.Chain.{
  Seg, seg, after, header_of, end_of, last_of, IsHeap, IsHeap-replace, IsHeap-At, Part-relink,
  le-end_of, le-last_of,
}

abbrev pub join : Seg → Seg → Seg
join a b = seg (a.length + b.length + header_size) a.free

-- The first segment takes in the second, if that is free.
unfoldable pub merge_next : List Seg → List Seg
merge_next [] = []
merge_next (a ∷ []) = a ∷ []
merge_next (a ∷ b ∷ rest) = if b.free then join a b ∷ rest else a ∷ b ∷ rest

merge_next_one : (a : Seg) → merge_next (a ∷ []) ≡ a ∷ []
unfolding merge_next
merge_next_one a = refl

module _ (a b : Seg) (rest : List Seg) where
  pub merge_next_free : b.free ≡ true → merge_next (a ∷ b ∷ rest) ≡ join a b ∷ rest
  unfolding merge_next
  merge_next_free free = ground arith

  pub merge_next_held : b.free ≡ false → merge_next (a ∷ b ∷ rest) ≡ a ∷ b ∷ rest
  unfolding merge_next
  merge_next_held held = ground arith

module _ (h : Heap) (pre : List Seg) (a : Seg) where
  abbrev here : ℕ
  here = end_of h.heap_start pre

  combine_forward_end : IsHeap h (pre ++ a ∷ []) → combine_forward h here ≡ h
  unfolding combine_forward
  combine_forward_end v =
      ground (arith, (IsHeap-At h pre a [] v).header, (IsHeap-At h pre a [] v).ends)

  combine_forward_held :
      (b : Seg) (rest : List Seg)
      → IsHeap h (pre ++ a ∷ b ∷ rest)
      → b.free ≡ false
      → combine_forward h here ≡ h
  unfolding combine_forward
  combine_forward_held b rest v held =
      let at = IsHeap-At h pre a (b ∷ rest) v in
      ground (arith, at.header, at.behind.0, at.ends, le-end_of (after (after here a) b) rest)

  combine_forward_last :
      (b : Seg)
      → IsHeap h (pre ++ a ∷ b ∷ [])
      → b.free ≡ true
      → combine_forward h here ≡ record h {
        mem = write h.mem here (header_of h.heap_end (last_of 0 h.heap_start pre) here (join a b));
        last_header = here;
      }
  unfolding combine_forward
  combine_forward_last b v free =
      let at = IsHeap-At h pre a (b ∷ []) v in
      ground (arith, at.header, at.behind.0, at.ends, at.last)

  -- Joining inside the heap: the segment behind gets a new predecessor.
  combine_forward_inside :
      (b c : Seg) (rest : List Seg)
      → IsHeap h (pre ++ a ∷ b ∷ c ∷ rest)
      → b.free ≡ true
      → let p = here in
        let r = after (after p a) b in
        combine_forward h p ≡ record h {
          mem =
              write
                (write h.mem r (record (h.mem r) { last = p }))
                p
                (header_of h.heap_end (last_of 0 h.heap_start pre) p (join a b));
        }
  unfolding combine_forward write
  combine_forward_inside b c rest v free =
      let at = IsHeap-At h pre a (b ∷ c ∷ rest) v in
      let r = after (after here a) b in
      ground (
        arith,
        at.header,
        at.behind.0,
        at.behind.1.0,
        at.ends,
        at.last,
        le-end_of (after r c) rest,
        le-last_of (after here a) r c rest,
      )

  joined_last :
      (b : Seg)
      → IsHeap h (pre ++ a ∷ b ∷ [])
      → b.free ≡ true
      → IsHeap (combine_forward h here) (pre ++ join a b ∷ [])
  unfolding write
  joined_last b v free = rw (combine_forward_last b v free) (
      IsHeap-replace h pre (a ∷ b ∷ []) (join a b ∷ []) [] _ here v
        (omega arith, omega arith, λ q p. ground arith, (ground arith, tt), tt, refl))

  joined_inside :
      (b c : Seg) (rest : List Seg)
      → IsHeap h (pre ++ a ∷ b ∷ c ∷ rest)
      → b.free ≡ true
      → IsHeap (combine_forward h here) (pre ++ join a b ∷ c ∷ rest)
  unfolding write
  joined_inside b c rest v free =
      let at = IsHeap-At h pre a (b ∷ c ∷ rest) v in
      let r = after (after here a) b in
      let same_end : after here (join a b) ≡ r = omega arith in
      rw (combine_forward_inside b c rest v free) (
        IsHeap-replace h pre (a ∷ b ∷ []) (join a b ∷ []) (c ∷ rest) _ h.last_header v (
          same_end,
          omega arith,
          λ q p. ground arith,
          (ground arith, tt),
          Part-relink h.heap_end h.mem _ (after here a) here r c rest (ground arith)
              (λ q p. ground arith) at.behind.1,
          at.last,
        ))

  joined :
      (b : Seg) (rest : List Seg)
      → IsHeap h (pre ++ a ∷ b ∷ rest)
      → b.free ≡ true
      → IsHeap (combine_forward h here) (pre ++ join a b ∷ rest)
  joined b [] v free = joined_last b v free
  joined b (c ∷ rest) v free = joined_inside b c rest v free

  -- On a well-formed heap `combine_forward` does `merge_next` at its segment.
  pub combine_forward-merge_next :
      (rest : List Seg)
      → IsHeap h (pre ++ a ∷ rest)
      → IsHeap (combine_forward h here) (pre ++ merge_next (a ∷ rest))
  combine_forward-merge_next [] v = rw (combine_forward_end v, merge_next_one a) v
  combine_forward-merge_next (b ∷ rest) v = elim (Bool-cases b.free) [
    | inr held ↦ simp (merge_next_held a b rest held, combine_forward_held b rest v held) v
    | inl free ↦ rw (merge_next_free a b rest free) (joined b rest v free)
  ]

module _ (h : Heap) (a : Seg) (rest : List Seg) where
  -- The first segment has no predecessor to join.
  pub combine_backward_first : IsHeap h (a ∷ rest) → combine_backward h h.heap_start ≡ h
  unfolding combine_backward
  combine_backward_first v = ground (arith, v.chain.0)

combine_backward_next :
    (h : Heap) (pre : List Seg) (z a : Seg) (rest : List Seg)
    → IsHeap h (pre ++ z ∷ a ∷ rest)
    → let p = end_of h.heap_start pre in
      combine_backward h (after p z) ≡ (if z.free then combine_forward h p else h)
unfolding combine_backward
combine_backward_next h pre z a rest v =
    let at = IsHeap-At h pre z (a ∷ rest) v in ground (arith, at.header, at.behind.0, at.not_null)

-- A segment is taken in by its predecessor, if both are free.
pub combine_backward-merge_next :
    (h : Heap) (pre : List Seg) (z a : Seg) (rest : List Seg)
    → IsHeap h (pre ++ z ∷ a ∷ rest)
    → IsHeap
        (combine_backward h (after (end_of h.heap_start pre) z))
        (pre ++ (if z.free then merge_next (z ∷ a ∷ rest) else z ∷ a ∷ rest))
combine_backward-merge_next h pre z a rest v =
    rw (combine_backward_next h pre z a rest v) (split_on z.free)
  where
    split_on :
        (b : Bool)
        → IsHeap
            (if b then combine_forward h (end_of h.heap_start pre) else h)
            (pre ++ (if b then merge_next (z ∷ a ∷ rest) else z ∷ a ∷ rest))
    split_on true = combine_forward-merge_next h pre z (a ∷ rest) v
    split_on false = v

-- Joining leaves the bounds and the mapped pages alone.
abbrev pub SameBounds : Heap → Heap → Type 0
SameBounds g h = (g.heap_start ≡ h.heap_start) × (g.heap_end ≡ h.heap_end) × (g.mapped ≡ h.mapped)

pub combine_forward-SameBounds : (h : Heap) (p : ℕ) → SameBounds (combine_forward h p) h
unfolding combine_forward
combine_forward-SameBounds h p = ground arith

pub combine_backward-SameBounds : (h : Heap) (p : ℕ) → SameBounds (combine_backward h p) h
unfolding combine_backward
combine_backward-SameBounds h p = ground (arith, combine_forward-SameBounds h (h.mem p).last)
