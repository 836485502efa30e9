-- ===== src/Heap/Split.antt =====
-- `split` on the list of segments, and the change of a segment's `free` flag.
use eterna.Base.{
  ℕ, ◌+◌, ◌-◌, ◌≤◌, ◌<◌, ◌^◌, ◌≡◌, refl, Bool, none, some, List, [], ◌∷◌, ◌++◌, arith,
}
use eterna.Heap.{Heap, header_size, write, insert_header, split, set_free}
use eterna.Heap.Chain.{
  Seg, seg, after, header_of, end_of, last_of, IsHeap, IsHeap-replace, IsHeap-At, Part-relink,
  Part-frame, le-end_of,
}

-- Setting the flag of a segment changes that segment alone.
pub set_free-IsHeap :
    (h : Heap) (pre : List Seg) (a : Seg) (rest : List Seg) (b : Bool)
    → IsHeap h (pre ++ a ∷ rest)
    → IsHeap (set_free h (end_of h.heap_start pre) b) (pre ++ seg a.length b ∷ rest)
unfolding write
set_free-IsHeap h pre a rest b v =
    let at = IsHeap-At h pre a rest v in
    IsHeap-replace h pre (a ∷ []) (seg a.length b ∷ []) rest _ h.last_header v (
      refl,
      omega arith,
      λ q p. ground arith,
      (ground (arith, at.header), tt),
      Part-frame h.heap_end h.mem _ (end_of h.heap_start pre) (after (end_of h.heap_start pre) a)
          rest (λ q p r. ground arith) at.behind,
      at.last,
    )

-- The two segments that a split leaves: `n` bytes, and what is behind the new header.
abbrev pub front_seg : Seg → ℕ → Seg
front_seg a n = seg n a.free

abbrev pub back_seg : Seg → ℕ → Seg
back_seg a n = seg (a.length - n - header_size) a.free

module _ (h : Heap) (pre : List Seg) (a : Seg) (n : ℕ) where
  abbrev here : ℕ
  here = end_of h.heap_start pre

  abbrev there : ℕ
  there = here + header_size + n

  insert_header_last :
      IsHeap h (pre ++ a ∷ [])
      → n + header_size ≤ a.length
      → let l = last_of 0 h.heap_start pre in
        insert_header h here there n (a.length - n - header_size) ≡ record h {
          mem =
              write
                (write
                  (write h.mem there (record (h.mem there) { next = 0 }))
                  here
                  (header_of h.heap_end l here (front_seg a n)))
                there
                (header_of h.heap_end here there (back_seg a n));
          last_header = there;
        }
  unfolding insert_header write
  insert_header_last v fits = let at = IsHeap-At h pre a [] v in ground (arith, at.header, at.ends)

  insert_header_inside :
      (c : Seg) (rest : List Seg)
      → IsHeap h (pre ++ a ∷ c ∷ rest)
      → n + header_size ≤ a.length
      → let l = last_of 0 h.heap_start pre in
        let r = after here a in
        let m₁ = write h.mem r (record (h.mem r) { last = there }) in
        insert_header h here there n (a.length - n - header_size) ≡ record h {
          mem =
              write
                (write
                  (write m₁ there (record (m₁ there) { next = r }))
                  here
                  (header_of h.heap_end l here (front_seg a n)))
                there
                (header_of h.heap_end here there (back_seg a n));
        }
  unfolding insert_header write
  insert_header_inside c rest v fits =
      let at = IsHeap-At h pre a (c ∷ rest) v in
      ground (arith, at.header, at.behind.0, at.ends, le-end_of (after (after here a) c) rest)

  same_end :
      n + header_size ≤ a.length → end_of here (front_seg a n ∷ back_seg a n ∷ []) ≡ after here a
  same_end fits = omega arith

  inserted_last :
      IsHeap h (pre ++ a ∷ [])
      → n + header_size ≤ a.length
      → IsHeap
          (insert_header h here there n (a.length - n - header_size))
          (pre ++ front_seg a n ∷ back_seg a n ∷ [])
  unfolding write
  inserted_last v fits = rw (insert_header_last v fits) (
      IsHeap-replace h pre (a ∷ []) (front_seg a n ∷ back_seg a n ∷ []) [] _ there v (
        same_end fits,
        omega arith,
        λ q p. ground arith,
        (ground arith, (ground arith, tt)),
        tt,
        refl,
      ))

  inserted_inside :
      (c : Seg) (rest : List Seg)
      → IsHeap h (pre ++ a ∷ c ∷ rest)
      → n + header_size ≤ a.length
      → IsHeap
          (insert_header h here there n (a.length - n - header_size))
          (pre ++ front_seg a n ∷ back_seg a n ∷ c ∷ rest)
  unfolding write
  inserted_inside c rest v fits =
      let at = IsHeap-At h pre a (c ∷ rest) v in
      let r = after here a in
      rw (insert_header_inside c rest v fits) (
        IsHeap-replace h pre (a ∷ []) (front_seg a n ∷ back_seg a n ∷ []) (c ∷ rest) _ h.last_header
          v
          (
            same_end fits,
            omega arith,
            λ q p. ground arith,
            (ground arith, (ground arith, tt)),
            Part-relink h.heap_end h.mem _ here there r c rest (ground arith) (λ q p. ground arith)
                at.behind,
            at.last,
          ))

  inserted :
      (rest : List Seg)
      → IsHeap h (pre ++ a ∷ rest)
      → n + header_size ≤ a.length
      → IsHeap
          (insert_header h here there n (a.length - n - header_size))
          (pre ++ front_seg a n ∷ back_seg a n ∷ rest)
  inserted [] v fits = inserted_last v fits
  inserted (c ∷ rest) v fits = inserted_inside c rest v fits

  -- The segments that can be split at `n`.
  abbrev pub CanSplit : Type 0
  CanSplit = (8 ≤ n) × (n + header_size + 8 ≤ a.length)

  split-some :
      (rest : List Seg)
      → IsHeap h (pre ++ a ∷ rest)
      → CanSplit
      → split h here n ≡ some (insert_header h here there n (a.length - n - header_size))
  unfolding split
  split-some rest v can = let at = IsHeap-At h pre a rest v in ground (arith, at.header)

  -- A segment is split exactly if both parts have 8 bytes or more; the list then has the two
  -- parts in its place.
  pub split-IsHeap :
      (rest : List Seg)
      → IsHeap h (pre ++ a ∷ rest)
      → CanSplit
      → (h' : Heap) × (split h here n ≡ some h')
        × IsHeap h' (pre ++ front_seg a n ∷ back_seg a n ∷ rest)
        × (h'.heap_start ≡ h.heap_start)
        × (h'.heap_end ≡ h.heap_end)
  unfolding insert_header
  split-IsHeap rest v can = (
    insert_header h here there n (a.length - n - header_size),
    split-some rest v can,
    inserted rest v (omega arith),
    ground arith,
    ground arith,
  )

  pub split-none :
      (rest : List Seg)
      → IsHeap h (pre ++ a ∷ rest)
      → n < 2 ^ 63
      → ¬ CanSplit
      → split h here n ≡ none
  unfolding split
  split-none rest v small cannot =
      let at = IsHeap-At h pre a rest v in ground (arith, at.header, cannot, at.within, at.bound)
