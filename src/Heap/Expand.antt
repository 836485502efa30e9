-- ===== src/Heap/Expand.antt =====
-- `expand_heap` appends a free segment, which a free last segment takes in.
use mathlib.Core.List.{append_assoc}
use eterna.Base.{
  length, ℕ, zero, suc, ◌+◌, ◌-◌, ◌*◌, ◌/◌, ◌<◌, ◌^◌, ◌≡◌, ◌≢◌, refl, ap, subst, ◌∙◌, true, List,
  [], ◌∷◌, ◌++◌, arith, if◌then◌else◌, add64, mul64,
}
use eterna.Pmm.{page_size}
use eterna.Heap.{
  Header, Heap, header_size, write, combine_backward, map_loop, append_header, expand_heap,
}
use eterna.Heap.Chain.{
  Seg, seg, after, Part, end_of, last_of, IsHeap, Part-append, le-end_of, le-last_of,
  last_of-lt-end_of, end_of-append, last_of-append,
}
use eterna.Heap.Combine.{join, merge_next, combine_backward-merge_next, combine_backward-SameBounds}

-- The list of segments after it was extended by a free segment of `n` bytes.
unfoldable pub grow : ℕ → List Seg → List Seg
grow n [] = seg n true ∷ []
grow n (z ∷ []) = if z.free then join z (seg n true) ∷ [] else z ∷ seg n true ∷ []
grow n (z ∷ w ∷ xs) = z ∷ grow n (w ∷ xs)

pub grow-snoc :
    (n : ℕ) (pre : List Seg) (z : Seg)
    → grow n (pre ++ z ∷ [])
      ≡ pre ++ (if z.free then merge_next (z ∷ seg n true ∷ []) else z ∷ seg n true ∷ [])
unfolding grow merge_next
grow-snoc n [] z = ground arith
grow-snoc n (x ∷ []) z = ap (λ l. x ∷ l) (grow-snoc n [] z)
grow-snoc n (x ∷ y ∷ pre) z = ap (λ l. x ∷ l) (grow-snoc n (y ∷ pre) z)

-- A list that is not empty has a last element.
pub snoc_view : (x : Seg) (xs : List Seg) → (pre : List Seg) × (z : Seg) × (x ∷ xs ≡ pre ++ z ∷ [])
snoc_view x [] = ([], x, refl)
snoc_view x (y ∷ xs) = let (pre, z, e) = snoc_view y xs in (x ∷ pre, z, ap (λ l. x ∷ l) e)

-- The chain under a later end of the heap: only the last header is linked anew.
Part-extend :
    (stop stop' : ℕ) (m m' : ℕ → Header) (prev p : ℕ) (x : Seg) (xs : List Seg)
    → end_of p (x ∷ xs) ≡ stop
    → stop < stop'
    → m' (last_of prev p (x ∷ xs)) ≡ record (m (last_of prev p (x ∷ xs))) { next = stop }
    → ((q : ℕ) → q < stop → q ≢ last_of prev p (x ∷ xs) → m' q ≡ m q)
    → Part stop m prev p (x ∷ xs)
    → Part stop' m' prev p (x ∷ xs)
Part-extend stop stop' m m' prev p x [] ends lt here same (e, c) = (ground arith, tt)
Part-extend stop stop' m m' prev p x (y ∷ xs) ends lt here same (e, c) = (
  ground (
    arith,
    same p (omega (arith, le-end_of (after p x) (y ∷ xs)))
        (omega (arith, le-last_of p (after p x) y xs)),
    last_of-lt-end_of p (after p x) y xs,
    le-last_of p (after p x) y xs,
  ),
  Part-extend stop stop' m m' p (after p x) y xs ends lt here same c,
)

-- The `k` pages from `e` on, mapped one after the other.
unfoldable pub pages_from : ℕ → ℕ → List ℕ → List ℕ
pages_from zero e ms = ms
pages_from (suc k) e ms = pages_from k (e + page_size) (e ∷ ms)

pub length-pages_from : (k e : ℕ) (ms : List ℕ) → length (pages_from k e ms) ≡ k + length ms
unfolding pages_from
length-pages_from zero e ms = omega arith
length-pages_from (suc k) e ms = omega (arith, length-pages_from k (e + page_size) (e ∷ ms))

-- The loop maps the pages at the end of the heap and moves the end behind them.
pub map_loop-pages_from :
    (k : ℕ) (h : Heap)
    → h.heap_end + k * page_size < 2 ^ 64
    → map_loop k h ≡ record h {
      heap_end = h.heap_end + k * page_size;
      mapped = pages_from k h.heap_end h.mapped;
    }
unfolding map_loop pages_from
map_loop-pages_from zero h fits = ground arith
map_loop-pages_from (suc k) h fits =
    let moved : add64 h.heap_end page_size ≡ h.heap_end + page_size = omega arith in
    let rest =
      map_loop-pages_from k
        (record h { heap_end = add64 h.heap_end page_size; mapped = h.heap_end ∷ h.mapped })
        (omega arith) in
    ground (arith, rest, moved)

module _ (h : Heap) (x : Seg) (xs : List Seg) (k : ℕ) (ms : List ℕ) (v : IsHeap h (x ∷ xs))
    (pos : 0 < k) (fits : h.heap_end + k * page_size < 2 ^ 64) where
  abbrev grown : Heap
  grown = record h { heap_end = h.heap_end + k * page_size; mapped = ms }

  -- The heap with its end moved up and a free segment there.
  append_header-IsHeap :
      IsHeap
        (append_header grown h.heap_end (mul64 k page_size))
        ((x ∷ xs) ++ seg (k * page_size - header_size) true ∷ [])
  unfolding append_header write
  append_header-IsHeap =
      let before = last_of-lt-end_of 0 h.heap_start x xs in
      let e = seg (k * page_size - header_size) true in
      record {
        chain =
            Part-append (h.heap_end + k * page_size) _ 0 h.heap_start (x ∷ xs) (e ∷ [])
              (Part-extend h.heap_end (h.heap_end + k * page_size) h.mem _ 0 h.heap_start x xs
                v.ends (omega arith) (ground (arith, v.last, v.ends, before))
                (λ q lt ne. ground (arith, v.last)) v.chain)
              (ground (arith, v.last, v.ends, before), tt);
        ends = omega (arith, v.ends, end_of-append h.heap_start (x ∷ xs) (e ∷ []));
        last = omega (arith, v.ends, last_of-append 0 h.heap_start (x ∷ xs) (e ∷ []));
        some_segment = omega arith;
        not_null = v.not_null;
        bound = fits;
      }

-- The number of pages that `expand_heap` adds, and the length of the segment on them.
abbrev pub added_pages : ℕ → ℕ
added_pages num_bytes = num_bytes / page_size + 1

abbrev pub added_length : ℕ → ℕ
added_length num_bytes = added_pages num_bytes * page_size - header_size

-- The last step of `expand_heap`, at the header `e` behind the segments `pre` and `z`.
joined_at :
    (g : Heap) (n : ℕ) (pre : List Seg) (z : Seg) (e : ℕ)
    → e ≡ after (end_of g.heap_start pre) z
    → IsHeap g (pre ++ z ∷ seg (added_length n) true ∷ [])
    → IsHeap (combine_backward g e) (grow (added_length n) (pre ++ z ∷ []))
joined_at g n pre z e place w =
    rw (grow-snoc (added_length n) pre z, place)
      (combine_backward-merge_next g pre z (seg (added_length n) true) [] w)

module _ (h : Heap) (n : ℕ) (fits : h.heap_end + added_pages n * page_size < 2 ^ 64) where
  abbrev ext : Heap
  ext =
      append_header
        (record h {
          heap_end = h.heap_end + added_pages n * page_size;
          mapped = pages_from (added_pages n) h.heap_end h.mapped;
        })
        h.heap_end (mul64 (added_pages n) page_size)

  expand_heap_eq : expand_heap h n ≡ combine_backward ext h.heap_end
  unfolding expand_heap
  expand_heap_eq = rw (map_loop-pages_from (added_pages n) h fits)

  ext_bounds :
      (ext.heap_start ≡ h.heap_start)
      × (ext.heap_end ≡ h.heap_end + added_pages n * page_size)
      × (ext.mapped ≡ pages_from (added_pages n) h.heap_end h.mapped)
  unfolding append_header
  ext_bounds = (refl, refl, refl)

  place :
      (x : Seg) (xs pre : List Seg) (z : Seg)
      → x ∷ xs ≡ pre ++ z ∷ []
      → IsHeap h (x ∷ xs)
      → h.heap_end ≡ after (end_of h.heap_start pre) z
  place x xs pre z e v =
      omega
        (arith, v.ends, ap (λ l. end_of h.heap_start l) e, end_of-append h.heap_start pre (z ∷ []))

  -- Expanding a heap appends a free segment of whole pages, joined to a free last segment.
  pub expand_heap-IsHeap :
      (x : Seg) (xs : List Seg)
      → IsHeap h (x ∷ xs)
      → IsHeap (expand_heap h n) (grow (added_length n) (x ∷ xs))
  expand_heap-IsHeap x xs v =
      let (pre, z, e) = snoc_view x xs in
      let w =
        append_header-IsHeap h x xs (added_pages n) (pages_from (added_pages n) h.heap_end h.mapped)
          v (omega arith) fits in
      rw (expand_heap_eq, e)
        (joined_at ext n pre z h.heap_end
          (omega (arith, place x xs pre z e v, ap (λ t. end_of t pre) ext_bounds.0))
          (subst (λ l. IsHeap ext l)
            (ap (λ l. l ++ seg (added_length n) true ∷ []) e
              ∙ append_assoc pre (z ∷ []) (seg (added_length n) true ∷ []))
            w))

  -- The pages from the old end on are mapped, one after the other, and the end is behind them.
  pub expand_heap_bounds :
      ((expand_heap h n).heap_start ≡ h.heap_start)
      × ((expand_heap h n).heap_end ≡ h.heap_end + added_pages n * page_size)
      × ((expand_heap h n).mapped ≡ pages_from (added_pages n) h.heap_end h.mapped)
  expand_heap_bounds =
      let same = combine_backward-SameBounds ext h.heap_end in
      rw expand_heap_eq (same.0 ∙ ext_bounds.0, same.1 ∙ ext_bounds.1, same.2 ∙ ext_bounds.2)
