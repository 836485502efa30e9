-- ===== src/Heap/Chain.antt =====
-- What a well-formed heap holds: a list of segments that tile it from start to end.
use eterna.Base.{
  ℕ, ◌+◌, ◌≤◌, ◌<◌, ◌^◌, ◌≡◌, refl, Bool, List, [], ◌∷◌, ◌++◌, arith, ◌==◌, if◌then◌else◌, length,
  length-append,
}
use eterna.Heap.{Header, Heap, header_size}

pub record Seg : Type 0 where
  pub length : ℕ
  pub free : Bool

abbrev pub seg : ℕ → Bool → Seg
seg n b = record { length = n; free = b }

-- The address behind the segment whose header is at `p`.
abbrev pub after : ℕ → Seg → ℕ
after p s = p + header_size + s.length

-- The `next` pointer to the address `a`: null at the heap's end `stop`.
abbrev pub link : ℕ → ℕ → ℕ
link stop a = if a == stop then 0 else a

abbrev pub header_of : ℕ → ℕ → ℕ → Seg → Header
header_of stop prev p s = record {
  last = prev;
  next = link stop (after p s);
  length = s.length;
  free = s.free;
}

abbrev pub Part : ℕ → (ℕ → Header) → ℕ → ℕ → List Seg → Type 0
Part stop m prev p [] = Unit
Part stop m prev p (s ∷ xs) = (m p ≡ header_of stop prev p s) × Part stop m p (after p s) xs

-- The address behind a list of segments, and that of its last header.
abbrev pub end_of : ℕ → List Seg → ℕ
end_of p [] = p
end_of p (s ∷ xs) = end_of (after p s) xs

abbrev pub last_of : ℕ → ℕ → List Seg → ℕ
last_of prev p [] = prev
last_of prev p (s ∷ xs) = last_of p (after p s) xs

pub record IsHeap (h : Heap) (xs : List Seg) : Type 0 where
  pub chain : Part h.heap_end h.mem 0 h.heap_start xs
  pub ends : end_of h.heap_start xs ≡ h.heap_end
  pub last : last_of 0 h.heap_start xs ≡ h.last_header
  pub some_segment : 0 < length xs
  pub not_null : 0 < h.heap_start
  pub bound : h.heap_end < 2 ^ 64

pub end_of-append : (p : ℕ) (xs ys : List Seg) → end_of p (xs ++ ys) ≡ end_of (end_of p xs) ys
end_of-append p [] ys = refl
end_of-append p (x ∷ xs) ys = end_of-append (after p x) xs ys

pub last_of-append :
    (prev p : ℕ) (xs ys : List Seg)
    → last_of prev p (xs ++ ys) ≡ last_of (last_of prev p xs) (end_of p xs) ys
last_of-append prev p [] ys = refl
last_of-append prev p (x ∷ xs) ys = last_of-append p (after p x) xs ys

pub le-end_of : (p : ℕ) (xs : List Seg) → p ≤ end_of p xs
le-end_of p [] = omega arith
le-end_of p (x ∷ xs) = omega (arith, le-end_of (after p x) xs)

pub le-last_of : (prev p : ℕ) (x : Seg) (xs : List Seg) → p ≤ last_of prev p (x ∷ xs)
le-last_of prev p x [] = omega arith
le-last_of prev p x (y ∷ xs) = omega (arith, le-last_of p (after p x) y xs)

pub last_of-lt-end_of :
    (prev p : ℕ) (x : Seg) (xs : List Seg) → last_of prev p (x ∷ xs) < end_of p (x ∷ xs)
last_of-lt-end_of prev p x [] = omega arith
last_of-lt-end_of prev p x (y ∷ xs) = last_of-lt-end_of p (after p x) y xs

module _ (stop : ℕ) where
  pub Part-frame :
      (m m' : ℕ → Header) (prev p : ℕ) (xs : List Seg)
      → ((q : ℕ) → p ≤ q → q < end_of p xs → m' q ≡ m q)
      → Part stop m prev p xs
      → Part stop m' prev p xs
  Part-frame m m' prev p [] same c = tt
  Part-frame m m' prev p (x ∷ xs) same (e, c) = (
    ground (arith, same p (omega arith) (omega (arith, le-end_of (after p x) xs))),
    Part-frame m m' p (after p x) xs (λ q a b. same q (omega arith) b) c,
  )

  pub Part-append :
      (m : ℕ → Header) (prev p : ℕ) (xs ys : List Seg)
      → Part stop m prev p xs
      → Part stop m (last_of prev p xs) (end_of p xs) ys
      → Part stop m prev p (xs ++ ys)
  Part-append m prev p [] ys c d = d
  Part-append m prev p (x ∷ xs) ys (e, c) d = (e, Part-append m p (after p x) xs ys c d)

  pub Part-front :
      (m : ℕ → Header) (prev p : ℕ) (xs ys : List Seg)
      → Part stop m prev p (xs ++ ys)
      → Part stop m prev p xs
  Part-front m prev p [] ys c = tt
  Part-front m prev p (x ∷ xs) ys (e, c) = (e, Part-front m p (after p x) xs ys c)

  pub Part-back :
      (m : ℕ → Header) (prev p : ℕ) (xs ys : List Seg)
      → Part stop m prev p (xs ++ ys)
      → Part stop m (last_of prev p xs) (end_of p xs) ys
  Part-back m prev p [] ys c = c
  Part-back m prev p (x ∷ xs) ys (e, c) = Part-back m p (after p x) xs ys c

  -- The part behind a change: its first header is given another predecessor.
  pub Part-relink :
      (m m' : ℕ → Header) (prev prev' p : ℕ) (x : Seg) (xs : List Seg)
      → m' p ≡ record (m p) { last = prev' }
      → ((q : ℕ) → p < q → m' q ≡ m q)
      → Part stop m prev p (x ∷ xs)
      → Part stop m' prev' p (x ∷ xs)
  Part-relink m m' prev prev' p x xs here same (e, c) =
      (ground (arith, here), Part-frame m m' p (after p x) xs (λ q a b. same q (omega arith)) c)

-- The heap after some segments `mid` were replaced by others over the same addresses.
pub IsHeap-replace :
    (h : Heap) (pre mid mid' rest : List Seg) (m' : ℕ → Header) (last' : ℕ)
    → IsHeap h (pre ++ (mid ++ rest))
    → (let p = end_of h.heap_start pre in
        (end_of p mid' ≡ end_of p mid)
        × (0 < length mid')
        × ((q : ℕ) → q < p → m' q ≡ h.mem q)
        × Part h.heap_end m' (last_of 0 h.heap_start pre) p mid'
        × Part h.heap_end m' (last_of (last_of 0 h.heap_start pre) p mid') (end_of p mid) rest
        × (last' ≡ last_of (last_of (last_of 0 h.heap_start pre) p mid') (end_of p mid) rest))
    → IsHeap (record h { mem = m'; last_header = last' }) (pre ++ (mid' ++ rest))
IsHeap-replace h pre mid mid' rest m' last' v (same_end, some_mid, below, part_mid, part_rest, e) =
    let start = h.heap_start in
    let p = end_of start pre in
    let l = last_of 0 start pre in
    record {
      chain =
          Part-append h.heap_end m' 0 start pre (mid' ++ rest)
            (Part-frame h.heap_end h.mem m' 0 start pre (λ q a b. below q b)
              (Part-front h.heap_end h.mem 0 start pre (mid ++ rest) v.chain))
            (Part-append h.heap_end m' l p mid' rest part_mid (rw same_end part_rest));
      ends = ground (
        arith,
        v.ends,
        same_end,
        end_of-append start pre (mid' ++ rest),
        end_of-append start pre (mid ++ rest),
        end_of-append p mid' rest,
        end_of-append p mid rest,
      );
      last = ground (
        arith,
        e,
        same_end,
        last_of-append 0 start pre (mid' ++ rest),
        last_of-append l p mid' rest,
      );
      some_segment =
          omega (arith, some_mid, length-append pre (mid' ++ rest), length-append mid' rest);
      not_null = v.not_null;
      bound = v.bound;
    }

-- What is known of a segment `a` in its place.
pub record At (h : Heap) (pre : List Seg) (a : Seg) (rest : List Seg) : Type 0 where
  pub header :
      h.mem (end_of h.heap_start pre)
      ≡ header_of h.heap_end (last_of 0 h.heap_start pre) (end_of h.heap_start pre) a
  pub behind :
      Part h.heap_end h.mem (end_of h.heap_start pre) (after (end_of h.heap_start pre) a) rest
  pub ends : end_of (after (end_of h.heap_start pre) a) rest ≡ h.heap_end
  pub last :
      h.last_header ≡ last_of (end_of h.heap_start pre) (after (end_of h.heap_start pre) a) rest
  pub from_start : h.heap_start ≤ end_of h.heap_start pre
  pub not_null : 0 < end_of h.heap_start pre
  pub within : after (end_of h.heap_start pre) a ≤ h.heap_end
  pub bound : h.heap_end < 2 ^ 64

pub IsHeap-At :
    (h : Heap) (pre : List Seg) (a : Seg) (rest : List Seg)
    → IsHeap h (pre ++ a ∷ rest)
    → At h pre a rest
IsHeap-At h pre a rest v =
    let start = h.heap_start in
    let p = end_of start pre in
    let back = Part-back h.heap_end h.mem 0 start pre (a ∷ rest) v.chain in
    record {
      header = back.0;
      behind = back.1;
      ends = omega (arith, v.ends, end_of-append start pre (a ∷ rest));
      last = omega (arith, v.last, last_of-append 0 start pre (a ∷ rest));
      from_start = le-end_of start pre;
      not_null = omega (arith, v.not_null, le-end_of start pre);
      within =
          omega (arith, v.ends, end_of-append start pre (a ∷ rest), le-end_of (after p a) rest);
      bound = v.bound;
    }
