-- ===== src/Heap/Find.antt =====
-- The search loop of `malloc` takes the first segment that fits.
use eterna.Base.{
  ℕ, zero, suc, ◌+◌, ◌-◌, ◌≤◌, ◌<◌, ◌^◌, ◌≡◌, refl, Bool, true, false, not, ◌&&◌, ◌||◌, Option,
  none, some, List, [], ◌∷◌, ◌++◌, arith, ◌==◌, leb, ltb, if◌then◌else◌, length, Bool-cases, inl,
  inr, add64,
}
use mathlib.Core.List.{append_assoc}
use eterna.Heap.{
  Heap, header_size, split, set_free, try_segment, Found, taken, none_fits, out_of_rounds, find,
}
use eterna.Heap.Chain.{Seg, seg, after, end_of, IsHeap, IsHeap-At, le-end_of, end_of-append}
use eterna.Heap.Split.{set_free-IsHeap, front_seg, back_seg, split-IsHeap, split-none}

-- A free segment of `n` bytes exactly, or one with room for a header and 8 bytes more.
unfoldable pub fits : ℕ → Seg → Bool
fits n s = s.free && (s.length == n || leb (n + header_size + 8) s.length)

-- What a segment that fits becomes.
unfoldable pub carve : ℕ → Seg → List Seg → List Seg
carve n s rest = if s.length == n then seg n false ∷ rest else seg n false ∷ back_seg s n ∷ rest

-- First fit on the list of segments from address `p` on: the address of the header taken, and the
-- new list.
unfoldable pub first_fit : ℕ → ℕ → List Seg → Option (ℕ × List Seg)
first_fit n p [] = none
first_fit n p (s ∷ xs) =
    if fits n s
    then some (p, carve n s xs)
    else elim (first_fit n (after p s) xs) [ none ↦ none | some (q, ys) ↦ some (q, s ∷ ys) ]

module _ (h : Heap) (pre : List Seg) (a : Seg) (rest : List Seg) (n : ℕ)
    (v : IsHeap h (pre ++ a ∷ rest)) (eight : 8 ≤ n) (small : n < 2 ^ 63) where
  abbrev here : ℕ
  here = end_of h.heap_start pre

  try_segment_exact :
      a.free ≡ true → a.length ≡ n → try_segment n h here ≡ some (set_free h here false)
  unfolding try_segment
  try_segment_exact free e = let at = IsHeap-At h pre a rest v in ground (arith, at.header)

  try_segment-split :
      a.free ≡ true
      → n + header_size + 8 ≤ a.length
      → (h' : Heap) → split h here n ≡ some h'
      → try_segment n h here ≡ some (set_free h' here false)
  unfolding try_segment
  try_segment-split free room h' done =
      let at = IsHeap-At h pre a rest v in
      rw (at.header, free, eterna.Base.lt→ltb n a.length (omega arith), done)

  try_segment-none : fits n a ≡ false → try_segment n h here ≡ none
  unfolding try_segment fits
  try_segment-none unfit =
      let at = IsHeap-At h pre a rest v in
      elim (Bool-cases a.free) [
        | inr held ↦ ground (arith, at.header)
        | inl free ↦
            let nothing : split h here n ≡ none =
              split-none h pre a n rest v small (λ can. ground arith) in
            ground (arith, at.header, nothing)
      ]

  carve_exact : a.length ≡ n → carve n a rest ≡ seg a.length false ∷ rest
  unfolding carve
  carve_exact e = ground arith

  carve_split : n + header_size + 8 ≤ a.length → carve n a rest ≡ seg n false ∷ back_seg a n ∷ rest
  unfolding carve
  carve_split room = ground arith

  abbrev Taken : Type 0
  Taken =
      (h' : Heap) × (try_segment n h here ≡ some h')
      × IsHeap h' (pre ++ carve n a rest)
      × (h'.heap_start ≡ h.heap_start)
      × (h'.heap_end ≡ h.heap_end)

  take_exact : a.free ≡ true → a.length ≡ n → Taken
  take_exact free e = (
    set_free h here false,
    try_segment_exact free e,
    rw (carve_exact e) (set_free-IsHeap h pre a rest false v),
    refl,
    refl,
  )

  take_split : a.free ≡ true → n + header_size + 8 ≤ a.length → Taken
  take_split free room =
      let (h₁, done, v₁, same_start, same_end) = split-IsHeap h pre a n rest v (eight, room) in
      (
        set_free h₁ here false,
        try_segment-split free room h₁ done,
        rw (carve_split room) (
            rw (← same_start)
              (set_free-IsHeap h₁ pre (front_seg a n) (back_seg a n ∷ rest) false v₁)),
        same_start,
        same_end,
      )

  -- What one round does to a segment that fits.
  try_segment_some : fits n a ≡ true → Taken
  unfolding fits
  try_segment_some fit = elim (Bool-cases (a.length == n)) [
    | inl exact ↦ take_exact (ground arith) (ground arith)
    | inr other ↦ take_split (ground arith) (ground arith)
  ]

-- What the loop gives from the address `p` of the segments `xs` on, behind the segments `pre`.
abbrev pub Finds : Heap → List Seg → ℕ → List Seg → Found → Type 0
Finds h pre n xs (taken address h') =
    (q : ℕ) × (ys : List Seg) × (first_fit n (end_of h.heap_start pre) xs ≡ some (q, ys))
    × (address ≡ q + header_size)
    × IsHeap h' (pre ++ ys)
    × (h'.heap_start ≡ h.heap_start)
    × (h'.heap_end ≡ h.heap_end)
Finds h pre n xs none_fits = first_fit n (end_of h.heap_start pre) xs ≡ none
Finds h pre n xs out_of_rounds = ⊥

module _ (rounds n : ℕ) (h : Heap) (c : ℕ) where
  find_taken :
      (h' : Heap)
      → try_segment n h c ≡ some h'
      → find (suc rounds) n h c ≡ taken (add64 c header_size) h'
  unfolding find
  find_taken h' e = rw (e, find)

  find_end : try_segment n h c ≡ none → (h.mem c).next ≡ 0 → find (suc rounds) n h c ≡ none_fits
  unfolding find
  find_end e at_end = rw (e, find) (ground arith)

  find_next :
      try_segment n h c ≡ none
      → 0 < (h.mem c).next
      → find (suc rounds) n h c ≡ find rounds n h (h.mem c).next
  unfolding find
  find_next e more = rw (e, find) (ground arith)

pub first_fit_nil : (n p : ℕ) → first_fit n p [] ≡ none
unfolding first_fit
first_fit_nil n p = refl

module _ (n p : ℕ) (a : Seg) (xs : List Seg) where
  first_fit_here : fits n a ≡ true → first_fit n p (a ∷ xs) ≡ some (p, carve n a xs)
  unfolding first_fit
  first_fit_here fit = rw fit

  first_fit_skip :
      (q : ℕ) (ys : List Seg)
      → fits n a ≡ false
      → first_fit n (after p a) xs ≡ some (q, ys)
      → first_fit n p (a ∷ xs) ≡ some (q, a ∷ ys)
  unfolding first_fit
  first_fit_skip q ys unfit e = rw (unfit, e)

  first_fit-none :
      fits n a ≡ false → first_fit n (after p a) xs ≡ none → first_fit n p (a ∷ xs) ≡ none
  unfolding first_fit
  first_fit-none unfit e = rw (unfit, e)

-- One step of the walk.
Finds-next :
    (h : Heap) (pre : List Seg) (n : ℕ) (a : Seg) (xs : List Seg) (r : Found)
    → fits n a ≡ false
    → Finds h (pre ++ a ∷ []) n xs r
    → Finds h pre n (a ∷ xs) r
Finds-next h pre n a xs (taken address h') unfit (q, ys, e, where_, v, s, t) = (
  q,
  a ∷ ys,
  first_fit_skip n (end_of h.heap_start pre) a xs q ys unfit
      (rw (← end_of-append h.heap_start pre (a ∷ [])) e),
  where_,
  rw append_assoc at v,
  s,
  t,
)
Finds-next h pre n a xs none_fits unfit e =
    first_fit-none n (end_of h.heap_start pre) a xs unfit
      (rw (← end_of-append h.heap_start pre (a ∷ [])) e)
Finds-next h pre n a xs out_of_rounds unfit e = e

module _ (h : Heap) (n : ℕ) (eight : 8 ≤ n) (small : n < 2 ^ 63) where
  find_fit :
      (rounds : ℕ) (pre : List Seg) (a : Seg) (xs : List Seg)
      → IsHeap h (pre ++ a ∷ xs)
      → fits n a ≡ true
      → Finds h pre n (a ∷ xs) (find (suc rounds) n h (end_of h.heap_start pre))
  find_fit rounds pre a xs v fit =
      let p = end_of h.heap_start pre in
      let at = IsHeap-At h pre a xs v in
      let (h', done, v', same_start, same_end) = try_segment_some h pre a xs n v eight small fit in
      rw (find_taken rounds n h p h' done) (
        p,
        carve n a xs,
        first_fit_here n p a xs fit,
        omega (arith, at.within, at.bound),
        v',
        same_start,
        same_end,
      )

  -- With more rounds than segments, the loop does what `first_fit` says.
  pub find-Finds :
      (rounds : ℕ) (pre : List Seg) (a : Seg) (xs : List Seg)
      → IsHeap h (pre ++ a ∷ xs)
      → length xs < rounds
      → Finds h pre n (a ∷ xs) (find rounds n h (end_of h.heap_start pre))
  find-Finds zero pre a xs v enough = absurd (omega arith)
  find-Finds (suc rounds) pre a [] v enough = elim (Bool-cases (fits n a)) [
    | inl fit ↦ find_fit rounds pre a [] v fit
    | inr unfit ↦
        let at = IsHeap-At h pre a [] v in
        rw
          (find_end rounds n h (end_of h.heap_start pre)
            (try_segment-none h pre a [] n v eight small unfit)
            (ground (arith, at.header, at.ends)))
          (first_fit-none n (end_of h.heap_start pre) a [] unfit (first_fit_nil n _))
  ]
  find-Finds (suc rounds) pre a (b ∷ xs) v enough = elim (Bool-cases (fits n a)) [
    | inl fit ↦ find_fit rounds pre a (b ∷ xs) v fit
    | inr unfit ↦
        let p = end_of h.heap_start pre in
        let at = IsHeap-At h pre a (b ∷ xs) v in
        let next : (h.mem p).next ≡ after p a =
          ground (arith, at.header, at.ends, le-end_of (after (after p a) b) xs) in
        let v' : IsHeap h ((pre ++ a ∷ []) ++ b ∷ xs) = rw append_assoc v in
        let step : end_of h.heap_start (pre ++ a ∷ []) ≡ after p a =
          end_of-append h.heap_start pre (a ∷ []) in
        let rest = find-Finds rounds (pre ++ a ∷ []) b xs v' (omega arith) in
        rw
          (
            find_next rounds n h p (try_segment-none h pre a (b ∷ xs) n v eight small unfit)
                (omega (arith, next)),
            next,
            ← step,
          )
          (Finds-next h pre n a (b ∷ xs) _ unfit rest)
  ]
