-- ===== src/Heap/Reach.antt =====
-- A client of the heap: what it holds after any sequence of calls of `malloc` and `free` behind `init_heap`.
use eterna.Base.{
  ℕ, ◌+◌, ◌-◌, ◌*◌, ◌≤◌, ◌<◌, ◌^◌, ◌≡◌, refl, ap, subst, sym, ◌∙◌, Bool, true, false, ◌||◌, List,
  [], ◌∷◌, ◌++◌, length, arith, Bool-cases, inl, inr, ltb, ◌==◌, if◌then◌else◌,
}
use eterna.Pmm.{page_size}
use eterna.Heap.{
  Heap, header_size, round_up, Block, block, null, exhausted, unbacked, malloc, free, init_heap,
}
use eterna.Heap.Chain.{Seg, seg, IsHeap}
use eterna.Heap.Expand.{added_pages}
use eterna.Heap.Malloc.{quiet}
use eterna.Heap.Blocks.{blocks, Apart}
use eterna.Heap.Coalesce.{head_free, Coalesced}
use eterna.Heap.Live.{Live, Adds, Live-Apart, init_heap-Live, malloc-Live, free-Live}

-- The blocks a client holds, by address: taking one up, looking for an address, and giving it back.
abbrev pub take_up : ℕ → ℕ → List (ℕ × ℕ) → List (ℕ × ℕ)
take_up q n [] = (q, n) ∷ []
take_up q n ((p, k) ∷ bs) = if ltb q p then (q, n) ∷ (p, k) ∷ bs else (p, k) ∷ take_up q n bs

abbrev pub holds : ℕ → List (ℕ × ℕ) → Bool
holds q [] = false
holds q ((p, k) ∷ bs) = q == p || holds q bs

abbrev pub give_back : ℕ → List (ℕ × ℕ) → List (ℕ × ℕ)
give_back q [] = []
give_back q ((p, k) ∷ bs) = if q == p then bs else (p, k) ∷ give_back q bs

pub record Client : Type 0 where
  pub heap : Heap
  pub held : List (ℕ × ℕ)

-- As many rounds as the heap has bytes, and two.
abbrev pub rounds : Heap → ℕ
rounds h = (h.heap_end - h.heap_start) + 2

-- The addresses and the pages that two expansions for `n` bytes need are there.
abbrev pub HasRoom : ℕ → Heap → ℕ → Type 0
HasRoom pages h n =
    (0 < n)
    × (n < 2 ^ 62)
    × (h.heap_end + 2 * (added_pages (round_up n) * page_size) < 2 ^ 64)
    × (length h.mapped + 2 * added_pages (round_up n) ≤ pages)

-- A call of `malloc` that gives a block, in the build without `DEBUG_HEAP`, and a call of `free` with an address the client holds.
pub data Step (pages : ℕ) (c c' : Client) : Type 0 where
  allocates :
      (n address : ℕ) (h' : Heap)
      → HasRoom pages c.heap n
      → malloc (quiet pages) 3 (rounds c.heap) c.heap n ≡ block address h'
      → c' ≡ record { heap = h'; held = take_up address (round_up n) c.held }
      → Step pages c c'
  releases :
      (address : ℕ)
      → holds address c.held ≡ true
      → c' ≡ record { heap = free c.heap address; held = give_back address c.held }
      → Step pages c c'

pub data Reach (pages : ℕ) (h : Heap) : Client → Type 0 where
  booted : Reach pages h (record { heap = init_heap h; held = [] })
  then_calls : {c c' : Client} → Reach pages h c → Step pages c c' → Reach pages h c'

-- Blocks in order: the place of a new one is found by its address.
take_up-append :
    (start stop q n : ℕ) (front back : List (ℕ × ℕ))
    → Apart start stop (front ++ (q, n) ∷ back)
    → take_up q n (front ++ back) ≡ front ++ (q, n) ∷ back
take_up-append start stop q n [] [] a = refl
take_up-append start stop q n [] ((p, k) ∷ back) a = ground arith
take_up-append start stop q n ((p, k) ∷ front) back (a, b) =
    ground (arith, take_up-append (p + k) stop q n front back b, above (p + k) stop front b)
  where
    above : (at end : ℕ) (front : List (ℕ × ℕ)) → Apart at end (front ++ (q, n) ∷ back) → at ≤ q
    above at end [] a = omega arith
    above at end ((p, k) ∷ front) (a, b) = omega (arith, above (p + k) end front b)

-- The block of a held address, among those before and behind it.
abbrev Found : ℕ → List (ℕ × ℕ) → Type 0
Found q bs =
    (front : List (ℕ × ℕ)) × (n : ℕ) × (back : List (ℕ × ℕ)) × (bs ≡ front ++ (q, n) ∷ back)
    × (give_back q bs ≡ front ++ back)

holds-Found : (q : ℕ) (bs : List (ℕ × ℕ)) → holds q bs ≡ true → Found q bs
holds-Found q [] h = absurd (ground (arith, h))
holds-Found q ((p, k) ∷ bs) h = elim (Bool-cases (q == p)) [
  | inl here ↦ ([], k, bs, ground (arith, here), ground (arith, here))
  | inr away ↦
      let (front, n, back, e, e') = holds-Found q bs (ground (arith, h, away)) in
      ((p, k) ∷ front, n, back, ap (λ l. (p, k) ∷ l) e, ground (arith, away, e'))
]

-- What `malloc` gives a client with room: a block, and the blocks it holds then are live.
abbrev pub Granted : ℕ → Client → ℕ → Type 0
Granted pages c n =
    (address : ℕ) × (h' : Heap) × (malloc (quiet pages) 3 (rounds c.heap) c.heap n
      ≡ block address h')
    × Live h' (take_up address (round_up n) c.held)

abbrev BlockLive : Client → ℕ → Block → Type 0
BlockLive c n (block q h') = Live h' (take_up q (round_up n) c.held)
BlockLive c n null = Unit {0}
BlockLive c n exhausted = Unit {0}
BlockLive c n unbacked = Unit {0}

Adds-Granted :
    (pages : ℕ) (c : Client) (n : ℕ) (b : Block)
    → malloc (quiet pages) 3 (rounds c.heap) c.heap n ≡ b
    → Adds c.held (round_up n) b
    → Granted pages c n
Adds-Granted pages c n (block q h') e (front, back, split, v) =
    let found =
      take_up-append h'.heap_start h'.heap_end q (round_up n) front back (Live-Apart h' _ v) in
    (q, h', e, subst (Live h') (sym (ap (take_up q (round_up n)) split ∙ found)) v)
Adds-Granted pages c n null e a = absurd a
Adds-Granted pages c n exhausted e a = absurd a
Adds-Granted pages c n unbacked e a = absurd a

granted :
    (pages : ℕ) (c : Client) (n : ℕ)
    → Live c.heap c.held
    → HasRoom pages c.heap n
    → Granted pages c n
granted pages c n v (pos, small, room, backed) =
    Adds-Granted pages c n _ refl
      (malloc-Live pages (rounds c.heap) n c.heap c.held v pos small (omega arith) room backed)

Step-Live :
    {pages : ℕ} {c c' : Client} → Step pages c c' → Live c.heap c.held → Live c'.heap c'.held
Step-Live {pages} {c} {c'} (allocates n address h' room e e') v =
    let (q, k, given, live) = granted pages c n v room in
    let same : block q k ≡ block address h' = sym given ∙ e in
    let live' : Live h' (take_up address (round_up n) c.held) =
      subst (λ b. BlockLive c n b) same live in
    subst (λ (t : Client). Live t.heap t.held) (sym e') live'
Step-Live {pages} {c} {c'} (releases address holds e') v =
    let (front, n, back, e, given) = holds-Found address c.held holds in
    let freed = free-Live c.heap front address n back (subst (Live c.heap) e v) in
    subst (λ (t : Client). Live t.heap t.held) (sym e')
      (subst (Live (free c.heap address)) (sym given) freed)

-- Without `DEBUG_HEAP`, after any sequence of calls of `malloc` and `free` of held addresses behind `init_heap`, the heap is a
-- well-formed chain with no two free neighbours, whose live blocks are those the client holds.
pub Reach-Live : {pages : ℕ} {h : Heap} {c : Client} → Reach pages h c → Live c.heap c.held
Reach-Live {h = h} booted = init_heap-Live h
Reach-Live (then_calls r s) = Step-Live s (Reach-Live r)

-- Without `DEBUG_HEAP`, in every state that is reached, a request of 1 to 2 ^ 62 - 1 bytes with addresses and
-- pages for two expansions is granted: the client can make the call and holds one block more.
pub Reach-allocates :
    {pages : ℕ} {h : Heap} {c : Client} (n : ℕ)
    → Reach pages h c
    → HasRoom pages c.heap n
    → (address : ℕ) × (h' : Heap) × Reach pages h
        (record { heap = h'; held = take_up address (round_up n) c.held })
Reach-allocates {pages = pages} {c = c} n r room =
    let (address, h', e, live) = granted pages c n (Reach-Live r) room in
    (address, h', then_calls r (allocates n address h' room e refl))

-- Segments without a block among them, none next to another free one: there is one at most.
all_free :
    (p : ℕ) (x : Seg) (xs : List Seg)
    → blocks p (x ∷ xs) ≡ []
    → Coalesced (x ∷ xs)
    → x ∷ xs ≡ seg x.length true ∷ []
unfolding blocks head_free
all_free p x [] e c = elim (Bool-cases x.free) [
  | inl free ↦ ground (arith, free)
  | inr held ↦ ground (arith, e, held)
]
all_free p x (y ∷ ys) e (apart, c) = elim (Bool-cases x.free) [
  | inl free ↦ elim (Bool-cases y.free) [
    | inl free' ↦ ground (arith, apart, free, free')
    | inr held ↦ ground (arith, e, free, held)
  ]
  | inr held ↦ ground (arith, e, held)
]

one_segment :
    (h : Heap) (xs : List Seg)
    → IsHeap h xs
    → Coalesced xs
    → blocks h.heap_start xs ≡ []
    → (n : ℕ) × IsHeap h (seg n true ∷ []) × (h.heap_start + header_size + n ≡ h.heap_end)
one_segment h [] v c e = absurd (omega (arith, v.some_segment))
one_segment h (x ∷ xs) v c e =
    let w = subst (IsHeap h) (all_free h.heap_start x xs e c) v in
    (x.length, w, omega (arith, w.ends))

-- Without `DEBUG_HEAP`, when everything is given back, the heap is one free segment from its start to its end.
pub Reach-give_back :
    {pages : ℕ} {h : Heap} {c : Client}
    → Reach pages h c
    → c.held ≡ []
    → (n : ℕ) × IsHeap c.heap (seg n true ∷ [])
      × (c.heap.heap_start + header_size + n ≡ c.heap.heap_end)
Reach-give_back {c = c} r nothing =
    let v = Reach-Live r in
    one_segment c.heap v.segments v.well_formed v.coalesced (v.live ∙ nothing)
