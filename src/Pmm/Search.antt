-- ===== src/Pmm/Search.antt =====
-- `request_pages`: the search for a run of free pages.
use eterna.Base.{
  ℕ, zero, suc, ◌+◌, ◌-◌, ◌≤◌, ◌<◌, ◌≡◌, refl, Bool, true, false, arith, mul64, Bool-cases, inl,
  inr, ltb, leb, ◌⊎◌, ◌||◌,
}
use eterna.Bitmap
use eterna.Bitmap.{Bitmap}
use eterna.Bitmap.Count.{Run}
use eterna.Pmm.{
  Pmm, Request, granted, refused, panicked, exhausted, page_size, lock_pages, Scan, full, past_end,
  out_of_rounds, short, scan_run, after_scan, search, request_pages,
}
use eterna.Pmm.Pages.{locked}

-- A run of `n` free pages at `a` that ends before the last byte count of the bitmap.
abbrev pub Candidate : (ℕ → Bool) → ℕ → ℕ → ℕ → Type 0
Candidate test end n a = Run test a n × (a + n < end)

-- How the inner loop ends, started at the free page `i`.
abbrev Ends : (ℕ → Bool) → (end n i : ℕ) → Scan → Type 0
Ends test end n i full = Candidate test end n i
Ends test end n i past_end = end ≤ i + n
Ends test end n i (short j) = (i ≤ j) × (j < end) × (j < i + n) × (test j ≡ true)
Ends test end n i out_of_rounds = ⊥

module _ (bm : Bitmap) (n i : ℕ) where
  scan_run-Ends :
      (left index run : ℕ)
      → index ≡ i + run
      → left ≡ bm.size - index
      → index < bm.size
      → run < n
      → Run (Bitmap.get bm) i run
      → Ends (Bitmap.get bm) bm.size n i (scan_run bm n left index run)
  unfolding scan_run Bitmap.length
  scan_run-Ends zero index run e m below r free = absurd (omega arith)
  scan_run-Ends (suc left) index run e m below r free = elim (Bool-cases (Bitmap.get bm index)) [
    | inl held ↦ rw held (omega arith, below, omega arith, held)
    | inr clear ↦
        let longer : Run (Bitmap.get bm) i (run + 1) = λ k p. ground (arith, free k) in
        rw clear (elim (Bool-cases (leb bm.size (index + 1))) [
          | inl over ↦ rw over (ground arith)
          | inr on ↦ rw on (elim (Bool-cases (leb n (run + 1))) [
            | inl enough ↦ rw enough ((λ k p. longer k (ground arith)), ground arith)
            | inr more ↦ rw more (
                scan_run-Ends left (index + 1) (run + 1) (omega arith) (omega arith) (ground arith)
                  (ground arith) longer)
          ])
        ])
  ]

-- What the search gives, from page `i` on: the lowest candidate, whose pages are then locked; or
-- nothing, where there is no candidate.
abbrev pub Found : Pmm → ℕ → ℕ → Request × Pmm → Type 0
Found s n i (granted address, t) =
    (a : ℕ) × (address ≡ mul64 a page_size)
    × (i ≤ a)
    × Candidate (locked s) s.page_map.size n a
    × ((b : ℕ) → i ≤ b → b < a → ¬ Candidate (locked s) s.page_map.size n b)
    × (t ≡ lock_pages s address n)
Found s n i (refused, t) = ((b : ℕ) → i ≤ b → ¬ Candidate (locked s) s.page_map.size n b) × (t ≡ s)
Found s n i (panicked, t) = ((b : ℕ) → i ≤ b → ¬ Candidate (locked s) s.page_map.size n b) × (t ≡ s)
Found s n i (exhausted, t) = ⊥

-- No candidate holds a locked page.
not_Candidate :
    (test : ℕ → Bool) (end n b j : ℕ) → b ≤ j → j < b + n → test j ≡ true → ¬ Candidate test end n b
not_Candidate test end n b j p q held x = ground (arith, x.0 (j - b))

-- A locked page in reach of every candidate up to it rules them out.
Found-skip :
    (s : Pmm) (n i j : ℕ) (r : Request × Pmm)
    → i ≤ j
    → j < i + n
    → locked s j ≡ true
    → Found s n (j + 1) r
    → Found s n i r
Found-skip s n i j (granted address, t) a b held (c, e, later, fits, lower, same) = (
  c,
  e,
  omega arith,
  fits,
  λ d p q x. elim (Bool-cases (leb d j)) [
    | inl early ↦ not_Candidate (locked s) s.page_map.size n d j (ground arith) (omega arith) held x
    | inr late ↦ lower d (ground arith) q x
  ],
  same,
)
Found-skip s n i j (refused, t) a b held (none, same) = (
  λ d p x. elim (Bool-cases (leb d j)) [
    | inl early ↦ not_Candidate (locked s) s.page_map.size n d j (ground arith) (omega arith) held x
    | inr late ↦ none d (ground arith) x
  ],
  same,
)
Found-skip s n i j (panicked, t) a b held (none, same) = (
  λ d p x. elim (Bool-cases (leb d j)) [
    | inl early ↦ not_Candidate (locked s) s.page_map.size n d j (ground arith) (omega arith) held x
    | inr late ↦ none d (ground arith) x
  ],
  same,
)
Found-skip s n i j (exhausted, t) a b held h = h

after_scan-Found :
    (s : Pmm) (n i : ℕ) (next : ℕ → Request × Pmm) (r : Scan)
    → Ends (locked s) s.page_map.size n i r
    → ((j : ℕ) → i ≤ j → j < s.page_map.size → Found s n (j + 1) (next j))
    → Found s n i (after_scan s n i next r)
unfolding after_scan
after_scan-Found s n i next full fits rest =
    (i, refl, omega arith, fits, λ b p q. absurd (omega arith), refl)
after_scan-Found s n i next past_end over rest = ((λ b p x. absurd (omega arith)), refl)
after_scan-Found s n i next out_of_rounds h rest = h
after_scan-Found s n i next (short j) (late, within, near, held) rest =
    Found-skip s n i j (next j) late near held (rest j late within)

module _ (left : ℕ) (s : Pmm) (n i : ℕ) where
  search_over : ltb i s.page_map.size ≡ false → search (suc left) s n i ≡ (refused, s)
  unfolding search Bitmap.length
  search_over e = rw (e, search)

  search_held :
      ltb i s.page_map.size ≡ true
      → locked s i ≡ true
      → search (suc left) s n i ≡ search left s n (i + 1)
  unfolding search Bitmap.length
  search_held e held = rw (e, held, search)

  search_free :
      ltb i s.page_map.size ≡ true
      → locked s i ≡ false
      → search (suc left) s n i
        ≡ after_scan s n i
            (λ index. search left s n (index + 1))
            (scan_run s.page_map n (s.page_map.size - i) i 0)
  unfolding search Bitmap.length
  search_free e clear = rw (e, clear, search)

search-Found :
    (left : ℕ) (s : Pmm) (n i : ℕ)
    → 0 < n
    → 0 < left
    → s.page_map.size < i + left
    → Found s n i (search left s n i)
search-Found zero s n i pos some_left fuel = absurd (omega arith)
search-Found (suc left) s n i pos some_left fuel = elim (Bool-cases (ltb i s.page_map.size)) [
  | inr over ↦ rw (search_over left s n i over) ((λ b p x. ground arith), refl)
  | inl below ↦ elim (Bool-cases (locked s i)) [
    | inl held ↦ rw (search_held left s n i below held) (
        Found-skip s n i i (search left s n (i + 1)) (omega arith) (omega arith) held
          (search-Found left s n (i + 1) pos (ground arith) (omega arith)))
    | inr clear ↦ rw (search_free left s n i below clear) (
        after_scan-Found s n i (λ index. search left s n (index + 1)) _
          (scan_run-Ends s.page_map n i (s.page_map.size - i) i 0 (omega arith) refl (ground arith)
            pos (λ k p. absurd (omega arith)))
          (λ j p q. search-Found left s n (j + 1) pos (ground arith) (omega arith)))
  ]
]

-- The guards of `request_pages` on two pages or more: more is asked for than is free, or than the
-- longest run that was counted at the start.
abbrev pub Guarded : Pmm → ℕ → Type 0
Guarded s n = (s.total_free_pages < n) ⊎ (s.max_free_pages_in_a_row < n)

request_pages-Guarded : (s : Pmm) (n : ℕ) → 1 < n → Guarded s n → request_pages s n ≡ (refused, s)
unfolding request_pages
request_pages-Guarded s n many h = ground arith

request_pages-search :
    (s : Pmm) (n : ℕ)
    → 1 < n
    → n ≤ s.total_free_pages
    → n ≤ s.max_free_pages_in_a_row
    → request_pages s n ≡ search (s.page_map.size - s.first_free_page + 1) s n s.first_free_page
unfolding request_pages Bitmap.length
request_pages-search s n many a b = ground arith

-- What a request of two pages or more gives: one that a guard stops is refused and changes nothing, and
-- any other does what the search finds.
abbrev pub Outcome : Pmm → ℕ → Request × Pmm → Type 0
Outcome s n r =
    (Guarded s n × (r ≡ (refused, s))) ⊎ ((¬ Guarded s n) × Found s n s.first_free_page r)

-- A request of two pages or more that a guard stops is refused, and changes nothing. Any other
-- gives the lowest candidate from the cursor on and locks its pages, or gives nothing and changes
-- nothing, where there is no candidate; the loops end before their rounds are used up.
pub request_pages-Found : (s : Pmm) (n : ℕ) → 1 < n → Outcome s n (request_pages s n)
request_pages-Found s n many =
    elim (Bool-cases (ltb s.total_free_pages n || ltb s.max_free_pages_in_a_row n)) [
      | inl stopped ↦
          let guard : Guarded s n = ground (arith, stopped) in
          inl (guard, request_pages-Guarded s n many guard)
      | inr open_way ↦ inr (
        λ g. ground arith,
        rw (request_pages-search s n many (ground arith) (ground arith)) (
            search-Found (s.page_map.size - s.first_free_page + 1) s n s.first_free_page
              (omega arith) (omega arith) (omega arith)),
      )
    ]
