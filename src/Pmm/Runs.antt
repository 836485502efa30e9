-- ===== src/Pmm/Runs.antt =====
-- Locking and freeing a run of pages, `lock_pages` and `free_pages`.
use eterna.Base.{
  ℕ, zero, suc, ◌+◌, ◌*◌, ◌/◌, ◌≤◌, ◌<◌, ◌^◌, ◌≡◌, refl, true, false, ◌&&◌, arith, leb, ltb,
  if◌then◌else◌, ◌-◌, ◌∙◌, add64, mul64, zero-add,
}
use eterna.Bitmap.Laws.{IsValid as IsValidBitmap}
use eterna.Bitmap.Count.{count_same, count_total, Run}
use eterna.Pmm.{Pmm, page_size, lock_page, free_page, lock_loop, lock_pages, free_loop, free_pages}
use eterna.Pmm.Pages.{
  IsValid, locked, locked-lock_page, locked-free_page, bitmap-lock_page, bitmap-free_page,
  size-lock_page, total-lock_page, total-free_page, lock_page_counters, lock_page-IsValid,
  free_page-IsValid,
}

-- The page that round `i` of the loops writes.
page_at :
    (address i : ℕ)
    → address + (i + 1) * page_size ≤ 2 ^ 64
    → add64 address (mul64 i page_size) / page_size ≡ address / page_size + i
page_at address i h = omega arith

module _ (address : ℕ) where
  locked-lock_loop :
      (i left : ℕ) (s : Pmm)
      → IsValidBitmap s.page_map
      → address + (i + left) * page_size ≤ 2 ^ 64
      → (j : ℕ)
      → locked (lock_loop address i left s) j ≡ (
          if leb (address / page_size + i) j
            && ltb j (address / page_size + (i + left))
            && ltb j (s.page_map.size * 8)
          then true
          else locked s j)
  unfolding lock_loop
  locked-lock_loop i zero s v h j = ground arith
  locked-lock_loop i (suc left) s v h j =
      let here = add64 address (mul64 i page_size) in
      ground (
        arith,
        locked-lock_loop (i + 1) left (lock_page s here) (bitmap-lock_page s here v) (omega arith)
            j,
        locked-lock_page s here v j,
        size-lock_page s here,
        page_at address i (omega arith),
      )

  locked-free_loop :
      (i left : ℕ) (s : Pmm)
      → IsValidBitmap s.page_map
      → address + (i + left) * page_size ≤ 2 ^ 64
      → (j : ℕ)
      → locked (free_loop address i left s) j ≡ (
          if leb (address / page_size + i) j && ltb j (address / page_size + (i + left))
          then false
          else locked s j)
  unfolding free_loop
  locked-free_loop i zero s v h j = ground arith
  locked-free_loop i (suc left) s v h j =
      let here = add64 address (mul64 i page_size) in
      ground (
        arith,
        locked-free_loop (i + 1) left (free_page s here) (bitmap-free_page s here v) (omega arith)
            j,
        locked-free_page s here v j,
        page_at address i (omega arith),
      )

  lock_loop-IsValid :
      (i left : ℕ) (s : Pmm)
      → IsValid s
      → address / page_size + (i + left) ≤ s.total_pages + 1
      → IsValid (lock_loop address i left s)
  unfolding lock_loop
  lock_loop-IsValid i zero s v h = v
  lock_loop-IsValid i (suc left) s v h =
      let here = add64 address (mul64 i page_size) in
      lock_loop-IsValid (i + 1) left (lock_page s here)
        (lock_page-IsValid s here v (omega (arith, v.covered, v.addressable)))
        (omega (arith, total-lock_page s here))

  free_loop-IsValid : (i left : ℕ) (s : Pmm) → IsValid s → IsValid (free_loop address i left s)
  unfolding free_loop
  free_loop-IsValid i zero s v = v
  free_loop-IsValid i (suc left) s v =
      let here = add64 address (mul64 i page_size) in
      free_loop-IsValid (i + 1) left (free_page s here) (free_page-IsValid s here v)

  total-lock_loop :
      (i left : ℕ) (s : Pmm) → (lock_loop address i left s).total_pages ≡ s.total_pages
  unfolding lock_loop
  total-lock_loop i zero s = refl
  total-lock_loop i (suc left) s =
      let here = add64 address (mul64 i page_size) in
      omega (arith, total-lock_loop (i + 1) left (lock_page s here), total-lock_page s here)

  total-free_loop :
      (i left : ℕ) (s : Pmm) → (free_loop address i left s).total_pages ≡ s.total_pages
  unfolding free_loop
  total-free_loop i zero s = refl
  total-free_loop i (suc left) s =
      let here = add64 address (mul64 i page_size) in
      omega (arith, total-free_loop (i + 1) left (free_page s here), total-free_page s here)

-- Locking a free page moves one page from the free counter to the used one.
pub lock_page_takes :
    (s : Pmm) (address : ℕ)
    → IsValid s
    → address / page_size ≤ s.total_pages
    → locked s (address / page_size) ≡ false
    → let t = lock_page s address in
      (t.total_free_pages + 1 ≡ s.total_free_pages) × (t.total_used_pages ≡ s.total_used_pages + 1)
lock_page_takes s address v h free =
    let t = lock_page s address in
    let tv : IsValid t = lock_page-IsValid s address v h in
    omega (
      arith,
      lock_page_counters s address free (omega (arith, v.covered)),
      count_total (locked s) (s.total_pages + 1),
      count_total (locked t) (t.total_pages + 1),
      total-lock_page s address,
      tv.free_counted,
      tv.used_counted,
      v.free_counted,
      v.used_counted,
      v.covered,
      v.addressable,
    )

-- Each round locks a page that is still free.
lock_loop_counters :
    (address i left : ℕ) (s : Pmm)
    → IsValid s
    → address / page_size + (i + left) ≤ s.total_pages + 1
    → address + (i + left) * page_size ≤ 2 ^ 64
    → ((k : ℕ) → k < left → locked s (address / page_size + (i + k)) ≡ false)
    → let t = lock_loop address i left s in
      (t.total_free_pages + left ≡ s.total_free_pages)
      × (t.total_used_pages ≡ s.total_used_pages + left)
unfolding lock_loop
lock_loop_counters address i zero s v h fits run = omega arith
lock_loop_counters address i (suc left) s v h fits run =
    let here = add64 address (mul64 i page_size) in
    let t = lock_page s here in
    let page : here / page_size ≡ address / page_size + i = page_at address i (omega arith) in
    let counted : here / page_size ≤ s.total_pages = omega (arith, page) in
    let rest =
      lock_loop_counters address (i + 1) left t (lock_page-IsValid s here v counted)
        (omega (arith, total-lock_page s here)) (omega arith)
        (λ k q. ground (
          arith,
          locked-lock_page s here v.bitmap (address / page_size + (i + 1 + k)),
          run (k + 1),
        )) in
    omega (arith, rest, lock_page_takes s here v counted (ground (arith, run 0)))

module _ (s : Pmm) (address n : ℕ) where
  -- `lock_pages` sets the bits of its pages that the bitmap holds, and no other.
  pub locked-lock_pages :
      IsValidBitmap s.page_map
      → address + n * page_size ≤ 2 ^ 64
      → (j : ℕ)
      → locked (lock_pages s address n) j ≡ (
          if leb (address / page_size) j
            && ltb j (address / page_size + n)
            && ltb j (s.page_map.size * 8)
          then true
          else locked s j)
  unfolding lock_pages
  locked-lock_pages v h j = ground (arith, locked-lock_loop address 0 n s v (omega arith) j)

  -- `free_pages` clears the bits of its pages, and no other.
  pub locked-free_pages :
      IsValidBitmap s.page_map
      → address + n * page_size ≤ 2 ^ 64
      → (j : ℕ)
      → locked (free_pages s address n) j ≡ (
          if leb (address / page_size) j && ltb j (address / page_size + n)
          then false
          else locked s j)
  unfolding free_pages
  locked-free_pages v h j = ground (arith, locked-free_loop address 0 n s v (omega arith) j)

  -- Locking pages that are counted keeps the invariant.
  pub lock_pages-IsValid :
      IsValid s → address / page_size + n ≤ s.total_pages + 1 → IsValid (lock_pages s address n)
  unfolding lock_pages
  lock_pages-IsValid v h = lock_loop-IsValid address 0 n s v (omega arith)

  -- Freeing any pages keeps the invariant.
  pub free_pages-IsValid : IsValid s → IsValid (free_pages s address n)
  unfolding free_pages
  free_pages-IsValid v = free_loop-IsValid address 0 n s v

  pub total-lock_pages : (lock_pages s address n).total_pages ≡ s.total_pages
  unfolding lock_pages
  total-lock_pages = total-lock_loop address 0 n s

  pub total-free_pages : (free_pages s address n).total_pages ≡ s.total_pages
  unfolding free_pages
  total-free_pages = total-free_loop address 0 n s

-- Valid states with the same bits and the same total have the same counters.
counters_eq :
    (s t : Pmm)
    → IsValid s
    → IsValid t
    → t.total_pages ≡ s.total_pages
    → ((j : ℕ) → locked t j ≡ locked s j)
    → (t.total_free_pages ≡ s.total_free_pages) × (t.total_used_pages ≡ s.total_used_pages)
counters_eq s t v w e same = ground (
  arith,
  count_same false (locked s) (locked t) (s.total_pages + 1) (λ j p. same j),
  count_same true (locked s) (locked t) (s.total_pages + 1) (λ j p. same j),
)

module _ (s : Pmm) (address n : ℕ) (v : IsValid s) where
  -- Freeing a run of pages that were free when they were locked gives back every bit and both
  -- counters.
  pub free_pages-lock_pages :
      address / page_size + n ≤ s.total_pages + 1
      → address + n * page_size ≤ 2 ^ 64
      → Run (locked s) (address / page_size) n
      → let t = free_pages (lock_pages s address n) address n in
        ((j : ℕ) → locked t j ≡ locked s j)
        × (t.total_free_pages ≡ s.total_free_pages)
        × (t.total_used_pages ≡ s.total_used_pages)
  free_pages-lock_pages h fits run =
      let u = lock_pages s address n in
      let uv : IsValid u = lock_pages-IsValid s address n v h in
      let same : (j : ℕ) → locked (free_pages u address n) j ≡ locked s j = λ j. ground (
        arith,
        locked-free_pages u address n uv.bitmap fits j,
        locked-lock_pages s address n v.bitmap fits j,
        run (j - address / page_size),
      ) in
      let counters =
        counters_eq s (free_pages u address n) v (free_pages-IsValid u address n uv)
          (total-free_pages u address n ∙ total-lock_pages s address n) same in
      (same, counters.0, counters.1)

  -- The counters of a locked run of free pages move by the number of pages.
  pub lock_pages_counters :
      address / page_size + n ≤ s.total_pages + 1
      → address + n * page_size ≤ 2 ^ 64
      → Run (locked s) (address / page_size) n
      → let t = lock_pages s address n in
        (t.total_free_pages + n ≡ s.total_free_pages)
        × (t.total_used_pages ≡ s.total_used_pages + n)
  unfolding lock_pages
  lock_pages_counters h fits run =
      lock_loop_counters address 0 n s v (omega arith) (omega arith) (λ k p. rw zero-add (run k p))
