-- ===== src/Pmm/Pages.antt =====
-- Locking and freeing pages: which bits change, and that the counters keep count of them.
use eterna.Base.{
  ℕ, ◌+◌, ◌*◌, ◌/◌, ◌≤◌, ◌<◌, ◌^◌, ◌≡◌, Bool, true, false, ◌&&◌, arith, ltb, ◌==◌, if◌then◌else◌,
  Bool-cases, inl, inr, add64, sub64,
}
use eterna.Bitmap
use eterna.Bitmap.Laws.{IsValid as IsValidBitmap, get-set, set_done, size-set, set-IsValid, get-out}
use eterna.Bitmap.Count.{free_count, used_count, count-write, count_total}
use eterna.Pmm.{Pmm, page_size, lock_page, free_page}

-- The bitmap as a function of the page's number.
abbrev pub locked : Pmm → ℕ → Bool
locked s = Bitmap.get s.page_map

-- The pages up to `total_pages` are in the bitmap, have addresses, and are the ones counted; the
-- bits past them are clear.
pub record IsValid (s : Pmm) : Type 0 where
  pub bitmap : IsValidBitmap s.page_map
  pub covered : s.total_pages < s.page_map.size * 8
  pub addressable : s.page_map.size * 8 * page_size ≤ 2 ^ 64
  pub past_total : (i : ℕ) → s.total_pages < i → locked s i ≡ false
  pub free_counted : s.total_free_pages ≡ free_count (locked s) (s.total_pages + 1)
  pub used_counted : s.total_used_pages ≡ used_count (locked s) (s.total_pages + 1)

module _ (s : Pmm) (address : ℕ) (v : IsValidBitmap s.page_map) where
  pub locked-lock_page :
      (j : ℕ)
      → locked (lock_page s address) j ≡ (
          if ltb (address / page_size) (s.page_map.size * 8) && address / page_size == j
          then true
          else locked s j)
  unfolding lock_page
  locked-lock_page j = ground (
    arith,
    get-set v (address / page_size) true j,
    set_done s.page_map (address / page_size) true,
  )

  pub locked-free_page :
      (j : ℕ)
      → locked (free_page s address) j ≡ (if address / page_size == j then false else locked s j)
  unfolding free_page
  locked-free_page j = ground (
    arith,
    get-set v (address / page_size) false j,
    set_done s.page_map (address / page_size) false,
    get-out s.page_map (address / page_size),
  )

  pub bitmap-lock_page : IsValidBitmap (lock_page s address).page_map
  unfolding lock_page
  bitmap-lock_page = ground (arith, set-IsValid v (address / page_size) true)

  pub bitmap-free_page : IsValidBitmap (free_page s address).page_map
  unfolding free_page
  bitmap-free_page = ground (arith, set-IsValid v (address / page_size) false)

module _ (s : Pmm) (address : ℕ) where
  pub size-lock_page : (lock_page s address).page_map.size ≡ s.page_map.size
  unfolding lock_page
  size-lock_page = ground (arith, size-set s.page_map (address / page_size) true)

  pub size-free_page : (free_page s address).page_map.size ≡ s.page_map.size
  unfolding free_page
  size-free_page = ground (arith, size-set s.page_map (address / page_size) false)

  pub total-lock_page : (lock_page s address).total_pages ≡ s.total_pages
  unfolding lock_page
  total-lock_page = ground arith

  pub total-free_page : (free_page s address).total_pages ≡ s.total_pages
  unfolding free_page
  total-free_page = ground arith

  pub cursor-free_page : (free_page s address).first_free_page ≡ s.first_free_page
  unfolding free_page
  cursor-free_page = ground arith

  -- A page that was free goes from the one counter to the other.
  pub lock_page_counters :
      locked s (address / page_size) ≡ false
      → address / page_size < s.page_map.size * 8
      → ((lock_page s address).total_free_pages ≡ sub64 s.total_free_pages 1)
        × ((lock_page s address).total_used_pages ≡ add64 s.total_used_pages 1)
  unfolding lock_page
  lock_page_counters h p = ground (arith, set_done s.page_map (address / page_size) true)

  pub free_page_counters :
      locked s (address / page_size) ≡ true
      → address / page_size < s.page_map.size * 8
      → ((free_page s address).total_free_pages ≡ add64 s.total_free_pages 1)
        × ((free_page s address).total_used_pages ≡ sub64 s.total_used_pages 1)
  unfolding free_page
  free_page_counters h p = ground (arith, set_done s.page_map (address / page_size) false)

  -- Nothing is done to a page that is in the wanted state already.
  pub lock_page-locked : locked s (address / page_size) ≡ true → lock_page s address ≡ s
  unfolding lock_page
  lock_page-locked h = rw h

  pub free_page_free : locked s (address / page_size) ≡ false → free_page s address ≡ s
  unfolding free_page
  free_page_free h = rw h

-- The counters of the state `t` are those of the bits of `t`.
abbrev Counted : Pmm → Type 0
Counted t =
    (t.total_free_pages ≡ free_count (locked t) (t.total_pages + 1))
    × (t.total_used_pages ≡ used_count (locked t) (t.total_pages + 1))

module _ (s : Pmm) (address : ℕ) (v : IsValid s) where
  lock_page-Counted : address / page_size ≤ s.total_pages → Counted (lock_page s address)
  lock_page-Counted h = elim (Bool-cases (locked s (address / page_size))) [
    | inl held ↦ rw (lock_page-locked s address held) (v.free_counted, v.used_counted)
    | inr free ↦
        let moved =
          count-write (locked s) (locked (lock_page s address)) (address / page_size) true
            (s.total_pages + 1)
            (λ j. ground (arith, locked-lock_page s address v.bitmap j, v.covered)) (omega arith)
            free in
        rw (total-lock_page s address) (
          omega (
            arith,
            moved,
            lock_page_counters s address free (omega (arith, v.covered)),
            count_total (locked s) (s.total_pages + 1),
            v.free_counted,
            v.used_counted,
            v.covered,
            v.addressable,
          ))
  ]

  free_page-Counted : Counted (free_page s address)
  free_page-Counted = elim (Bool-cases (locked s (address / page_size))) [
    | inr free ↦ rw (free_page_free s address free) (v.free_counted, v.used_counted)
    | inl held ↦
        let within : address / page_size ≤ s.total_pages =
          ground (arith, v.past_total (address / page_size)) in
        let moved =
          count-write (locked s) (locked (free_page s address)) (address / page_size) false
            (s.total_pages + 1) (λ j. locked-free_page s address v.bitmap j) (omega arith) held in
        rw (total-free_page s address) (
          omega (
            arith,
            moved,
            free_page_counters s address held (omega (arith, v.covered)),
            count_total (locked s) (s.total_pages + 1),
            v.free_counted,
            v.used_counted,
            v.covered,
            v.addressable,
          ))
  ]

  -- Locking a page that is counted keeps the bitmap and both counters in step.
  pub lock_page-IsValid : address / page_size ≤ s.total_pages → IsValid (lock_page s address)
  lock_page-IsValid h = record {
    bitmap = bitmap-lock_page s address v.bitmap;
    covered = omega (arith, v.covered, size-lock_page s address, total-lock_page s address);
    addressable = omega (arith, v.addressable, size-lock_page s address);
    past_total = λ i p.
        ground
          (arith, locked-lock_page s address v.bitmap i, total-lock_page s address, v.past_total i);
    free_counted = (lock_page-Counted h).0;
    used_counted = (lock_page-Counted h).1;
  }

  -- Freeing any address at all keeps the bitmap and both counters in step.
  pub free_page-IsValid : IsValid (free_page s address)
  free_page-IsValid = record {
    bitmap = bitmap-free_page s address v.bitmap;
    covered = omega (arith, v.covered, size-free_page s address, total-free_page s address);
    addressable = omega (arith, v.addressable, size-free_page s address);
    past_total = λ i p.
        ground
          (arith, locked-free_page s address v.bitmap i, total-free_page s address, v.past_total i);
    free_counted = free_page-Counted.0;
    used_counted = free_page-Counted.1;
  }
