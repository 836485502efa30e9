-- ===== src/Physical/Reset.antt =====
-- The bitmap of all pages as `init_physical` sets it up: every page is locked, and the counters count them.
use eterna.Base.{
  ℕ, zero, suc, ◌+◌, ◌*◌, ◌/◌, ◌≤◌, ◌^◌, ◌≡◌, refl, sym, subst, ap, ◌∙◌, Bool, false, arith, leb,
  add64, mul64,
}
use eterna.Bitmap
use eterna.Bitmap.Laws.{init-IsValid, get-init}
use eterna.Bitmap.Count.{count, free_count, count_total}
use eterna.Pmm.{Pmm, page_size, lock_page, lock_loop, lock_pages, free_page, free_loop, free_pages}
use eterna.Pmm.Pages.{IsValid, locked}
use eterna.Pmm.Runs.{lock_pages-IsValid, locked-lock_pages, lock_pages_counters, total-lock_pages}
use eterna.Physical.{reset}

-- Locking and freeing leave the bitmap where it is.
abbrev pub SamePlace : Pmm → Pmm → Type 0
SamePlace s t = (t.page_map.base ≡ s.page_map.base) × (t.page_map.size ≡ s.page_map.size)

lock_page-SamePlace : (s : Pmm) (address : ℕ) → SamePlace s (lock_page s address)
unfolding lock_page Bitmap.set
lock_page-SamePlace s address = (ground arith, ground arith)

free_page-SamePlace : (s : Pmm) (address : ℕ) → SamePlace s (free_page s address)
unfolding free_page Bitmap.set
free_page-SamePlace s address = (ground arith, ground arith)

SamePlace-trans : (s t u : Pmm) → SamePlace s t → SamePlace t u → SamePlace s u
SamePlace-trans s t u (b, n) (b', n') = (b' ∙ b, n' ∙ n)

lock_loop-SamePlace : (address i left : ℕ) (s : Pmm) → SamePlace s (lock_loop address i left s)
unfolding lock_loop
lock_loop-SamePlace address i zero s = (refl, refl)
lock_loop-SamePlace address i (suc left) s =
    let t = lock_page s (add64 address (mul64 i page_size)) in
    SamePlace-trans s t (lock_loop address (i + 1) left t)
      (lock_page-SamePlace s (add64 address (mul64 i page_size)))
      (lock_loop-SamePlace address (i + 1) left t)

free_loop-SamePlace : (address i left : ℕ) (s : Pmm) → SamePlace s (free_loop address i left s)
unfolding free_loop
free_loop-SamePlace address i zero s = (refl, refl)
free_loop-SamePlace address i (suc left) s =
    let t = free_page s (add64 address (mul64 i page_size)) in
    SamePlace-trans s t (free_loop address (i + 1) left t)
      (free_page-SamePlace s (add64 address (mul64 i page_size)))
      (free_loop-SamePlace address (i + 1) left t)

pub page_map-lock_pages : (s : Pmm) (address n : ℕ) → SamePlace s (lock_pages s address n)
unfolding lock_pages
page_map-lock_pages s address n = lock_loop-SamePlace address 0 n s

pub page_map-free_pages : (s : Pmm) (address n : ℕ) → SamePlace s (free_pages s address n)
unfolding free_pages
page_map-free_pages s address n = free_loop-SamePlace address 0 n s

-- What the counter of free pages is at the start makes no difference to the rest of the state.
lock_page_free_counter :
    (x y : ℕ) (s : Pmm) (address : ℕ)
    → record (lock_page s address) { total_free_pages = x }
      ≡ record (lock_page (record s { total_free_pages = y }) address) { total_free_pages = x }
unfolding lock_page
lock_page_free_counter x y s address = ground arith

lock_loop_free_counter :
    (x y address i left : ℕ) (s : Pmm)
    → record (lock_loop address i left s) { total_free_pages = x }
      ≡ record (lock_loop address i left (record s { total_free_pages = y })) {
        total_free_pages = x;
      }
unfolding lock_loop
lock_loop_free_counter x y address i zero s = refl
lock_loop_free_counter x y address i (suc left) s =
    let here = add64 address (mul64 i page_size) in
    let t = lock_page (record s { total_free_pages = y }) here in
    lock_loop_free_counter x t.total_free_pages address (i + 1) left (lock_page s here)
    ∙ ap (λ (u : Pmm). record (lock_loop address (i + 1) left u) { total_free_pages = x })
        (lock_page_free_counter t.total_free_pages y s here)

free_count_none : (f : ℕ → Bool) (n : ℕ) → ((j : ℕ) → f j ≡ false) → free_count f n ≡ n
unfolding count
free_count_none f zero none = refl
free_count_none f (suc n) none = ground (arith, none n, free_count_none f n none)

module _ (s : Pmm) (segment : ℕ) (fits : (s.total_pages / 8 + 1) * 8 * page_size ≤ 2 ^ 64) where
  -- The cleared bitmap with counters that fit it.
  abbrev cleared : Pmm
  cleared = record s {
    page_map = Bitmap.init (s.total_pages / 8 + 1) segment;
    total_used_pages = 0;
    total_free_pages = s.total_pages + 1;
  }

  all_clear : (j : ℕ) → locked cleared j ≡ false
  all_clear j = get-init (s.total_pages / 8 + 1) segment j

  size_cleared : cleared.page_map.size ≡ s.total_pages / 8 + 1
  unfolding Bitmap.init
  size_cleared = refl

  cleared-IsValid : IsValid cleared
  cleared-IsValid =
      let free = free_count_none (locked cleared) (s.total_pages + 1) all_clear in
      record {
        bitmap = init-IsValid (s.total_pages / 8 + 1) segment;
        covered = omega (arith, size_cleared);
        addressable = omega (arith, size_cleared, fits);
        past_total = λ i p. all_clear i;
        free_counted = sym free;
        used_counted = omega (arith, free, count_total (locked cleared) (s.total_pages + 1));
      }

  abbrev all_locked : Pmm
  all_locked = lock_pages cleared 0 (s.total_pages + 1)

  none_free : all_locked.total_free_pages ≡ 0
  none_free =
      let (counted, _) =
        lock_pages_counters cleared 0 (s.total_pages + 1) cleared-IsValid (omega arith)
          (omega (arith, fits)) (λ k lt. all_clear (0 / page_size + k)) in
      omega (arith, counted)

  reset_lem : reset segment s ≡ all_locked
  unfolding reset lock_pages
  reset_lem =
      let counted : add64 s.total_pages 1 ≡ s.total_pages + 1 = omega (arith, fits) in
      rw counted (
        lock_loop_free_counter 0 (s.total_pages + 1) 0 0 (s.total_pages + 1) _
        ∙ ap (λ (x : ℕ). record all_locked { total_free_pages = x }) (sym none_free))

  pub reset-IsValid : IsValid (reset segment s)
  reset-IsValid =
      subst IsValid (sym reset_lem)
        (lock_pages-IsValid cleared 0 (s.total_pages + 1) cleared-IsValid (omega arith))

  pub locked-reset : (j : ℕ) → locked (reset segment s) j ≡ leb j s.total_pages
  locked-reset j =
      let all =
        locked-lock_pages cleared 0 (s.total_pages + 1) cleared-IsValid.bitmap (omega (arith, fits))
          j in
      ap (λ (t : Pmm). locked t j) reset_lem ∙ ground (arith, all, all_clear j, size_cleared)

  pub total-reset : (reset segment s).total_pages ≡ s.total_pages
  total-reset =
      ap (λ (t : Pmm). t.total_pages) reset_lem ∙ total-lock_pages cleared 0 (s.total_pages + 1)

  -- Where the bitmap lies, and how long it is.
  pub page_map-reset :
      ((reset segment s).page_map.base ≡ segment)
      × ((reset segment s).page_map.size ≡ s.total_pages / 8 + 1)
  unfolding Bitmap.init
  page_map-reset =
      let (base, size) = page_map-lock_pages cleared 0 (s.total_pages + 1) in
      (
        ap (λ (t : Pmm). t.page_map.base) reset_lem ∙ base,
        ap (λ (t : Pmm). t.page_map.size) reset_lem ∙ size,
      )
