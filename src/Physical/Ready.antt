-- ===== src/Physical/Ready.antt =====
-- What `init_physical` leaves: which pages are free, and counters that count them.
use eterna.Base.{
  ℕ, ◌+◌, ◌*◌, ◌/◌, ◌%◌, ◌<◌, ◌≤◌, ◌^◌, ◌≡◌, not, ◌&&◌, ◌||◌, none, some, ◌⊎◌, List, leb, true,
  false,
}
use eterna.Bitmap
use eterna.Bitmap.{Bitmap}
use eterna.Pmm.{Pmm, page_size}
use eterna.Pmm.Pages.{IsValid, locked}
use eterna.Vmm.{Vmm}
use eterna.Physical.{
  Descriptor, Link, Survey, survey, free_segments, longest_run, kernel_page_count, prepare, reset,
  init_physical, initial_bitmap, counted,
}
use eterna.Physical.Regions.{in_run, usable, Addressable}

-- The pages that the bitmap takes, for `total` pages of memory.
abbrev pub bitmap_pages : ℕ → ℕ
bitmap_pages total = (total / 8 + 1) / page_size + 1

-- The bitmap's counters count its bits, and a page is locked if it is in the bitmap's own pages, in the
-- kernel's, or among the pages of memory but in no conventional segment.
pub record Ready (link : Link) (entries : List Descriptor) (segment total : ℕ) (t : Pmm)
    : Type 0 where
  pub valid : IsValid t
  pub total_pages : t.total_pages ≡ total
  pub bits :
      (j : ℕ)
      → locked t j ≡ (
          in_run segment (bitmap_pages total) j
          || in_run link.kernel_physical (kernel_page_count link) j
          || (leb j total && not (usable entries j)))

-- The bitmap and the kernel lie in memory, and all of it has addresses.
pub record Fits (link : Link) (entries : List Descriptor) (segment total : ℕ) : Type 0 where
  pub segments : Addressable entries
  pub aligned : segment % page_size ≡ 0
  pub addresses : (total / 8 + 1) * 8 * page_size ≤ 2 ^ 64
  pub bitmap : segment / page_size + bitmap_pages total ≤ total + 1
  pub bitmap_end : segment + bitmap_pages total * page_size ≤ 2 ^ 64
  pub kernel : link.kernel_physical / page_size + kernel_page_count link ≤ total + 1
  pub kernel_end : link.kernel_physical + kernel_page_count link * page_size ≤ 2 ^ 64

module _ (link : Link) (entries : List Descriptor) (segment : ℕ) (s : Pmm)
    (fits : Fits link entries segment s.total_pages) where
  abbrev fresh : Pmm
  fresh = reset segment s

  abbrev freed : Pmm
  freed = record (free_segments entries fresh) {
    max_free_pages_in_a_row = longest_run entries fresh.max_free_pages_in_a_row;
  }

-- What the first loop finds in the memory map.
abbrev pub surveyed : List Descriptor → Vmm → Survey
surveyed entries s =
    survey entries (record { segment = 0; page_count = 0; total_pages = s.pmm.total_pages })

-- A page that the small bitmap has free, and that the mapping of memory has taken for a table.
abbrev pub Taken : Link → List Descriptor → Vmm → ℕ → Type 0
Taken link entries s p =
    (locked (initial_bitmap link entries s.pmm) p ≡ false)
    × (locked (prepare link entries s).pmm p ≡ true)

-- No page that the mapping takes is one of those where the large bitmap is put.
abbrev pub TablesApart : Link → List Descriptor → Vmm → Survey → Type 0
TablesApart link entries s found =
    (p : ℕ)
    → Taken link entries (counted found.total_pages s) p
    → in_run found.segment (bitmap_pages found.total_pages) p ≡ false

-- The tables in those pages are as the mapping left them.
abbrev pub TablesKept : Link → List Descriptor → Vmm → Survey → Vmm → Type 0
TablesKept link entries s found u =
    (p i : ℕ)
    → i < 512
    → Taken link entries (counted found.total_pages s) p
    → u.tables (p * page_size) i
      ≡ (prepare link entries (counted found.total_pages s)).tables (p * page_size) i

abbrev Outcome : Link → List Descriptor → Vmm → Survey → Type 0
Outcome link entries s found =
    (((found.segment ≡ 0) ⊎ (found.page_count ≡ 0)) × (init_physical link entries s ≡ none))
    ⊎ ((u : Vmm) × (init_physical link entries s ≡ some u)
        × Ready link entries found.segment found.total_pages u.pmm
        × TablesKept link entries s found u)
