-- ===== src/Physical/Totals.antt =====
-- How many pages there are stays what the memory map gave.
use eterna.Base.{
  ℕ, zero, suc, ◌+◌, ◌-◌, ◌/◌, ◌≡◌, refl, ◌∙◌, List, [], ◌∷◌, arith, min, ◌==◌, Bool-cases, inl,
  inr, add64, mul64,
}
use eterna.Bitmap
use eterna.Pmm.{Pmm, page_size, request_loop, request_page, lock_pages, free_pages}
use eterna.Pmm.Pages.{total-lock_page}
use eterna.Pmm.Runs.{total-lock_pages, total-free_pages}
use eterna.Paging.{page_map_indexer}
use eterna.Vmm.{Vmm, level, map_page, map, active_page_map}
use eterna.Physical.{
  Descriptor, Link, initial_page_bitmap_size, initial_page_bitmap_page_count, free_segments,
  kernel_page_count, map_range, prepare, initial_bitmap,
}

-- Requests, mapping and freeing do not change how many pages there are.
total-request_loop : (left : ℕ) (s : Pmm) → (request_loop left s).1.total_pages ≡ s.total_pages
unfolding request_loop
total-request_loop zero s = refl
total-request_loop (suc left) s =
    let next : Pmm = record s { first_free_page = s.first_free_page + 1 } in
    ground
      (arith, total-request_loop left next, total-lock_page s (mul64 s.first_free_page page_size))

total-request_page : (s : Pmm) → (request_page s).1.total_pages ≡ s.total_pages
unfolding request_page
total-request_page s = total-request_loop (s.total_pages - s.first_free_page) s

abbrev pub pages : Vmm → ℕ
pages s = s.pmm.total_pages

total-level : (s : Vmm) (table index flags : ℕ) → pages (level s table index flags).0 ≡ pages s
unfolding level
total-level s table index flags = ground (arith, total-request_page s.pmm)

total-map :
    (s : Vmm) (page_map virtual physical flags : ℕ)
    → pages (map s page_map virtual physical flags) ≡ pages s
unfolding map map_page
total-map s page_map virtual physical flags =
    let i = page_map_indexer virtual in
    let one = level s page_map i.page_directory_pointer flags in
    let two = level one.0 one.1 i.page_directory flags in
    elim (Bool-cases (page_map == 0)) [
      | inl null ↦ rw null refl
      | inr there ↦ rw there (
          total-level two.0 two.1 i.page_table flags
          ∙ total-level one.0 one.1 i.page_directory flags
          ∙ total-level s page_map i.page_directory_pointer flags)
    ]

total-map_range :
    (left page_map t offset flags : ℕ) (s : Vmm)
    → pages (map_range left page_map t offset flags s) ≡ pages s
unfolding map_range
total-map_range zero page_map t offset flags s = refl
total-map_range (suc left) page_map t offset flags s =
    total-map_range left page_map (add64 t page_size) offset flags
      (map s page_map (add64 t offset) t flags)
    ∙ total-map s page_map (add64 t offset) t flags

total-free_segments :
    (ds : List Descriptor) (s : Pmm) → (free_segments ds s).total_pages ≡ s.total_pages
unfolding free_segments
total-free_segments [] s = refl
total-free_segments (d ∷ ds) s =
    let u = free_pages s d.physical_address d.num_pages in
    ground (
      arith,
      total-free_segments ds s,
      total-free_segments ds u,
      total-free_pages s d.physical_address d.num_pages,
    )

total-active_page_map : (s : Vmm) → pages (active_page_map s).0 ≡ pages s
unfolding active_page_map
total-active_page_map s = ground arith

pub total-initial_bitmap :
    (link : Link) (entries : List Descriptor) (s : Pmm)
    → (initial_bitmap link entries s).total_pages ≡ s.total_pages
unfolding initial_bitmap
total-initial_bitmap link entries s =
    let start = record s {
      page_map = Bitmap.init initial_page_bitmap_size link.initial_page_bitmap;
    } in
    let locked = lock_pages start 0 initial_page_bitmap_page_count in
    let freed = free_segments entries locked in
    total-lock_pages freed link.kernel_physical (kernel_page_count link)
    ∙ total-free_segments entries locked
    ∙ total-lock_pages start 0 initial_page_bitmap_page_count

pub total-prepare :
    (link : Link) (entries : List Descriptor) (s : Vmm) → pages (prepare link entries s) ≡ pages s
unfolding prepare
total-prepare link entries s =
    let guarded = initial_bitmap link entries s.pmm in
    let (s₁, active) = active_page_map (record s { pmm = guarded }) in
    total-map_range
      (min (mul64 guarded.total_pages page_size / page_size) initial_page_bitmap_page_count) active
      0 0 0x103 s₁
    ∙ total-active_page_map (record s { pmm = guarded })
    ∙ total-initial_bitmap link entries s.pmm
