-- ===== src/Physical.antt =====
-- Setting up memory: `init_physical` of kernel/memory/physical_memory_manager.cc, `init_virtual` of
-- kernel/memory/virtual_memory_manager.cc, and the sums of kernel/memory/efi_memory.cc. The memory map is a list of descriptors;
-- the addresses of the kernel come from the linker and are arguments.
pub mod Reset
pub mod Regions
pub mod Totals
pub mod Ready
mod Tests
use eterna.Base.{
  ℕ, zero, suc, ◌+◌, ◌-◌, ◌*◌, ◌/◌, ◌%◌, ◌^◌, ◌≤◌, leb, Bool, true, false, ◌&&◌, Option, none, some,
  List, [], ◌∷◌, ltb, ◌==◌, if◌then◌else◌, min, add64, sub64, mul64, get_or, set, replicate,
}
use eterna.Bitmap
use eterna.Bitmap.{Bitmap}
use eterna.Pmm.{Pmm, page_size, total_ram, pointer, request_page, lock_pages, free_pages}
use eterna.Vmm.{Vmm, map, unmap, flush_page_map, active_page_map}

-- EFI_MEMORY_DESCRIPTOR, less what the kernel does not read.
pub record Descriptor : Type 0 where
  pub kind : ℕ
  pub physical_address : ℕ
  pub num_pages : ℕ

-- Addresses that the linker gives, and that of the array `InitialPageBitmap`.
pub record Link : Type 0 where
  pub kernel_physical : ℕ
  pub kernel_virtual : ℕ
  pub kernel_start : ℕ
  pub kernel_end : ℕ
  pub initial_page_bitmap : ℕ

abbrev pub conventional : ℕ
conventional = 7

abbrev pub initial_page_bitmap_max_address : ℕ
initial_page_bitmap_max_address = 64 * 1024 * 1024

abbrev pub initial_page_bitmap_page_count : ℕ
initial_page_bitmap_page_count = initial_page_bitmap_max_address / page_size

abbrev pub initial_page_bitmap_size : ℕ
initial_page_bitmap_size = initial_page_bitmap_page_count / 8

-- The first loop over the memory map: the largest free segment so far, its pages, and `TotalPages`.
pub record Survey : Type 0 where
  pub segment : ℕ
  pub page_count : ℕ
  pub total_pages : ℕ

unfoldable pub survey : List Descriptor → Survey → Survey
survey [] s = s
survey (d ∷ ds) s =
    let counted = record s { total_pages = add64 s.total_pages d.num_pages } in
    let larger = record counted { segment = d.physical_address; page_count = d.num_pages } in
    survey ds (
      if d.kind == conventional
        && ltb s.page_count d.num_pages
        && ltb (add64 d.physical_address d.num_pages) initial_page_bitmap_max_address
      then larger
      else counted)

-- The loops that free the conventional segments; the second also keeps the longest run.
unfoldable pub free_segments : List Descriptor → Pmm → Pmm
free_segments [] s = s
free_segments (d ∷ ds) s =
    free_segments ds
      (if d.kind == conventional then free_pages s d.physical_address d.num_pages else s)

unfoldable pub longest_run : List Descriptor → ℕ → ℕ
longest_run [] longest = longest
longest_run (d ∷ ds) longest =
    longest_run ds
      (if d.kind == conventional && ltb longest d.num_pages then d.num_pages else longest)

unfoldable pub kernel_page_count : Link → ℕ
kernel_page_count link = sub64 link.kernel_end link.kernel_start / page_size

-- Pages mapped one behind the other, `offset` above their physical addresses.
unfoldable pub map_range : ℕ → ℕ → ℕ → ℕ → ℕ → Vmm → Vmm
map_range zero page_map t offset flags s = s
map_range (suc left) page_map t offset flags s =
    map_range left page_map (add64 t page_size) offset flags
      (map s page_map (add64 t offset) t flags)

-- The first part: the small bitmap, in which the conventional segments are free but for the kernel.
unfoldable pub initial_bitmap : Link → List Descriptor → Pmm → Pmm
initial_bitmap link entries s =
    let locked =
      lock_pages
        (record s { page_map = Bitmap.init initial_page_bitmap_size link.initial_page_bitmap }) 0
        initial_page_bitmap_page_count in
    let freed = free_segments entries locked in
    lock_pages freed link.kernel_physical (kernel_page_count link)

-- The mapping of what the small bitmap covers in the active page map, which takes pages for its tables from it.
unfoldable pub prepare : Link → List Descriptor → Vmm → Vmm
prepare link entries s =
    let guarded = initial_bitmap link entries s.pmm in
    let (s₁, active) = active_page_map (record s { pmm = guarded }) in
    map_range (min (mul64 guarded.total_pages page_size / page_size) initial_page_bitmap_page_count)
      active 0 0 0x103 s₁

-- The second part: the bitmap of all pages, in the segment that was found.
unfoldable pub reset : ℕ → Pmm → Pmm
reset segment s =
    let fresh = record s {
      page_map = Bitmap.init (s.total_pages / 8 + 1) segment;
      total_used_pages = 0;
    } in
    record (lock_pages fresh 0 (add64 s.total_pages 1)) { total_free_pages = 0 }

unfoldable pub release : Link → List Descriptor → Pmm → Pmm
release link entries s =
    let freed = record (free_segments entries s) {
      max_free_pages_in_a_row = longest_run entries s.max_free_pages_in_a_row;
    } in
    let kept =
      lock_pages freed freed.page_map.base (Bitmap.length freed.page_map / page_size + 1) in
    lock_pages kept link.kernel_physical (kernel_page_count link)

-- The eight bytes of a word, the lowest first.
unfoldable pub word_from : ℕ → (ℕ → ℕ) → ℕ
word_from zero byte = 0
word_from (suc k) byte = word_from k byte + byte k * 2 ^ (8 * k)

-- The bitmap's bytes are in memory, in place of the bytes of a table that lies there.
unfoldable pub under_bitmap : Bitmap → (ℕ → ℕ → ℕ) → ℕ → ℕ → ℕ
under_bitmap bitmap tables t i =
    let at = t + 8 * i in
    let byte : ℕ → ℕ = λ k.
      if leb bitmap.base (at + k) && ltb (at + k) (bitmap.base + bitmap.size)
      then get_or bitmap.buffer (at + k - bitmap.base) 0
      else tables t i / 2 ^ (8 * k) % 256 in
    if ltb bitmap.base (at + 8) && ltb at (bitmap.base + bitmap.size)
    then word_from 8 byte
    else tables t i

-- The state before and behind `prepare`, with `TotalPages` counted.
unfoldable pub counted : ℕ → Vmm → Vmm
counted total s = record s { pmm = record s.pmm { total_pages = total } }

-- `none` is the endless loop where no segment was found.
unfoldable pub init_physical : Link → List Descriptor → Vmm → Option Vmm
init_physical link entries s =
    let found =
      survey entries (record { segment = 0; page_count = 0; total_pages = s.pmm.total_pages }) in
    let prepared = prepare link entries (counted found.total_pages s) in
    let pmm = release link entries (reset found.segment prepared.pmm) in
    if found.segment == 0
    then none
    else if found.page_count == 0
    then none
    else some (record prepared { pmm = pmm; tables = under_bitmap pmm.page_map prepared.tables })

-- `init_virtual` of a page map: physical memory one to one, then the kernel. The call `unmap(nullptr)` is of
-- address 0 in the active page map.
unfoldable pub init_virtual : Link → Vmm → ℕ → Vmm
init_virtual link s page_map =
    let one_to_one = map_range (total_ram s.pmm / page_size) page_map 0 0 0x3 s in
    let kernel_bytes_needed = add64 1 (sub64 link.kernel_end link.kernel_start) in
    let kernel =
      map_range ((kernel_bytes_needed + page_size + (page_size - 1)) / page_size) page_map
        link.kernel_physical link.kernel_virtual 0x103 one_to_one in
    flush_page_map (unmap kernel kernel.active_page_map 0) page_map

unfoldable pub init_virtual_memory : Link → Vmm → Vmm
init_virtual_memory link s =
    let (request, pmm) = request_page s.pmm in
    init_virtual link (record s { pmm = pmm }) (pointer request)

-- The sums of `print_efi_memory_map_summed`, one for each of the fourteen types.
unfoldable pub type_page_sums : List Descriptor → List ℕ → List ℕ
type_page_sums [] sums = sums
type_page_sums (d ∷ ds) sums =
    type_page_sums ds
      (if ltb d.kind 14 then set sums d.kind (add64 (get_or sums d.kind 0) d.num_pages) else sums)
