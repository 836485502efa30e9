-- ===== src/Pmm.antt =====
-- The physical memory manager, kernel/memory/physical_memory_manager.cc: the page bitmap, its
-- counters, and the requests for one page or a run of pages. Addresses are `uint64_t`.
pub mod Pages
pub mod Runs
pub mod OnePage
pub mod Search
pub mod Sample
mod Tests
use eterna.Base.{
  ℕ, zero, suc, ◌+◌, ◌-◌, ◌*◌, ◌/◌, Bool, true, false, not, leb, ltb, ◌==◌, if◌then◌else◌, add64,
  sub64, mul64,
}
use eterna.Bitmap
use eterna.Bitmap.{Bitmap}

abbrev pub page_size : ℕ
page_size = 4096

-- The globals of the namespace `Memory`.
pub record Pmm : Type 0 where
  pub page_map : Bitmap
  pub total_pages : ℕ
  pub total_free_pages : ℕ
  pub total_used_pages : ℕ
  pub max_free_pages_in_a_row : ℕ
  pub first_free_page : ℕ

-- What a request gives: `granted` an address; `refused` is the `nullptr` of a guard or of the end
-- of the search, `panicked` the `nullptr` that follows a call of `panic`, which returns.
-- `exhausted` would be a search that ran out of rounds.
pub data Request : Type 0 where
  granted : ℕ → Request
  refused panicked exhausted : Request

-- The pointer that the caller sees.
unfoldable pub pointer : Request → ℕ
pointer (granted address) = address
pointer _ = 0

unfoldable pub total_ram : Pmm → ℕ
total_ram s = mul64 s.total_pages page_size

unfoldable pub free_ram : Pmm → ℕ
free_ram s = mul64 s.total_free_pages page_size

unfoldable pub used_ram : Pmm → ℕ
used_ram s = mul64 s.total_used_pages page_size

unfoldable pub lock_page : Pmm → ℕ → Pmm
lock_page s address =
    let index = address / page_size in
    if Bitmap.get s.page_map index
    then s
    else let (written, done) = Bitmap.set s.page_map index true in
      if done
      then record s {
        page_map = written;
        total_free_pages = sub64 s.total_free_pages 1;
        total_used_pages = add64 s.total_used_pages 1;
      }
      else record s { page_map = written }

unfoldable pub free_page : Pmm → ℕ → Pmm
free_page s address =
    let index = address / page_size in
    if not (Bitmap.get s.page_map index)
    then s
    else let (written, done) = Bitmap.set s.page_map index false in
      if done
      then record s {
        page_map = written;
        total_used_pages = sub64 s.total_used_pages 1;
        total_free_pages = add64 s.total_free_pages 1;
      }
      else record s { page_map = written }

-- The loops of `lock_pages` and `free_pages` at index `i`, with `left` rounds to go.
unfoldable pub lock_loop : ℕ → ℕ → ℕ → Pmm → Pmm
lock_loop address i zero s = s
lock_loop address i (suc left) s =
    lock_loop address (i + 1) left (lock_page s (add64 address (mul64 i page_size)))

unfoldable pub lock_pages : Pmm → ℕ → ℕ → Pmm
lock_pages s address number_of_pages = lock_loop address 0 number_of_pages s

unfoldable pub free_loop : ℕ → ℕ → ℕ → Pmm → Pmm
free_loop address i zero s = s
free_loop address i (suc left) s =
    free_loop address (i + 1) left (free_page s (add64 address (mul64 i page_size)))

unfoldable pub free_pages : Pmm → ℕ → ℕ → Pmm
free_pages s address number_of_pages = free_loop address 0 number_of_pages s

-- The loop of `request_page`, with `TotalPages - FirstFreePage` rounds to go.
unfoldable pub request_loop : ℕ → Pmm → Request × Pmm
request_loop zero s = (panicked, s)
request_loop (suc left) s =
    let rest = request_loop left (record s { first_free_page = s.first_free_page + 1 }) in
    if Bitmap.get s.page_map s.first_free_page
    then rest
    else let address = mul64 s.first_free_page page_size in
      let locked = lock_page s address in
      (granted address, record locked { first_free_page = locked.first_free_page + 1 })

unfoldable pub request_page : Pmm → Request × Pmm
request_page s = request_loop (s.total_pages - s.first_free_page) s

-- The inner loop of `request_pages`: how the run of free pages at its start ends.
pub data Scan : Type 0 where
  full past_end out_of_rounds : Scan
  short : ℕ → Scan

unfoldable pub scan_run : Bitmap → ℕ → ℕ → ℕ → ℕ → Scan
scan_run bm wanted zero index run = out_of_rounds
scan_run bm wanted (suc left) index run =
    let rest = scan_run bm wanted left (index + 1) (run + 1) in
    if Bitmap.get bm index
    then short index
    else if leb (Bitmap.length bm) (index + 1)
    then past_end
    else if leb wanted (run + 1)
    then full
    else rest

-- What the outer loop does at the free page `i`, once the inner one has ended; `next` goes on
-- behind the page `index`.
unfoldable pub after_scan : Pmm → ℕ → ℕ → (ℕ → Request × Pmm) → Scan → Request × Pmm
after_scan s wanted i next full =
    let out = mul64 i page_size in (granted out, lock_pages s out wanted)
after_scan s wanted i next past_end = (panicked, s)
after_scan s wanted i next out_of_rounds = (exhausted, s)
after_scan s wanted i next (short index) = next index

-- The outer loop at page `i`. `PageMap.length()` is the number of bytes of the bitmap.
unfoldable pub search : ℕ → Pmm → ℕ → ℕ → Request × Pmm
search zero s wanted i = (exhausted, s)
search (suc left) s wanted i = elim (ltb i (Bitmap.length s.page_map)) [
  | false ↦ (refused, s)
  | true ↦ elim (Bitmap.get s.page_map i) [
    | true ↦ search left s wanted (i + 1)
    | false ↦
        after_scan s wanted i (λ index. search left s wanted (index + 1))
          (scan_run s.page_map wanted (Bitmap.length s.page_map - i) i 0)
  ]
]

unfoldable pub request_pages : Pmm → ℕ → Request × Pmm
request_pages s number_of_pages =
    if number_of_pages == 0
    then (refused, s)
    else if number_of_pages == 1
    then request_page s
    else if ltb s.total_free_pages number_of_pages
    then (refused, s)
    else if ltb s.max_free_pages_in_a_row number_of_pages
    then (refused, s)
    else search (Bitmap.length s.page_map - s.first_free_page + 1) s number_of_pages
        s.first_free_page
