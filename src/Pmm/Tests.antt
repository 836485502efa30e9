-- ===== src/Pmm/Tests.antt =====
-- The physical memory manager at concrete values: ten pages, of which page 3 is held.
use eterna.Base.{ℕ, ◌+◌, ◌≡◌, arith}
use eterna.Bitmap.Laws.{get-init}
use eterna.Pmm.{Pmm, lock_page, lock_pages, free_pages, request_page, request_pages}
use eterna.Pmm.Sample.{fresh, fresh-IsValid}
use eterna.Pmm.Pages.{IsValid, locked, lock_page-IsValid}
use eterna.Pmm.Runs.{free_pages-lock_pages}
use eterna.Pmm.OnePage.{OnePage, request_page-OnePage}
use eterna.Pmm.Search.{Outcome, request_pages-Found}

abbrev three_held : Pmm
three_held = lock_page fresh 0x3000

lock_page-IsValid_example : IsValid (lock_page fresh 0x3000)
lock_page-IsValid_example = lock_page-IsValid fresh 0x3000 fresh-IsValid (omega arith)

-- The same for the tests below.
held-IsValid : IsValid three_held
held-IsValid = lock_page-IsValid fresh 0x3000 fresh-IsValid (omega arith)

request_page-OnePage_example : OnePage three_held (request_page three_held)
request_page-OnePage_example = request_page-OnePage three_held held-IsValid

request_pages-Found_example : Outcome three_held 2 (request_pages three_held 2)
request_pages-Found_example = request_pages-Found three_held 2 (omega arith)

abbrev past_three : Pmm
past_three = record three_held { first_free_page = 5 }

past_three-IsValid : IsValid past_three
past_three-IsValid =
    let v = held-IsValid in
    record {
      bitmap = v.bitmap;
      covered = v.covered;
      addressable = v.addressable;
      past_total = v.past_total;
      free_counted = v.free_counted;
      used_counted = v.used_counted;
    }

free_pages-lock_pages_example :
    let t = free_pages (lock_pages fresh 0x4000 3) 0x4000 3 in
    ((j : ℕ) → locked t j ≡ locked fresh j) × (t.total_free_pages ≡ 11) × (t.total_used_pages ≡ 0)
free_pages-lock_pages_example =
    free_pages-lock_pages fresh 0x4000 3 fresh-IsValid (omega arith) (omega arith)
      (λ k p. get-init 4 0x1000 (4 + k))
