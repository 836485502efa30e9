-- ===== src/Pmm/Sample.antt =====
-- Ten free pages, for the tests.
use eterna.Base.{refl, arith}
use eterna.Bitmap
use eterna.Bitmap.Laws.{init-IsValid, get-init}
use eterna.Bitmap.Count.{count}
use eterna.Pmm.{Pmm}
use eterna.Pmm.Pages.{IsValid}

abbrev pub fresh : Pmm
fresh = record {
  page_map = Bitmap.init 4 0x1000;
  total_pages = 10;
  total_free_pages = 11;
  total_used_pages = 0;
  max_free_pages_in_a_row = 10;
  first_free_page = 0;
}

pub fresh-IsValid : IsValid fresh
unfolding count Bitmap.init Bitmap.get Bitmap.byte_test
fresh-IsValid = record {
  bitmap = init-IsValid 4 0x1000;
  covered = omega arith;
  addressable = omega arith;
  past_total = λ i p. get-init 4 0x1000 i;
  free_counted = refl;
  used_counted = refl;
}

-- The same with the cursor at page 5.
abbrev pub from_five : Pmm
from_five = record fresh { first_free_page = 5 }

pub from_five-IsValid : IsValid from_five
from_five-IsValid =
    let v = fresh-IsValid in
    record {
      bitmap = v.bitmap;
      covered = v.covered;
      addressable = v.addressable;
      past_total = v.past_total;
      free_counted = v.free_counted;
      used_counted = v.used_counted;
    }
