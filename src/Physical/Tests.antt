-- ===== src/Physical/Tests.antt =====
-- Setting up sixteen pages of memory: a reserved one, nine conventional ones, and six reserved ones, which have the
-- kernel and the page tables of the firmware.
use eterna.Base.{◌++◌, ◌≡◌, refl, List, [], ◌∷◌, replicate, ℕ, ◌==◌, if◌then◌else◌}
use eterna.Pmm.{Pmm}
use eterna.Pmm.Sample.{fresh}
use eterna.Paging
use eterna.Vmm.{Vmm, active_page_map}
use eterna.Physical.{Descriptor, Link, Survey, conventional, type_page_sums}
use eterna.Physical.Ready.{Ready}

abbrev entries : List Descriptor
entries =
    record { kind = 0; physical_address = 0; num_pages = 1 }
    ∷ record { kind = conventional; physical_address = 0x1000; num_pages = 9 }
    ∷ record { kind = 0; physical_address = 0xa000; num_pages = 6 }
    ∷ []

abbrev link : Link
link = record {
  kernel_physical = 0xe000;
  kernel_virtual = 0xffffffff80000000;
  kernel_start = 0xffffffff8000e000;
  kernel_end = 0xffffffff8000f000;
  initial_page_bitmap = 0xf000;
}

-- Four tables behind each other, whose first entries are present.
abbrev firmware : ℕ → ℕ → ℕ
firmware t i =
    if i == 0
    then if t == 0xa000
      then 0xb003
      else if t == 0xb000
      then 0xc003
      else if t == 0xc000
      then 0xd003
      else 0
    else 0

abbrev machine : Vmm
machine = record {
  tables = firmware;
  pmm = record fresh { total_pages = 0 };
  active_page_map = 0;
  cr3 = 0xa000;
}

abbrev found : Survey
found = record { segment = 0x1000; page_count = 9; total_pages = 16 }

sums : type_page_sums entries (replicate 14 0) ≡ 7 ∷ replicate 6 0 ++ 9 ∷ replicate 6 0
unfolding type_page_sums
sums = refl
