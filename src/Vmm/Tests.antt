-- ===== src/Vmm/Tests.antt =====
-- Page tables at concrete values: a page map at 0x9000, tables on the pages 5 to 7.
use eterna.Base.{ℕ, ◌+◌, ◌*◌, ◌/◌, ◌%◌, ◌^◌, ◌≡◌, refl, arith, some, none, inr, ◌==◌, if◌then◌else◌}
use eterna.Bitmap
use eterna.Paging
use eterna.Pmm
use eterna.Pmm.{page_size}
use eterna.Pmm.Sample.{from_five, from_five-IsValid}
use eterna.Paging.{
  present, read_write, user_super, write_through, cache_disabled, accessed, dirty, larger_pages,
  global, nx, flag, address, page_map_indexer,
}
use eterna.Vmm.{Vmm, map, unmap, translate, level, set_flags, write_entry, zero_table, next_table}
use eterna.Vmm.Flags.{flag-set_flags}
use eterna.Vmm.Level.{Fine}
use eterna.Vmm.Map.{first_level, second_level, third_level, Distinct, translate-map}
use eterna.Vmm.Unmap.{translate-unmap, translate_other-unmap}

abbrev empty : Vmm
empty = record { tables = λ t i. 0; pmm = from_five; active_page_map = 0x9000; cr3 = 0x9000 }

empty-Fine : Fine empty
empty-Fine = record {
  words = λ t i. omega arith;
  pages = from_five-IsValid;
  low_pages = omega arith;
}

steps :
    ((first_level empty 0x9000 0x40201000 3).1 ≡ 0x5000)
    × ((second_level empty 0x9000 0x40201000 3).1 ≡ 0x6000)
    × ((third_level empty 0x9000 0x40201000 3).1 ≡ 0x7000)
unfolding level Paging.address set_flags Paging.set_flag Paging.flag Paging.selector
    Paging.set_address Pmm.pointer Pmm.request_page Pmm.request_loop Bitmap.get Bitmap.init
    Bitmap.byte_test Bitmap.byte_write Bitmap.bit_indexer Bitmap.set write_entry zero_table
    Pmm.lock_page page_map_indexer
steps = (refl, refl, refl)

steps-Distinct :
    Distinct 0x9000
      (first_level empty 0x9000 0x40201000 3).1
      (second_level empty 0x9000 0x40201000 3).1
      (third_level empty 0x9000 0x40201000 3).1
steps-Distinct = record {
  ab = λ e. omega (arith, e, steps.0);
  ac = λ e. omega (arith, e, steps.1);
  ad = λ e. omega (arith, e, steps.2);
  bc = λ e. omega (arith, e, steps.0, steps.1);
  bd = λ e. omega (arith, e, steps.0, steps.2);
  cd = λ e. omega (arith, e, steps.1, steps.2);
}

translate-map_example :
    translate (map empty 0x9000 0x40201000 0x123456 3).tables 0x9000 0x40201000
    ≡ some (0x123456 / 4096 % 2 ^ 40 * 4096 + 0x40201000 % page_size)
unfolding Paging.flag Paging.selector
translate-map_example =
    translate-map empty 0x9000 0x40201000 0x123456 3 empty-Fine refl refl (omega arith)
      steps-Distinct

-- Tables at 0x1000 to 0x4000, one behind the other, with every entry of each present.
abbrev chained : ℕ → ℕ → ℕ
chained t i =
    if t == 0x1000
    then 0x2003
    else if t == 0x2000
    then 0x3003
    else if t == 0x3000
    then 0x4003
    else 0x5003

abbrev mapped : Vmm
mapped = record { tables = chained; pmm = from_five; active_page_map = 0x1000; cr3 = 0x1000 }

translate-unmap_example : translate (unmap mapped 0x1000 0x40201000).tables 0x1000 0x40201000 ≡ none
unfolding next_table Paging.address Paging.flag Paging.selector page_map_indexer
translate-unmap_example =
    translate-unmap mapped 0x1000 0x40201000 (λ t i. ground arith) (omega arith) (omega arith)
      (omega arith) refl refl

translate_other-unmap_example :
    translate (unmap mapped 0x1000 0x40201000).tables 0x1000 0x40202000
    ≡ translate chained 0x1000 0x40202000
unfolding next_table Paging.address page_map_indexer
translate_other-unmap_example =
    translate_other-unmap mapped 0x1000 0x40201000 0x40202000 (omega arith) (omega arith)
      (omega arith) (inr (omega arith))

-- A request for `Present`, `ReadWrite` and `Global`, as the kernel makes it, does not set `Global`.
flag-set_flags_example :
    let v = set_flags 0x5000 0x103 in
    (flag v present ≡ flag 0x103 present)
    × (flag v read_write ≡ flag 0x103 read_write)
    × (flag v user_super ≡ flag 0x103 user_super)
    × (flag v write_through ≡ flag 0x103 write_through)
    × (flag v cache_disabled ≡ flag 0x103 cache_disabled)
    × (flag v accessed ≡ flag 0x103 accessed)
    × (flag v dirty ≡ flag 0x103 dirty)
    × (flag v larger_pages ≡ flag 0x103 larger_pages)
    × (flag v global ≡ flag 0x103 nx)
    × (flag v nx ≡ flag 0x5000 nx)
    × (address v ≡ address 0x5000)
flag-set_flags_example = flag-set_flags 0x5000 0x103 (omega arith)
