-- ===== src/Paging/Tests.antt =====
-- Entries and addresses at concrete values.
use eterna.Base.{◌%◌, ◌^◌, ◌≡◌, true, arith}
use eterna.Paging
use eterna.Paging.{PageTableFlag, global, page_map_indexer}
use eterna.Paging.Entry.{address-set_address, flag-set_flag}

address-set_address_example :
    (Paging.address (Paging.set_address 0x8000000000001103 0x1234) ≡ 0x1234 % 2 ^ 40)
    × ((f : PageTableFlag)
        → Paging.flag (Paging.set_address 0x8000000000001103 0x1234) f
          ≡ Paging.flag 0x8000000000001103 f)
address-set_address_example = address-set_address 0x8000000000001103 (omega arith) 0x1234

flag-set_flag_example :
    (Paging.flag (Paging.set_flag 0x1003 global true) global ≡ true)
    × (Paging.address (Paging.set_flag 0x1003 global true) ≡ Paging.address 0x1003)
flag-set_flag_example = flag-set_flag 0x1003 (omega arith) global true
