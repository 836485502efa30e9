-- ===== src/Paging.antt =====
-- Page tables, include/memory/paging.hpp: the bits of an entry and the indices of an address.
pub mod Fields
pub mod Entry
mod Tests
use eterna.Base.{
  ℕ, ◌+◌, ◌-◌, ◌^◌, bit_and, bit_or, Bool, true, false, ltb, if◌then◌else◌, ◌<<<◌, ◌>>>◌,
}

pub data PageTableFlag : Type 0 where
  present read_write user_super write_through cache_disabled accessed dirty larger_pages global nx :
      PageTableFlag

unfoldable pub selector : PageTableFlag → ℕ
selector present = 1
selector read_write = 2
selector user_super = 4
selector write_through = 8
selector cache_disabled = 16
selector accessed = 32
selector dirty = 64
selector larger_pages = 128
selector global = 256
selector nx = 0x8000000000000000

pub record PageMapIndexer : Type 0 where
  pub page_directory_pointer : ℕ
  pub page_directory : ℕ
  pub page_table : ℕ
  pub page : ℕ

-- The constructor: twelve bits are dropped, then nine for each index.
unfoldable pub page_map_indexer : ℕ → PageMapIndexer
page_map_indexer virtual_address =
    let a = virtual_address >>> 12 in
    let b = a >>> 9 in
    let c = b >>> 9 in
    let d = c >>> 9 in
    record {
      page_directory_pointer = bit_and d 0x1ff;
      page_directory = bit_and c 0x1ff;
      page_table = bit_and b 0x1ff;
      page = bit_and a 0x1ff;
    }

-- The methods of `PageDirectoryEntry`, on its `Value`.
unfoldable pub address : ℕ → ℕ
address value = bit_and value 0x000ffffffffff000 >>> 12

unfoldable pub set_address : ℕ → ℕ → ℕ
set_address value addr =
    bit_or (bit_and value 0xfff0000000000fff) (bit_and addr 0x000000ffffffffff <<< 12)

unfoldable pub flag : ℕ → PageTableFlag → Bool
flag value f = ltb 0 (bit_and value (selector f))

unfoldable pub set_flag : ℕ → PageTableFlag → Bool → ℕ
set_flag value f enabled =
    let cleared = bit_and value (2 ^ 64 - 1 - selector f) in
    if enabled then bit_or cleared (selector f) else cleared
