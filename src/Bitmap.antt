-- ===== src/Bitmap.antt =====
-- The class `Bitmap` of kernel/bitmap.cc and include/bitmap.hpp: one bit for each index, the
-- highest bit of a byte first. The bytes that `Buffer` points at are part of the state.
pub mod Byte
pub mod Laws
pub mod Count
mod Tests
use eterna.Base.{
  ℕ, ◌-◌, ◌/◌, ◌%◌, ◌^◌, bit_and, bit_or, Bool, true, false, List, leb, ltb, if◌then◌else◌, get_or,
  set as list_set, replicate,
}

pub record Bitmap : Type 0 where
  pub size : ℕ
  pub base : ℕ
  pub buffer : List ℕ

-- `0b10000000 >> (index % 8)`, from the bit's place in its byte.
unfoldable pub bit_indexer : ℕ → ℕ
bit_indexer k = 128 / 2 ^ k

-- `(byte & bitIndexer) > 0`
unfoldable pub byte_test : ℕ → ℕ → Bool
unfolding bit_indexer
byte_test byte k = ltb 0 (bit_and byte (bit_indexer k))

-- `byte &= ~bitIndexer; if (value) byte |= bitIndexer;` on an 8-bit byte.
unfoldable pub byte_write : ℕ → ℕ → Bool → ℕ
unfolding bit_indexer
byte_write byte k value =
    let cleared = bit_and byte (255 - bit_indexer k) in
    if value then bit_or cleared (bit_indexer k) else cleared

-- The `memset` of `init` clears the bytes whatever they were.
unfoldable pub init : ℕ → ℕ → Bitmap
init size address = record { size = size; base = address; buffer = replicate size 0 }

unfoldable pub length : Bitmap → ℕ
length bm = bm.size

unfoldable pub get : Bitmap → ℕ → Bool
get bm index =
    let byte_index = index / 8 in
    if leb bm.size byte_index then false else byte_test (get_or bm.buffer byte_index 0) (index % 8)

unfoldable pub set : Bitmap → ℕ → Bool → Bitmap × Bool
set bm index value =
    let byte_index = index / 8 in
    if leb bm.size byte_index then (bm, false) else (
      record bm {
        buffer =
            list_set bm.buffer byte_index
              (byte_write (get_or bm.buffer byte_index 0) (index % 8) value);
      },
      true,
    )
