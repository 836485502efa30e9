-- ===== src/Descriptors/Laws.antt =====
-- What is written to a descriptor reads back.
use eterna.Bits.{bit_and_ones, bit_and-zero, zero-bit_or, bit_or-zero, bit_or_fields}
use eterna.Masks.{bit_and_at, bit_or_high}
use eterna.Base.{
  true, ℕ, ◌+◌, ◌-◌, ◌*◌, ◌/◌, ◌%◌, ◌^◌, ◌<◌, bit_and, bit_or, ◌≡◌, ◌≢◌, refl, arith, ◌==◌, u16,
  u32, ◌>>>◌,
}
use eterna.Descriptors
use eterna.Descriptors.{
  IdtEntry, set_offset, get_offset, install_handler, GdtEntry, gdt_entry, TssGdtEntry, tss_base,
  tss_set_base,
}

-- Fields from the lowest up.
three_fields :
    (a b c j k : ℕ)
    → a < 2 ^ j
    → a + b * 2 ^ j < 2 ^ k
    → bit_or (bit_or a (b * 2 ^ j)) (c * 2 ^ k) ≡ a + b * 2 ^ j + c * 2 ^ k
three_fields a b c j k low mid =
    let first : bit_or a (b * 2 ^ j) ≡ a + b * 2 ^ j = omega (arith, bit_or_high j b a low) in
    rw first (omega (arith, bit_or_high k c (a + b * 2 ^ j) mid))

get_offset-set_offset : (e : IdtEntry) (a : ℕ) → a < 2 ^ 64 → get_offset (set_offset e a) ≡ a
unfolding set_offset get_offset
get_offset-set_offset e a fits =
    let low : u16 (bit_and a 0xffff) ≡ a % 65536 = omega (arith, bit_and_ones 16 a) in
    let middle : u16 (bit_and a 0xffff0000 >>> 16) ≡ a / 65536 % 65536 = omega (
      arith,
      bit_and_at 16 (2 ^ 16 - 1) 0 a (omega arith),
      bit_and_ones 16 (a / 2 ^ 16),
      bit_and-zero (a % 2 ^ 16),
    ) in
    let high : u32 (bit_and a 0xffffffff00000000 >>> 32) ≡ a / 4294967296 = omega (
      arith,
      bit_and_at 32 (2 ^ 32 - 1) 0 a (omega arith),
      bit_and_ones 32 (a / 2 ^ 32),
      bit_and-zero (a % 2 ^ 32),
    ) in
    rw
      (
        low,
        middle,
        high,
        zero-bit_or (a % 65536),
        three_fields (a % 65536) (a / 65536 % 65536) (a / 4294967296) 16 32 (omega arith)
            (omega arith),
      )
      (omega arith)

-- The address of a handler reads back, with its attributes, and the other entries of the table stay.
pub get_offset-install_handler :
    (table : ℕ → IdtEntry) (handler vector type_attribute selector : ℕ)
    → handler < 2 ^ 64
    → let t = install_handler table handler vector type_attribute selector in
      (get_offset (t vector) ≡ handler)
      × ((t vector).type_attribute ≡ type_attribute)
      × ((t vector).selector ≡ selector)
      × ((i : ℕ) → i ≢ vector → t i ≡ table i)
unfolding install_handler get_offset
get_offset-install_handler table handler vector type_attribute selector fits =
    let here : (vector == vector) ≡ true = ground arith in
    (
      rw here (get_offset-set_offset (table vector) handler fits),
      rw here refl,
      rw here refl,
      λ i ne. ground (arith, ne),
    )

base_field :
    (b : ℕ)
    → u32 (bit_or (bit_or (b % 65536) (b / 65536 % 256 * 65536)) (b / 16777216 % 256 * 16777216))
      ≡ b % 2 ^ 32
base_field b = omega (
  arith,
  three_fields (b % 65536) (b / 65536 % 256) (b / 16777216 % 256) 16 24 (omega arith) (omega arith),
)

high_nibble : (x : ℕ) → bit_and x 0xf0 ≡ x / 16 % 16 * 16
high_nibble x = omega (
  arith,
  bit_and_at 4 (2 ^ 4 - 1) 0 x (omega arith),
  bit_and_ones 4 (x / 16),
  bit_and-zero (x % 16),
)

-- The byte that the flags share with the limit.
byte_fields :
    (limit flags : ℕ)
    → bit_or (bit_and flags 0xf0) (bit_and (bit_or (bit_and (limit / 65536) 0x0f) 0) 0x0f)
      ≡ flags / 16 % 16 * 16 + limit / 65536 % 16
byte_fields limit flags =
    rw
      (
        high_nibble flags,
        bit_and_ones 4 (limit / 65536),
        bit_or-zero (limit / 65536 % 2 ^ 4),
        bit_and_ones 4 (limit / 65536 % 2 ^ 4),
        bit_or_fields 4 (flags / 16 % 16) (limit / 65536 % 2 ^ 4 % 2 ^ 4) (omega arith),
      )
      (omega arith)

-- A segment descriptor gives back what its constructor was given: the base, the low twenty bits of the
-- limit, the access byte, and the high half of the flags.
pub gdt_entry-fields :
    (base limit access flags : ℕ)
    → base < 2 ^ 32
    → limit < 2 ^ 32
    → access < 2 ^ 8
    → flags < 2 ^ 8
    → let e = gdt_entry base limit access flags in
      (Descriptors.base e ≡ base)
      × (Descriptors.limit e ≡ limit % 2 ^ 20)
      × (Descriptors.access e ≡ access)
      × (Descriptors.flags e ≡ flags / 16 * 16)
unfolding gdt_entry Descriptors.base Descriptors.limit Descriptors.access Descriptors.flags
    Descriptors.set_base Descriptors.set_limit Descriptors.set_access Descriptors.set_flags
gdt_entry-fields base limit access flags b l a f = (
  omega (arith, base_field base),
  rw
      (
        byte_fields limit flags,
        bit_and_ones 4 (flags / 16 % 16 * 16 + limit / 65536 % 16),
        bit_or_high 16 ((flags / 16 % 16 * 16 + limit / 65536 % 16) % 16) (limit % 65536)
            (omega arith),
      )
      (omega arith),
  refl,
  rw (byte_fields limit flags, high_nibble (flags / 16 % 16 * 16 + limit / 65536 % 16))
      (omega arith),
)

-- The task state segment's base is 64 bits over four fields.
pub tss_base-tss_set_base :
    (t : TssGdtEntry) (base : ℕ) → base < 2 ^ 64 → tss_base (tss_set_base t base) ≡ base
unfolding tss_base tss_set_base Descriptors.base Descriptors.set_base
tss_base-tss_set_base t base fits =
    rw
      (
        base_field (base % 4294967296),
        bit_or_high 32 (base / 4294967296 % 4294967296) (base % 4294967296 % 2 ^ 32) (omega arith),
      )
      (omega arith)
