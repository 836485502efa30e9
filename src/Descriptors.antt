-- ===== src/Descriptors.antt =====
-- Descriptors of the processor: interrupt gates (kernel/interrupts/idt.cc, include/interrupts/idt.hpp) and segments
-- (include/arch/x86_64/gdt.hpp).
pub mod Laws
mod Tests
use eterna.Base.{
  ℕ, ◌+◌, ◌*◌, ◌/◌, ◌%◌, ◌^◌, bit_and, bit_or, ◌==◌, if◌then◌else◌, u8, u16, u32, ◌<<<◌, ◌>>>◌,
  Bool, true, false,
}

pub record IdtEntry : Type 0 where
  pub offset₀ : ℕ
  pub selector : ℕ
  pub ist : ℕ
  pub type_attribute : ℕ
  pub offset₁ : ℕ
  pub offset₂ : ℕ
  pub ignore : ℕ

unfoldable pub set_offset : IdtEntry → ℕ → IdtEntry
set_offset e offset = record e {
  offset₀ = u16 (bit_and offset 0x000000000000ffff);
  offset₁ = u16 (bit_and offset 0x00000000ffff0000 >>> 16);
  offset₂ = u32 (bit_and offset 0xffffffff00000000 >>> 32);
}

unfoldable pub get_offset : IdtEntry → ℕ
get_offset e =
    let a = bit_or 0 e.offset₀ in let b = bit_or a (e.offset₁ <<< 16) in bit_or b (e.offset₂ <<< 32)

-- `IDTR::install_handler`: the table is the entries behind `Offset`.
unfoldable pub install_handler : (ℕ → IdtEntry) → ℕ → ℕ → ℕ → ℕ → ℕ → IdtEntry
install_handler table handler_address entry_offset type_attribute selector i =
    if i == entry_offset
    then record (set_offset (table i) handler_address) {
      type_attribute = type_attribute;
      selector = selector;
    }
    else table i

pub record GdtEntry : Type 0 where
  pub limit₀ : ℕ
  pub base₀ : ℕ
  pub base₁ : ℕ
  pub access_byte : ℕ
  pub limit₁_flags : ℕ
  pub base₂ : ℕ

unfoldable pub base : GdtEntry → ℕ
base e = u32 (bit_or (bit_or e.base₀ (e.base₁ <<< 16)) (e.base₂ <<< 24))

unfoldable pub limit : GdtEntry → ℕ
limit e = u32 (bit_or e.limit₀ (bit_and e.limit₁_flags 0xf <<< 16))

unfoldable pub access : GdtEntry → ℕ
access e = e.access_byte

unfoldable pub flags : GdtEntry → ℕ
flags e = bit_and e.limit₁_flags 0xf0

unfoldable pub set_limit : GdtEntry → ℕ → GdtEntry
set_limit e limit =
    let flags = bit_and e.limit₁_flags 0xf0 in
    let nibble = bit_and (limit >>> 16) 0x0f in
    record e { limit₀ = u16 limit; limit₁_flags = bit_or nibble flags }

unfoldable pub set_base : GdtEntry → ℕ → GdtEntry
set_base e base = record e { base₀ = u16 base; base₁ = u8 (base >>> 16); base₂ = u8 (base >>> 24) }

unfoldable pub set_access : GdtEntry → ℕ → GdtEntry
set_access e access = record e { access_byte = access }

unfoldable pub set_flags : GdtEntry → ℕ → GdtEntry
set_flags e flags =
    let limit_nibble = bit_and e.limit₁_flags 0x0f in
    record e { limit₁_flags = bit_or (bit_and flags 0xf0) limit_nibble }

-- The constructor with arguments.
unfoldable pub gdt_entry : ℕ → ℕ → ℕ → ℕ → GdtEntry
gdt_entry base limit access flags =
    let blank : GdtEntry = record {
      limit₀ = 0;
      base₀ = 0;
      base₁ = 0;
      access_byte = 0;
      limit₁_flags = 0;
      base₂ = 0;
    } in
    set_flags (set_access (set_limit (set_base blank base) limit) access) flags

-- The task state segment's entry has a base of 64 bits.
pub record TssGdtEntry : Type 0 where
  pub entry : GdtEntry
  pub base₃ : ℕ
  pub reserved : ℕ

unfoldable pub tss_base : TssGdtEntry → ℕ
tss_base t = bit_or (base t.entry) (t.base₃ <<< 32)

unfoldable pub tss_set_base : TssGdtEntry → ℕ → TssGdtEntry
tss_set_base t base = record t { entry = set_base t.entry (u32 base); base₃ = u32 (base >>> 32) }
