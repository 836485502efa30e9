-- ===== src/Descriptors/Tests.antt =====
-- Descriptors at concrete values.
use eterna.Base.{ℕ}
use eterna.Descriptors.{IdtEntry, gdt_entry, TssGdtEntry}

abbrev no_handlers : ℕ → IdtEntry
no_handlers i = record {
  offset₀ = 0;
  selector = 0;
  ist = 0;
  type_attribute = 0;
  offset₁ = 0;
  offset₂ = 0;
  ignore = 0;
}

abbrev tss : TssGdtEntry
tss = record { entry = gdt_entry 0 0xffffffff 0b10001001 0b00100000; base₃ = 0; reserved = 0 }
