-- ===== src/Stage1/Tests.antt =====
-- The boot stage's interrupts at concrete values.
use eterna.Base.{ℕ, ◌+◌, ◌≡◌, refl, arith, true, false, ◌==◌, if◌then◌else◌}
use eterna.Interrupts.Pic.{Controller, masks, mode_word, chips_after, ready_chip}
use eterna.Stage1.{Handlers, prepare_interrupts}
use eterna.Stage1.Vectors.{Addresses, gate, gate_at, prepare_interrupts-gate_at}

abbrev test_handlers : Handlers
test_handlers = record {
  uart_com1_handler = 0xffffffff80101000;
  divide_by_zero_handler = 0xffffffff80101100;
  double_fault_handler = 0xffffffff80101200;
  stack_segment_fault_handler = 0xffffffff80101300;
  general_protection_fault_handler = 0xffffffff80101400;
  page_fault_handler = 0xffffffff80101500;
  simd_exception_handler = 0xffffffff80101600;
}

test_handlers-Addresses : Addresses test_handlers
test_handlers-Addresses = record {
  uart = omega arith;
  divide = omega arith;
  double = omega arith;
  stack = omega arith;
  protection = omega arith;
  page = omega arith;
  simd = omega arith;
}

-- One chip as the firmware left it, and one in the middle of an initialisation.
abbrev test_first : Controller
test_first = record {
  expects = masks;
  single = false;
  has_mode = true;
  vector = 8;
  cascade = 4;
  mode = 1;
  mask = 0xa8;
}

abbrev test_second : Controller
test_second = record test_first { expects = mode_word; vector = 0x70; mask = 0x8e }

abbrev test_in8 : ℕ → ℕ
test_in8 port = if port == 0x21 then 0xa8 else 0x8e

prepare_interrupts-gate_at_example :
    let (writes, table, register) = prepare_interrupts test_in8 test_handlers 0x4000 in
    let (first, second) = chips_after writes (test_first, test_second) in
    (first ≡ ready_chip 0x20 4 0xa8)
    × (second ≡ ready_chip 0x28 2 0x8e)
    × ((i : ℕ) → gate (table i) ≡ gate_at test_handlers i)
    × (gate (table (first.vector + 4)) ≡ (0xffffffff80101000, 0x8e, 0x08))
    × (register ≡ record { limit = 0x0fff; offset = 0x4000 })
prepare_interrupts-gate_at_example =
    prepare_interrupts-gate_at test_in8 test_handlers test_first test_second 0x4000
      test_handlers-Addresses refl refl
