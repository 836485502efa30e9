-- ===== src/Interrupts/Faults.antt =====
-- What the fault handlers read from an error code.
use eterna.Bits.{bit_and_ones, bit_and-zero}
use eterna.Masks.{bit_and_at}
use eterna.Base.{
  ℕ, ◌+◌, ◌-◌, ◌*◌, ◌/◌, ◌%◌, ◌^◌, ◌<◌, bit_and, ◌≡◌, refl, arith, Bool, true, false, if◌then◌else◌,
  ◌>>>◌,
}
use eterna.Interrupts.{
  Process, user, supervisor, Attempt, write, read, Cause, not_present, protection_fault, page_fault,
  DescriptorTable, gdt, idt, ldt, selector_error,
}

-- The error code that the processor pushes.
abbrev pub process_bit : Process → ℕ
process_bit user = 4
process_bit supervisor = 0

abbrev pub attempt_bit : Attempt → ℕ
attempt_bit write = 2
attempt_bit read = 0

abbrev pub cause_bit : Cause → ℕ
cause_bit protection_fault = 1
cause_bit not_present = 0

bit_zero : (x : ℕ) → bit_and x 1 ≡ x % 2
bit_zero x = bit_and_ones 1 x

bit_one : (x : ℕ) → bit_and x 2 ≡ x / 2 % 2 * 2
bit_one x =
    omega (arith, bit_and_at 1 1 0 x (omega arith), bit_and_ones 1 (x / 2), bit_and-zero (x % 2))

bit_two : (x : ℕ) → bit_and x 4 ≡ x / 4 % 2 * 4
bit_two x =
    omega (arith, bit_and_at 2 1 0 x (omega arith), bit_and_ones 1 (x / 4), bit_and-zero (x % 4))

low_bits :
    (rest n : ℕ)
    → n < 8
    → (bit_and (rest * 8 + n) 1 ≡ n % 2)
      × (bit_and (rest * 8 + n) 2 ≡ n / 2 % 2 * 2)
      × (bit_and (rest * 8 + n) 4 ≡ n / 4 % 2 * 4)
low_bits rest n small =
    let e = rest * 8 + n in
    (omega (arith, bit_zero e), omega (arith, bit_one e), omega (arith, bit_two e))

-- The low three bits decide.
fault_low : (rest n : ℕ) → n < 8 → page_fault (rest * 8 + n) ≡ page_fault n
unfolding page_fault
fault_low rest n small =
    let (a, b, c) = low_bits rest n small in
    let (a', b', c') = low_bits 0 n small in rw (a, b, c) (ground (arith, a', b', c'))

-- The handler's message names what the error code was made of, whatever its other bits are.
pub page_fault-code :
    (p : Process) (a : Attempt) (c : Cause) (rest : ℕ)
    → page_fault (rest * 8 + (process_bit p + attempt_bit a + cause_bit c)) ≡ (p, a, c)
unfolding page_fault
page_fault-code user write not_present rest = fault_low rest 6 (omega arith)
page_fault-code user write protection_fault rest = fault_low rest 7 (omega arith)
page_fault-code user read not_present rest = fault_low rest 4 (omega arith)
page_fault-code user read protection_fault rest = fault_low rest 5 (omega arith)
page_fault-code supervisor write not_present rest = fault_low rest 2 (omega arith)
page_fault-code supervisor write protection_fault rest = fault_low rest 3 (omega arith)
page_fault-code supervisor read not_present rest = fault_low rest 0 (omega arith)
page_fault-code supervisor read protection_fault rest = fault_low rest 1 (omega arith)

-- A selector's error code: the index, the table, and whether the event was external.
abbrev pub table_bits : DescriptorTable → ℕ
table_bits gdt = 0
table_bits idt = 2
table_bits ldt = 4

abbrev pub external_bit : Bool → ℕ
external_bit b = if b then 1 else 0

selector_fields :
    (index low : ℕ)
    → index < 2 ^ 13
    → low < 8
    → (bit_and (index * 8 + low) 0b1111111111111000 >>> 3 ≡ index)
      × (bit_and (index * 8 + low) 0b110 >>> 1 ≡ low / 2)
      × (bit_and (index * 8 + low) 1 ≡ low % 2)
selector_fields index low fits small =
    let e = index * 8 + low in
    (
      omega (
        arith,
        bit_and_at 3 (2 ^ 13 - 1) 0 e (omega arith),
        bit_and_ones 13 (e / 2 ^ 3),
        bit_and-zero (e % 2 ^ 3),
      ),
      omega (arith, bit_and_at 1 3 0 e (omega arith), bit_and_ones 2 (e / 2), bit_and-zero (e % 2)),
      omega (arith, bit_zero e),
    )

-- The handlers of selector faults read the fields back.
pub selector_error-code :
    (index : ℕ) (table : DescriptorTable) (external : Bool)
    → index < 2 ^ 13
    → selector_error (index * 8 + (table_bits table + external_bit external))
      ≡ record { external = external; table = table; index = index }
unfolding selector_error
selector_error-code index gdt true fits =
    let (a, b, c) = selector_fields index 1 fits (omega arith) in rw (a, b, c) refl
selector_error-code index gdt false fits =
    let (a, b, c) = selector_fields index 0 fits (omega arith) in rw (a, b, c) refl
selector_error-code index idt true fits =
    let (a, b, c) = selector_fields index 3 fits (omega arith) in rw (a, b, c) refl
selector_error-code index idt false fits =
    let (a, b, c) = selector_fields index 2 fits (omega arith) in rw (a, b, c) refl
selector_error-code index ldt true fits =
    let (a, b, c) = selector_fields index 5 fits (omega arith) in rw (a, b, c) refl
selector_error-code index ldt false fits =
    let (a, b, c) = selector_fields index 4 fits (omega arith) in rw (a, b, c) refl
