-- ===== src/Interrupts.antt =====
-- Interrupt controllers and fault codes, kernel/interrupts/interrupts.cc. A port is read by a parameter
-- `in8`; what is written is a list of ports and values, in order. The handlers that report
-- a fault stand in Panic/Handlers.antt.
pub mod Masks
pub mod Faults
pub mod Pic
mod Tests
use eterna.Base.{
  ℕ, ◌+◌, ◌-◌, ◌*◌, ◌/◌, ◌%◌, ◌^◌, bit_and, bit_or, Bool, true, false, List, [], ◌∷◌, ltb, leb,
  ◌==◌, if◌then◌else◌, u8, ◌<<<◌, ◌>>>◌,
}

abbrev pub pic1_command : ℕ
pic1_command = 0x20

abbrev pub pic1_data : ℕ
pic1_data = 0x21

abbrev pub pic2_command : ℕ
pic2_command = 0xa0

abbrev pub pic2_data : ℕ
pic2_data = 0xa1

unfoldable pub irq_bit : ℕ → ℕ
irq_bit irq = 1 <<< irq

abbrev pub Writes : Type 0
Writes = List (ℕ × ℕ)

-- `in8(port) & ~IRQ_BIT(irq)`, cut to a byte, and `in8(port) | IRQ_BIT(irq)`.
unfoldable pub clear_mask : ℕ → ℕ → ℕ
unfolding irq_bit
clear_mask value irq = bit_and value (255 - irq_bit irq)

unfoldable pub set_mask : ℕ → ℕ → ℕ
unfolding irq_bit
set_mask value irq = u8 (bit_or value (irq_bit irq))

unfoldable pub enable_interrupt : (ℕ → ℕ) → ℕ → Writes
enable_interrupt in8 irq =
    if ltb 15 irq
    then []
    else if ltb irq 8
    then (pic1_data, clear_mask (in8 pic1_data) irq) ∷ []
    else (pic2_data, clear_mask (in8 pic2_data) (irq - 8)) ∷ []

unfoldable pub disable_interrupt : (ℕ → ℕ) → ℕ → Writes
disable_interrupt in8 irq =
    if ltb 15 irq
    then []
    else if ltb irq 8
    then (pic1_data, set_mask (in8 pic1_data) irq) ∷ []
    else (pic2_data, set_mask (in8 pic2_data) (irq - 8)) ∷ []

unfoldable pub disable_all_interrupts : Writes
disable_all_interrupts = (pic1_data, 0) ∷ (pic2_data, 0) ∷ []

unfoldable pub end_of_interrupt : ℕ → Writes
end_of_interrupt irq =
    if leb 8 irq
    then (pic2_command, 0x20) ∷ (pic1_command, 0x20) ∷ []
    else (pic1_command, 0x20) ∷ []

-- The message of `page_fault_handler`: who, what, and why.
pub data Process : Type 0 where
  user supervisor : Process

pub data Attempt : Type 0 where
  write read : Attempt

pub data Cause : Type 0 where
  not_present protection_fault : Cause

unfoldable pub page_fault : ℕ → Process × Attempt × Cause
page_fault error =
    let not_there = bit_and error 1 == 0 in
    if ltb 0 (bit_and error 4)
    then if ltb 0 (bit_and error 2)
      then if not_there then (user, write, not_present) else (user, write, protection_fault)
      else if not_there
      then (user, read, not_present)
      else (user, read, protection_fault)
    else if ltb 0 (bit_and error 2)
    then if not_there
      then (supervisor, write, not_present)
      else (supervisor, write, protection_fault)
    else if not_there
    then (supervisor, read, not_present)
    else (supervisor, read, protection_fault)

-- What the handlers of selector faults print of the error code.
pub data DescriptorTable : Type 0 where
  gdt idt ldt : DescriptorTable

pub record SelectorError : Type 0 where
  pub external : Bool
  pub table : DescriptorTable
  pub index : ℕ

unfoldable pub selector_error : ℕ → SelectorError
selector_error error =
    let table = u8 (bit_and error 0b110 >>> 1) in
    record {
      external = ltb 0 (bit_and error 1);
      table =
          if table == 0 then gdt else if table == 1 then idt else if table == 3 then idt else ldt;
      index = bit_and error 0b1111111111111000 >>> 3;
    }
