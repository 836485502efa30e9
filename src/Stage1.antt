-- ===== src/Stage1.antt =====
-- The interrupts of the boot stage, `prepare_interrupts` of kernel/kstage1.cc: the controllers are programmed, and the interrupt
-- descriptor table is filled. The addresses of the handlers are parameters.
pub mod Vectors
mod Tests
use eterna.Base.{ℕ, ◌+◌, ◌<◌, ◌^◌}
use eterna.Descriptors.{IdtEntry, install_handler}
use eterna.Interrupts.{Writes}
use eterna.Interrupts.Pic.{remap_pic, pic_irq_vector_offset}

pub record Handlers : Type 0 where
  pub uart_com1_handler : ℕ
  pub divide_by_zero_handler : ℕ
  pub double_fault_handler : ℕ
  pub stack_segment_fault_handler : ℕ
  pub general_protection_fault_handler : ℕ
  pub page_fault_handler : ℕ
  pub simd_exception_handler : ℕ

-- The constructor of `IDTR` clears all of the table but its last byte, and the storage starts with zeros.
abbrev pub idtr : ℕ → IdtEntry
idtr i = record {
  offset₀ = 0;
  selector = 0;
  ist = 0;
  type_attribute = 0;
  offset₁ = 0;
  offset₂ = 0;
  ignore = 0;
}

-- `IDT_TA_InterruptGate`, and the default arguments of `install_handler`.
abbrev pub idt_ta_interrupt_gate : ℕ
idt_ta_interrupt_gate = 0b10001110

unfoldable pub install_default : (ℕ → IdtEntry) → ℕ → ℕ → ℕ → IdtEntry
install_default table handler vector =
    install_handler table handler vector idt_ta_interrupt_gate 0x08

unfoldable pub install_handlers : Handlers → ℕ → IdtEntry
install_handlers h =
    let t₁ = install_default idtr h.uart_com1_handler (pic_irq_vector_offset + 4) in
    let t₂ = install_default t₁ h.divide_by_zero_handler 0x00 in
    let t₃ = install_default t₂ h.double_fault_handler 0x08 in
    let t₄ = install_default t₃ h.stack_segment_fault_handler 0x0c in
    let t₅ = install_default t₄ h.general_protection_fault_handler 0x0d in
    let t₆ = install_default t₅ h.page_fault_handler 0x0e in
    install_default t₆ h.simd_exception_handler 0x13

-- `Limit` and `Offset` of `gIDT`, at the address of the storage; `flush` loads them into the processor's register.
pub record Idtr : Type 0 where
  pub limit : ℕ
  pub offset : ℕ

-- What is written to ports, the table, and the register that `flush` loads.
unfoldable pub prepare_interrupts : (ℕ → ℕ) → Handlers → ℕ → Writes × (ℕ → IdtEntry) × Idtr
prepare_interrupts in8 h idt_storage =
    (remap_pic in8, install_handlers h, record { limit = 0x0fff; offset = idt_storage })
