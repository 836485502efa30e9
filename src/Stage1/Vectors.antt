-- ===== src/Stage1/Vectors.antt =====
-- Which handler an interrupt reaches.
use eterna.Base.{
  Bool, ◌||◌, ℕ, ◌+◌, ◌<◌, ◌^◌, ◌≡◌, ◌∙◌, refl, ap, arith, ◌==◌, if◌then◌else◌, Bool-cases, inl,
  inr,
}
use eterna.Descriptors.{IdtEntry, get_offset, install_handler}
use eterna.Descriptors.Laws.{get_offset-install_handler}
use eterna.Interrupts.{pic1_data, pic2_data}
use eterna.Interrupts.Pic.{Controller, chips_after, remap_pic-ready_chip, ready_chip}
use eterna.Stage1.{
  Handlers, idtr, idt_ta_interrupt_gate, install_default, install_handlers, prepare_interrupts,
}

-- The vectors of the processor's exceptions, and those of the two chips behind them.
abbrev pub handler_at : Handlers → ℕ → ℕ
handler_at h i =
    if i == 0
    then h.divide_by_zero_handler
    else if i == 8
    then h.double_fault_handler
    else if i == 12
    then h.stack_segment_fault_handler
    else if i == 13
    then h.general_protection_fault_handler
    else if i == 14
    then h.page_fault_handler
    else if i == 19
    then h.simd_exception_handler
    else if i == 36
    then h.uart_com1_handler
    else 0

pub record Addresses (h : Handlers) : Type 0 where
  pub uart : h.uart_com1_handler < 2 ^ 64
  pub divide : h.divide_by_zero_handler < 2 ^ 64
  pub double : h.double_fault_handler < 2 ^ 64
  pub stack : h.stack_segment_fault_handler < 2 ^ 64
  pub protection : h.general_protection_fault_handler < 2 ^ 64
  pub page : h.page_fault_handler < 2 ^ 64
  pub simd : h.simd_exception_handler < 2 ^ 64

-- Whether a vector has a handler.
abbrev pub is_handled : ℕ → Bool
is_handled i = i == 0 || i == 8 || i == 12 || i == 13 || i == 14 || i == 19 || i == 36

-- What the processor reads of an entry: the handler's address, and the attributes and the code segment of its gate.
abbrev pub gate : IdtEntry → ℕ × ℕ × ℕ
gate e = (get_offset e, e.type_attribute, e.selector)

-- An interrupt gate that is present, of ring 0 (0x8e), in the kernel's code segment; or an entry that is not present.
abbrev pub gate_at : Handlers → ℕ → ℕ × ℕ × ℕ
gate_at h i = if is_handled i then (handler_at h i, 0x8e, 0x08) else (0, 0, 0)

-- The gate of an entry after a handler has been installed.
gate-install_default :
    (table : ℕ → IdtEntry) (handler vector i : ℕ)
    → handler < 2 ^ 64
    → gate (install_default table handler vector i)
      ≡ (if i == vector then (handler, 0x8e, 0x08) else gate (table i))
unfolding install_default
gate-install_default table handler vector i fits =
    let (offset, attribute, selector, others) =
      get_offset-install_handler table handler vector idt_ta_interrupt_gate 0x08 fits in
    let installed = install_handler table handler vector idt_ta_interrupt_gate 0x08 in
    elim (Bool-cases (i == vector)) [
      | inl here ↦
          let at : i ≡ vector = ground (arith, here) in
          rw here (
            ap (λ (n : ℕ). gate (installed n)) at
            ∙ gate_of (installed vector) handler offset attribute selector)
      | inr other ↦ rw other (ap gate (others i (λ e. absurd (ground (arith, e, other)))))
    ]
  where
    gate_of :
        (e : IdtEntry) (handler : ℕ)
        → get_offset e ≡ handler
        → e.type_attribute ≡ 0x8e
        → e.selector ≡ 0x08
        → gate e ≡ (handler, 0x8e, 0x08)
    gate_of e handler a b c = rw (a, b, c) refl

blank_gate : (i : ℕ) → gate (idtr i) ≡ (0, 0, 0)
unfolding get_offset
blank_gate i = refl

gate-install_handlers :
    (h : Handlers) (i : ℕ) → Addresses h → gate (install_handlers h i) ≡ gate_at h i
unfolding install_handlers
gate-install_handlers h i fit =
    let t₁ = install_default idtr h.uart_com1_handler 36 in
    let t₂ = install_default t₁ h.divide_by_zero_handler 0x00 in
    let t₃ = install_default t₂ h.double_fault_handler 0x08 in
    let t₄ = install_default t₃ h.stack_segment_fault_handler 0x0c in
    let t₅ = install_default t₄ h.general_protection_fault_handler 0x0d in
    let t₆ = install_default t₅ h.page_fault_handler 0x0e in
    gate-install_default t₆ h.simd_exception_handler 0x13 i fit.simd
    ∙ (rw
        (
          gate-install_default t₅ h.page_fault_handler 0x0e i fit.page,
          gate-install_default t₄ h.general_protection_fault_handler 0x0d i fit.protection,
          gate-install_default t₃ h.stack_segment_fault_handler 0x0c i fit.stack,
          gate-install_default t₂ h.double_fault_handler 0x08 i fit.double,
          gate-install_default t₁ h.divide_by_zero_handler 0x00 i fit.divide,
          gate-install_default idtr h.uart_com1_handler 36 i fit.uart,
          blank_gate i,
        )
        (ground arith))

-- Behind `prepare_interrupts`, whatever state the chips were in, where their data ports read as their masks: both
-- are ready with the masks they had, and give interrupts from the vectors 0x20 and 0x28 on. The seven vectors with
-- a handler have a present interrupt gate of ring 0 with its address in the kernel's code segment, and all others
-- have no gate; the serial port's is that of line 4 of the first chip. The processor's register holds the table.
pub prepare_interrupts-gate_at :
    (in8 : ℕ → ℕ) (h : Handlers) (first second : Controller) (idt_storage : ℕ)
    → Addresses h
    → in8 pic1_data ≡ first.mask
    → in8 pic2_data ≡ second.mask
    → let (writes, table, register) = prepare_interrupts in8 h idt_storage in
      let (first', second') = chips_after writes (first, second) in
      (first' ≡ ready_chip 0x20 4 first.mask)
      × (second' ≡ ready_chip 0x28 2 second.mask)
      × ((i : ℕ) → gate (table i) ≡ gate_at h i)
      × (gate (table (first'.vector + 4)) ≡ (h.uart_com1_handler, 0x8e, 0x08))
      × (register ≡ record { limit = 0x0fff; offset = idt_storage })
unfolding prepare_interrupts
prepare_interrupts-gate_at in8 h first second idt_storage fit e₁ e₂ =
    let remapped = remap_pic-ready_chip in8 first second e₁ e₂ in
    (
      ap (λ (p : Controller × Controller). p.0) remapped,
      ap (λ (p : Controller × Controller). p.1) remapped,
      λ i. gate-install_handlers h i fit,
      ap (λ (p : Controller × Controller). gate (install_handlers h (p.0.vector + 4))) remapped
          ∙ gate-install_handlers h 36 fit,
      refl,
    )
