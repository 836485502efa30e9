-- ===== src/Panic/Handlers.antt =====
-- The handlers of exceptions, kernel/interrupts/interrupts.cc, with what they report. The address of a page fault,
-- which the source reads from the register CR2, is an argument.
use eterna.Base.{ℕ, bit_and, Bool, List, ◌++◌, ltb, ◌==◌, if◌then◌else◌}
use eterna.Interrupts.{
  Process, user, supervisor, Attempt, write, read, Cause, not_present, protection_fault, page_fault,
  DescriptorTable, gdt, idt, ldt, selector_error,
}
use eterna.Renderer.{vec}
use eterna.Uart.{codes, line_end}
use eterna.Panic.{
  Hardware, Console, InterruptFrame, InterruptFrameError, puts, say, hex_text, swap_from,
  panic_frame, panic_error, panic_start,
}

-- A handler that stops the processor for ever, or returns to what was interrupted.
pub data Handled : Type 0 where
  halts returns : Console → Handled

unfoldable pub say_if : Hardware → Bool → List ℕ → Console → Console
say_if h asked str c = if asked then say h str c else c

unfoldable pub divide_by_zero_handler : Hardware → InterruptFrame → Console → Handled
divide_by_zero_handler h frame c = halts (panic_frame h frame (codes "Divide by zero detected!") c)

unfoldable pub double_fault_handler : Hardware → InterruptFrameError → Console → Handled
double_fault_handler h frame c = halts (panic_error h frame (codes "Double fault detected!") c)

abbrev pub process_text : Process → List ℕ
process_text user = codes "User process"
process_text supervisor = codes "Supervisor process"

abbrev pub attempt_text : Attempt → List ℕ
attempt_text write = codes " attempted to write to a page "
attempt_text read = codes " attempted to read from a page "

abbrev pub cause_text : Cause → List ℕ
cause_text not_present = codes "that is not present"
cause_text protection_fault = codes "and caused a protection fault"

abbrev pub page_fault_text : Process × Attempt × Cause → List ℕ
page_fault_text (process, attempt, cause) =
    codes "#PF: " ++ process_text process ++ attempt_text attempt ++ cause_text cause

abbrev pub fetch_text : List ℕ
fetch_text = codes "  Instruction fetch" ++ line_end

abbrev pub shadow_text : List ℕ
shadow_text = codes "  Shadow stack access" ++ line_end

abbrev pub hypervisor_text : List ℕ
hypervisor_text = codes "  Hypvervisor-managed linear address translation" ++ line_end

abbrev pub guard_text : List ℕ
guard_text = codes "  Software gaurd extensions" ++ line_end

unfoldable pub page_fault_flags : Hardware → ℕ → Console → Console
page_fault_flags h error c =
    let c₁ = say_if h (ltb 0 (bit_and error 16)) fetch_text c in
    let c₂ = say_if h (ltb 0 (bit_and error 64)) shadow_text c₁ in
    let c₃ = say_if h (ltb 0 (bit_and error 128)) hypervisor_text c₂ in
    say_if h (ltb 0 (bit_and error 32768)) guard_text c₃

unfoldable pub faulty_address : Hardware → ℕ → Console → Console
faulty_address h address c =
    let c₁ = say h line_end (say h (hex_text address) (say h (codes "  Faulty Address: 0x") c)) in
    let (position, drawn) =
      puts c₁.renderer h.glyphs panic_start (codes "Faulty Address: 0x") 0 c₁.target in
    let (end, all_drawn) = puts c₁.renderer h.glyphs position (hex_text address) 0 drawn in
    swap_from h (vec 1024 128) (record c₁ { target = all_drawn })

unfoldable pub page_fault_handler : Hardware → ℕ → InterruptFrameError → Console → Handled
page_fault_handler h address frame c =
    let c₁ = panic_error h frame (page_fault_text (page_fault frame.error)) c in
    halts (faulty_address h address (page_fault_flags h frame.error c₁))

abbrev pub table_text : DescriptorTable → List ℕ
table_text gdt = codes "  GDT"
table_text idt = codes "  IDT"
table_text ldt = codes "  LDT"

-- What both handlers of selector faults print of the error code.
unfoldable pub say_selector : Hardware → ℕ → Console → Console
say_selector h error c =
    let selector = selector_error error in
    let c₁ = say_if h selector.external (codes "  External" ++ line_end) c in
    let c₂ = say h (codes " Selector Index: ") (say h (table_text selector.table) c₁) in
    say h line_end (say h (hex_text selector.index) c₂)

unfoldable pub stack_segment_fault_handler : Hardware → InterruptFrameError → Console → Handled
stack_segment_fault_handler h frame c =
    let message =
      if frame.error == 0
      then codes "Stack segment fault detected (0)"
      else codes "Stack segment fault detected (selector)!" in
    returns (say_selector h frame.error (panic_error h frame message c))

unfoldable pub general_protection_fault_handler : Hardware → InterruptFrameError → Console → Handled
general_protection_fault_handler h frame c =
    let message =
      if frame.error == 0
      then codes "General protection fault detected (0)!"
      else codes "General protection fault detected (selector)!" in
    halts (say_selector h frame.error (panic_error h frame message c))

-- The handler loads MXCSR from its variable, which is 0, in place of storing it there.
unfoldable pub simd_text : ℕ → List ℕ
simd_text mxcsr =
    if ltb 0 (bit_and mxcsr 1)
    then codes "SIMD fault detected (Invalid Operation)!"
    else if ltb 0 (bit_and mxcsr 2)
    then codes "SIMD fault detected (Denormal)!"
    else if ltb 0 (bit_and mxcsr 4)
    then codes "SIMD fault detected (Divide by Zero)!"
    else if ltb 0 (bit_and mxcsr 8)
    then codes "SIMD fault detected (Overflow)!"
    else if ltb 0 (bit_and mxcsr 16)
    then codes "SIMD fault detected (Underflow)!"
    else if ltb 0 (bit_and mxcsr 32)
    then codes "SIMD fault detected (Precision)!"
    else if ltb 0 (bit_and mxcsr 64)
    then codes "SIMD fault detected (Denormals are Zero)!"
    else codes "Unknown SIMD fault"

unfoldable pub simd_exception_handler : Hardware → InterruptFrame → Console → Handled
simd_exception_handler h frame c = halts (panic_frame h frame (simd_text 0) c)
