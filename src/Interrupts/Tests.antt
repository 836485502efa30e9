-- ===== src/Interrupts/Tests.antt =====
-- Interrupts at concrete values: masks read back as 0xb8 on both chips.
use eterna.Base.{ℕ, true, false, arith}
use eterna.Interrupts.{enable_interrupt, disable_interrupt}
use eterna.Interrupts.Masks.{Effect, interrupt-Effect}

abbrev masks : ℕ → ℕ
masks port = 0xb8

interrupt-Effect_example :
    Effect masks 12 false (enable_interrupt masks 12)
    × Effect masks 12 true (disable_interrupt masks 12)
interrupt-Effect_example = interrupt-Effect masks (λ port. omega arith) 12
