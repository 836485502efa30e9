-- ===== src/Panic/Exceptions.antt =====
-- What the handlers of exceptions leave on the serial line.
use eterna.Base.{ℕ, bit_and, Bool, List, [], ◌∷◌, ◌++◌, ltb, if◌then◌else◌}
use eterna.Uart.Text.{KeepsUp}
use eterna.Panic.{Hardware, Console}
use eterna.Panic.Report.{Says}
use eterna.Panic.Handlers.{say_if, fetch_text, shadow_text, hypervisor_text, guard_text}

-- A text that is sent if it was asked for.
abbrev pub asked_text : Bool → List ℕ → List (List ℕ)
asked_text asked t = if asked then t ∷ [] else []

abbrev pub flags_report : ℕ → List (List ℕ)
flags_report error =
    asked_text (ltb 0 (bit_and error 16)) fetch_text
    ++ asked_text (ltb 0 (bit_and error 64)) shadow_text
    ++ asked_text (ltb 0 (bit_and error 128)) hypervisor_text
    ++ asked_text (ltb 0 (bit_and error 32768)) guard_text

-- The texts that are said between two states, kept as an index.
record Said (h : Hardware) (texts : List (List ℕ)) (c d : Console) : Type 0 where
  says : Says h texts c d

module _ (h : Hardware) where
  module _ (keeps_up : KeepsUp h.device) where
    module _ (fetch shadow hypervisor guard : Bool) (c : Console) where
      abbrev c₁ : Console
      c₁ = say_if h fetch fetch_text c

      abbrev c₂ : Console
      c₂ = say_if h shadow shadow_text c₁

      abbrev c₃ : Console
      c₃ = say_if h hypervisor hypervisor_text c₂
