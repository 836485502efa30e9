-- ===== src/Uart/Start.antt =====
-- Starting the driver: the loop-back test decides whether it is on.
use eterna.Base.{ℕ, ◌+◌, ◌≡◌, ◌≢◌, ◌⊎◌, Bool, true, false, List, ◌∷◌}
use eterna.Uart.{
  Uart, Chip, com1, interrupt_port, modem_control_port, out, out_string, welcome, detected,
  chip_end, get_uart_chip_name,
}
use eterna.Uart.Text.{shown, sends}

-- The line with the first messages behind it.
abbrev pub greeted : Bool → Chip → List (ℕ × ℕ) → List (ℕ × ℕ)
greeted hide chip line = sends (shown hide chip_end) (
    sends (shown hide (get_uart_chip_name chip))
      (sends (shown hide detected) (sends (shown hide welcome) line)))

module _ (device : ℕ → ℕ → ℕ) (hide : Bool) where
  -- The registers that are set once the chip is known, the latest first.
  abbrev pub tested : List (ℕ × ℕ) → List (ℕ × ℕ)
  tested line = (com1, 0xae) ∷ (modem_control_port, 0b00011111) ∷ line

  abbrev pub switched_on : List (ℕ × ℕ) → List (ℕ × ℕ)
  switched_on line = (interrupt_port, 1) ∷ (modem_control_port, 0b00001111) ∷ tested line

  abbrev on_state : Uart → Uart
  on_state probe = record probe {
    initialized = true;
    reads = probe.reads + 1;
    written = switched_on probe.written;
  }

  abbrev off_state : Uart → Uart
  off_state probe = record probe {
    initialized = false;
    reads = probe.reads + 1;
    written = tested probe.written;
  }

  -- What `initialize` makes of the state in which the chip has been looked for.
  abbrev pub Started : Uart → Uart → Type 0
  Started probe t =
      ((device probe.reads com1 ≡ 0xae)
        × (t.initialized ≡ true)
        × (t.written ≡ greeted hide probe.chip (switched_on probe.written)))
      ⊎ ((device probe.reads com1 ≢ 0xae)
          × (t.written ≡ tested probe.written)
          × ((str : List ℕ) → out_string device hide t str ≡ t)
          × ((byte : ℕ) → out device t byte ≡ t))
