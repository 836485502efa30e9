-- ===== src/Uart/Tests.antt =====
-- The serial port at concrete values: a chip that answers every read with one byte.
use eterna.Base.{ℕ, ◌≡◌, refl, ◌⊎◌, true, false, List, [], ◌∷◌, ◌++◌}
use eterna.Uart.{
  Uart, no_chip, chip_16750, com1, out, out_string, codes, skip_code, out_loop, spin, out8, in8,
}
use eterna.Uart.Poll.{Sends, out-Wrote}
use eterna.Uart.Text.{shown, shown_in}

-- The byte 0xae has the bits of an empty transmit buffer and of a chip with FIFO.
abbrev device : ℕ → ℕ → ℕ
device n port = 0xae

abbrev off : Uart
off = record { initialized = false; chip = no_chip; reads = 0; written = [] }

abbrev on : Uart
on = record { initialized = true; chip = chip_16750; reads = 0; written = [] }

out-Wrote_example :
    ((on.initialized ≡ false) × (out device on 65 ≡ on))
    ⊎ ((on.initialized ≡ true) × Sends device on 65 (out device on 65))
out-Wrote_example = out-Wrote device on 65

coloured : List ℕ
coloured = 65 ∷ 27 ∷ codes "[31m" ++ 66 ∷ []

coloured_hidden : shown true coloured ≡ 65 ∷ 66 ∷ []
unfolding shown shown_in coloured
coloured_hidden = refl

coloured_sent : (out_string device true on coloured).written ≡ (com1, 66) ∷ (com1, 65) ∷ []
unfolding out_string out_loop out spin in8 out8 skip_code coloured
coloured_sent = refl
