-- ===== src/Panic/Report.antt =====
-- What a panic leaves on the serial line.
use eterna.Base.{ℕ, ◌≡◌, ◌∙◌, refl, ap, Bool, true, List, [], ◌∷◌, ◌++◌}
use eterna.Uart.{Uart, out_string, codes, line_end}
use eterna.Uart.Text.{KeepsUp, shown, sends, out_string-Sent}
use eterna.Panic.{
  Hardware, Console, InterruptFrame, InterruptFrameError, banner, hex_text, say, show, next_line,
  swap_from, panic, panic_frame, panic_error,
}

-- The bytes on the line after those of several texts, the latest first.
abbrev pub sends_all : Bool → List (List ℕ) → List (ℕ × ℕ) → List (ℕ × ℕ)
sends_all hide [] line = line
sends_all hide (t ∷ ts) line = sends_all hide ts (sends (shown hide t) line)

-- From `c` to `d` the texts are sent in order, and the driver is on.
abbrev pub Says : Hardware → List (List ℕ) → Console → Console → Type 0
Says h texts c d =
    (d.uart.initialized ≡ true) × (d.uart.written ≡ sends_all h.hide texts c.uart.written)

-- The parts of the reports.
abbrev pub message_report : List ℕ → List (List ℕ)
message_report message = banner ∷ codes "   " ∷ message ∷ line_end ∷ []

abbrev pub frame_report : InterruptFrame → List ℕ → List (List ℕ)
frame_report frame message =
    message_report message
    ++ codes "  Instruction Address: 0x"
      ∷ hex_text frame.ip
      ∷ line_end
      ∷ codes "  Stack Pointer: 0x"
      ∷ hex_text frame.sp
      ∷ line_end
      ∷ []

abbrev pub error_report : InterruptFrameError → List ℕ → List (List ℕ)
error_report frame message =
    message_report message
    ++ codes "  Error Code: 0x"
      ∷ hex_text frame.error
      ∷ (line_end ++ codes "  Instruction Address: 0x")
      ∷ hex_text frame.ip
      ∷ line_end
      ∷ codes "  Stack Pointer: 0x"
      ∷ hex_text frame.sp
      ∷ line_end
      ∷ []

-- The texts written one after the other.
abbrev pub out_all : Hardware → List (List ℕ) → Uart → Uart
out_all h [] u = u
out_all h (t ∷ ts) u = out_all h ts (out_string h.device h.hide u t)

module _ (h : Hardware) (keeps_up : KeepsUp h.device) where
  pub out_all-Sent :
      (texts : List (List ℕ)) (u : Uart)
      → u.initialized ≡ true
      → ((out_all h texts u).initialized ≡ true)
        × ((out_all h texts u).written ≡ sends_all h.hide texts u.written)
  out_all-Sent [] u on = (on, refl)
  out_all-Sent (t ∷ ts) u on =
      let (on', e, chip) = out_string-Sent h.device keeps_up h.hide u t on in
      let (on'', e') = out_all-Sent ts (out_string h.device h.hide u t) on' in
      (on'', e' ∙ ap (sends_all h.hide ts) e)

  module _ (c : Console) (on : c.uart.initialized ≡ true) where
    pub panic-Says : (message : List ℕ) → Says h (message_report message) c (panic h message c)
    unfolding panic show next_line swap_from say
    panic-Says message = out_all-Sent (message_report message) c.uart on

    -- While the chip keeps up, a panic at an exception sends the banner, the message, and the two addresses of the frame.
    pub panic_frame-Says :
        (frame : InterruptFrame) (message : List ℕ)
        → Says h (frame_report frame message) c (panic_frame h frame message c)
    unfolding panic_frame panic show next_line swap_from say
    panic_frame-Says frame message = out_all-Sent (frame_report frame message) c.uart on

    pub panic_error-Says :
        (frame : InterruptFrameError) (message : List ℕ)
        → Says h (error_report frame message) c (panic_error h frame message c)
    unfolding panic_error panic show next_line swap_from say
    panic_error-Says frame message = out_all-Sent (error_report frame message) c.uart on
