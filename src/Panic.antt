-- ===== src/Panic.antt =====
-- Reporting a panic, kernel/panic/panic.cc: on the serial port, and on the target framebuffer, which is then copied
-- to the screen. A C string is the list of its characters.
pub mod Digits
pub mod Report
pub mod Handlers
pub mod Exceptions
mod Tests
use eterna.Base.{ℕ, zero, suc, ◌+◌, Bool, true, false, List, [], ◌∷◌, ◌++◌, ◌==◌, if◌then◌else◌}
use eterna.Cstr.{to_hexstring}
use eterna.Renderer.{Vector2, vec, Renderer, put_char}
use eterna.Renderer.Screen.{swap, crlf_offset}
use eterna.Uart.{Uart, out_string, codes, line_end}

-- What does not change: the serial device and whether colour codes are hidden, the font, and whether both
-- framebuffers are at one address.
pub record Hardware : Type 0 where
  pub device : ℕ → ℕ → ℕ
  pub hide : Bool
  pub glyphs : ℕ → ℕ
  pub shared : Bool

-- The driver, `gRend` with the pixels of its two framebuffers, and `PanicLocation`.
pub record Console : Type 0 where
  pub uart : Uart
  pub renderer : Renderer
  pub target : ℕ → ℕ
  pub render : ℕ → ℕ
  pub panic_location : Vector2

-- The fields of `InterruptFrame` and `InterruptFrameError` that are reported.
pub record InterruptFrame : Type 0 where
  pub ip : ℕ
  pub sp : ℕ

pub record InterruptFrameError : Type 0 where
  pub error : ℕ
  pub ip : ℕ
  pub sp : ℕ

abbrev pub panic_start : Vector2
panic_start = vec 400 500

unfoldable pub puts : Renderer → (ℕ → ℕ) → Vector2 → List ℕ → ℕ → (ℕ → ℕ) → Vector2 × (ℕ → ℕ)
puts r glyphs position [] color pixels = (position, pixels)
puts r glyphs position (c ∷ cs) color pixels =
    let (moved, drawn) = put_char r glyphs position c color pixels in
    puts r glyphs moved cs color drawn

-- The characters of a C string that ends within the rounds, from an index on.
unfoldable pub text_of : ℕ → (ℕ → ℕ) → ℕ → List ℕ
text_of zero buf at = []
text_of (suc rounds) buf at =
    let rest = text_of rounds buf (at + 1) in if buf at == 0 then [] else buf at ∷ rest

-- The string of a number: `to_hexstring` in small letters, in a buffer that starts with zeros.
unfoldable pub hex_text : ℕ → List ℕ
hex_text value = text_of 17 (to_hexstring value false (λ i. 0)) 0

-- The calls that the handlers make: `UART::out`; and `puts`, `crlf` at PanicLocation, and `swap`.
unfoldable pub say : Hardware → List ℕ → Console → Console
say h str c = record c { uart = out_string h.device h.hide c.uart str }

unfoldable pub show : Hardware → List ℕ → ℕ → Console → Console
show h str color c =
    let (moved, drawn) = puts c.renderer h.glyphs c.panic_location str color c.target in
    record c { target = drawn; panic_location = moved }

unfoldable pub next_line : Console → Console
next_line c = record c { panic_location = crlf_offset c.renderer c.panic_location panic_start.x }

unfoldable pub swap_from : Hardware → Vector2 → Console → Console
swap_from h size c = record c {
  render = swap c.renderer h.shared c.target panic_start size c.render;
}

abbrev pub banner : List ℕ
banner = line_end ++ 27 ∷ codes "[1;37;41mEterna PANIC" ++ 27 ∷ codes "[0m" ++ line_end

unfoldable pub panic : Hardware → List ℕ → Console → Console
panic h message c =
    let c₁ = say h line_end (say h message (say h (codes "   ") (say h banner c))) in
    let c₂ = record c₁ { renderer = record (c₁.renderer) { background_color = 0xffff0000 } } in
    let c₃ = next_line (show h (codes "Eterna PANIC MODE") 0xffffffff c₂) in
    swap_from h (vec 80000 80000) (next_line (show h message 0 c₃))

unfoldable pub panic_frame : Hardware → InterruptFrame → List ℕ → Console → Console
panic_frame h frame message c =
    let c₁ = say h (codes "  Instruction Address: 0x") (panic h message c) in
    let c₂ = say h line_end (say h (hex_text frame.ip) c₁) in
    let c₃ = say h (hex_text frame.sp) (say h (codes "  Stack Pointer: 0x") c₂) in
    let c₄ = show h (codes "Instruction Address: 0x") 0 (say h line_end c₃) in
    let c₅ = next_line (show h (hex_text frame.ip) 0 c₄) in
    let c₆ = show h (hex_text frame.sp) 0 (show h (codes "Stack Pointer: 0x") 0 c₅) in
    swap_from h (vec 80000 80000) (next_line c₆)

unfoldable pub panic_error : Hardware → InterruptFrameError → List ℕ → Console → Console
panic_error h frame message c =
    let c₁ = say h (codes "  Error Code: 0x") (panic h message c) in
    let c₂ =
      say h (line_end ++ codes "  Instruction Address: 0x") (say h (hex_text frame.error) c₁) in
    let c₃ = say h line_end (say h (hex_text frame.ip) c₂) in
    let c₄ = say h (hex_text frame.sp) (say h (codes "  Stack Pointer: 0x") c₃) in
    let c₅ = show h (codes "Error Code: 0x") 0 (say h line_end c₄) in
    let c₆ = next_line (show h (hex_text frame.error) 0 c₅) in
    let c₇ = show h (hex_text frame.ip) 0 (show h (codes "Instruction Address: 0x") 0 c₆) in
    let c₈ = show h (codes "Stack Pointer: 0x") 0 (next_line c₇) in
    swap_from h (vec 80000 80000) (next_line (show h (hex_text frame.sp) 0 c₈))
