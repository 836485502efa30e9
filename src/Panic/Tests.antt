-- ===== src/Panic/Tests.antt =====
-- A panic at concrete values: a chip that answers every read with one byte, a blank font and a screen of 800 pixels.
use eterna.Base.{◌≡◌, refl, true, false, []}
use eterna.Renderer.{vec, Renderer}
use eterna.Uart.{chip_16750, codes}
use eterna.Panic.{Hardware, Console, InterruptFrame, InterruptFrameError, hex_text, text_of}
use eterna.Cstr.{to_hexstring, hex_loop, put}

abbrev test_hardware : Hardware
test_hardware = record { device = λ n port. 0xae; hide = false; glyphs = λ i. 0; shared = false }

abbrev test_screen : Renderer
test_screen = record {
  pixel_width = 800;
  pixel_height = 600;
  pixels_per_scan_line = 800;
  character_size = 16;
  background_color = 0;
}

abbrev test_console : Console
test_console = record {
  uart = record { initialized = true; chip = chip_16750; reads = 0; written = [] };
  renderer = test_screen;
  target = λ i. 1;
  render = λ i. 2;
  panic_location = vec 400 500;
}

abbrev test_frame : InterruptFrame
test_frame = record { ip = 0x401000; sp = 0x7ff8 }

-- A user's write to a page that is not there.
abbrev test_error : InterruptFrameError
test_error = record { error = 6; ip = 0x401000; sp = 0x7ff8 }

hex_text_digits : hex_text 0xdeadc0de ≡ codes "00000000deadc0de"
unfolding hex_text text_of to_hexstring hex_loop put
hex_text_digits = refl
