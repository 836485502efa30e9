-- ===== src/Renderer.antt =====
-- Drawing on the target framebuffer, kernel/renderer/renderer.cc and include/renderer/renderer.hpp. Pixels are a function from
-- indices behind `Target->BaseAddress`; a position that is passed by reference is returned.
pub mod Paint
pub mod Shapes
pub mod Screen
pub mod BitImage
mod Tests
use eterna.Base.{
  ℕ, zero, suc, ◌+◌, ◌-◌, ◌*◌, ◌/◌, ◌%◌, ◌^◌, bit_and, Bool, true, false, Option, none, some, ltb,
  leb, ◌==◌, if◌then◌else◌, u32, add64, sub64,
}

pub record Vector2 : Type 0 where
  pub x : ℕ
  pub y : ℕ

abbrev pub vec : ℕ → ℕ → Vector2
vec a b = record { x = a; y = b }

-- The target's size, the font's `CharacterSize` and `BackgroundColor`.
pub record Renderer : Type 0 where
  pub pixel_width : ℕ
  pub pixel_height : ℕ
  pub pixels_per_scan_line : ℕ
  pub character_size : ℕ
  pub background_color : ℕ

unfoldable pub clamp_draw_position : Renderer → Vector2 → Vector2
clamp_draw_position r position =
    vec (if ltb r.pixel_width position.x then r.pixel_width else position.x)
      (if ltb r.pixel_height position.y then r.pixel_height else position.y)

-- What is left of `size` at a position, with the differences on `uint32_t`.
unfoldable pub clip : Renderer → Vector2 → Vector2 → Vector2
clip r position size =
    let diff_x = u32 (r.pixel_width - position.x) in
    let diff_y = u32 (r.pixel_height - position.y) in
    vec (if ltb diff_x size.x then diff_x else size.x)
      (if ltb diff_y size.y then diff_y else size.y)

-- The two loops: `f` gives a pixel's new value from its column, its row and what it was.
unfoldable pub column_loop : (ℕ → ℕ → ℕ → ℕ) → ℕ → ℕ → ℕ → ℕ → (ℕ → ℕ) → ℕ → ℕ
column_loop f stride y zero x pixels = pixels
column_loop f stride y (suc left) x pixels =
    column_loop f stride y left (x + 1)
      (λ i. if i == x + y * stride then f x y (pixels i) else pixels i)

unfoldable pub row_loop : (ℕ → ℕ → ℕ → ℕ) → ℕ → ℕ → ℕ → ℕ → ℕ → (ℕ → ℕ) → ℕ → ℕ
row_loop f stride x width zero y pixels = pixels
row_loop f stride x width (suc left) y pixels =
    row_loop f stride x width left (y + 1) (column_loop f stride y width x pixels)

-- The loops of the drawing functions, at a clamped position with a clipped size.
unfoldable pub paint : Renderer → (ℕ → ℕ → ℕ → ℕ) → Vector2 → Vector2 → (ℕ → ℕ) → ℕ → ℕ
paint r f position size pixels =
    row_loop f r.pixels_per_scan_line position.x size.x size.y position.y pixels

unfoldable pub draw_rect : Renderer → Vector2 → Vector2 → ℕ → (ℕ → ℕ) → Vector2 × (ℕ → ℕ)
draw_rect r position size color pixels =
    let p = clamp_draw_position r position in
    (p, paint r (λ x y old. color) p (clip r p size) pixels)

-- A null pointer is `none`.
unfoldable pub draw_pix :
    Renderer → Vector2 → Vector2 → Option (ℕ → ℕ) → (ℕ → ℕ) → Vector2 × (ℕ → ℕ)
draw_pix r position size none pixels = (position, pixels)
draw_pix r position size (some source) pixels =
    let p = clamp_draw_position r position in
    let init_x = u32 size.x in
    (p, paint r (λ x y old. source ((x - p.x) + (y - p.y) * init_x)) p (clip r p size) pixels)

-- The conversion of an index to `int32_t`, as what it adds to a pointer: a negative one wraps around below.
unfoldable pub int32_offset : ℕ → ℕ
int32_offset i = if ltb (u32 i) (2 ^ 31) then u32 i else u32 i + (2 ^ 64 - 2 ^ 32)

-- The test of the bitmap at a place of the rectangle.
unfoldable pub bitmap_bit : (ℕ → ℕ) → Vector2 → ℕ → ℕ → ℕ → Bool
bitmap_bit bitmap p init_x x y =
    let byte = int32_offset (((x - p.x) + (y - p.y) * init_x) / 8) in
    ltb 0 (bit_and (bitmap byte) (128 / 2 ^ ((x - p.x) % 8)))

unfoldable pub draw_bmp :
    Renderer → Vector2 → Vector2 → Option (ℕ → ℕ) → ℕ → (ℕ → ℕ) → Vector2 × (ℕ → ℕ)
draw_bmp r position size none color pixels = (position, pixels)
draw_bmp r position size (some bitmap) color pixels =
    let p = clamp_draw_position r position in
    let init_x = u32 size.x in
    (
      p,
      paint r (λ x y old. if bitmap_bit bitmap p init_x x y then color else r.background_color) p
          (clip r p size) pixels,
    )

unfoldable pub draw_bmp_over :
    Renderer → Vector2 → Vector2 → Option (ℕ → ℕ) → ℕ → (ℕ → ℕ) → Vector2 × (ℕ → ℕ)
draw_bmp_over r position size none color pixels = (position, pixels)
draw_bmp_over r position size (some bitmap) color pixels =
    let p = clamp_draw_position r position in
    let init_x = u32 size.x in
    (
      p,
      paint r (λ x y old. if bitmap_bit bitmap p init_x x y then color else old) p (clip r p size)
          pixels,
    )

unfoldable pub clear : Renderer → (ℕ → ℕ) → ℕ → ℕ
clear r pixels =
    paint r (λ x y old. r.background_color) (vec 0 0) (vec r.pixel_width r.pixel_height) pixels

unfoldable pub cret : Vector2 → Vector2
cret position = vec 0 position.y

unfoldable pub newl : Renderer → Vector2 → Vector2
newl r position = vec position.x (add64 position.y r.character_size)

unfoldable pub crlf : Renderer → Vector2 → Vector2
crlf r position = vec 0 (add64 position.y r.character_size)

-- `drawChar` and `putChar`, for a character that is not negative: the glyphs lie behind each other in the font.
unfoldable pub draw_char : Renderer → (ℕ → ℕ) → Vector2 → ℕ → ℕ → (ℕ → ℕ) → Vector2 × (ℕ → ℕ)
draw_char r glyphs position c color pixels =
    draw_bmp r position (vec 8 r.character_size) (some (λ i. glyphs (c * r.character_size + i)))
      color pixels

unfoldable pub put_char : Renderer → (ℕ → ℕ) → Vector2 → ℕ → ℕ → (ℕ → ℕ) → Vector2 × (ℕ → ℕ)
put_char r glyphs position c color pixels =
    let (p, drawn) = draw_char r glyphs position c color pixels in
    let moved = vec (add64 p.x 8) p.y in
    (if ltb r.pixel_width (add64 moved.x 8) then crlf r moved else moved, drawn)

unfoldable pub clear_char : Renderer → Vector2 → (ℕ → ℕ) → Vector2 × (ℕ → ℕ)
clear_char r position pixels =
    let back =
      if ltb position.x 8
      then if leb r.character_size position.y
        then vec r.pixel_width (position.y - r.character_size)
        else vec 8 0
      else position in
    draw_rect r (vec (sub64 back.x 8) back.y) (vec 8 r.character_size) r.background_color pixels
