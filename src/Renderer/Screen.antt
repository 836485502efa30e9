-- ===== src/Renderer/Screen.antt =====
-- The two framebuffers, kernel/renderer/renderer.cc: reading pixels back, copying a rectangle to the screen and
-- clearing one there. The constructor makes `Target` a copy of `Render`, so both have one size and pitch.
use eterna.Base.{
  ℕ, ◌+◌, ◌-◌, ◌*◌, ◌^◌, ◌≤◌, ◌<◌, ◌≡◌, ◌∙◌, refl, ap, arith, Bool, true, false, not, ◌&&◌, Option,
  none, some, ltb, leb, if◌then◌else◌, Bool-cases, inl, inr, u32, add64,
}
use eterna.Renderer.{
  Vector2, vec, Renderer, clamp_draw_position, clip, row_loop, paint, draw_pix, draw_bmp_over,
}
use eterna.Renderer.Paint.{paint-rectangle, row_loop_lem}
use eterna.Renderer.Shapes.{IsScreen, and_swap, visible, cell, draw_pix-visible}

-- `readpix`: the buffer after it, filled from the rectangle's corner on. A null buffer is `none`.
unfoldable pub readpix :
    Renderer → Vector2 → Vector2 → Option (ℕ → ℕ) → (ℕ → ℕ) → Vector2 × Option (ℕ → ℕ)
readpix r position size none pixels = (position, none)
readpix r position size (some buffer) pixels =
    let p = clamp_draw_position r position in
    let s = clip r p size in
    (
      p,
      some (
          row_loop (λ x y old. pixels ((p.x + x) + (p.y + y) * r.pixels_per_scan_line)) (u32 size.x)
            0 s.x s.y 0 buffer),
    )

-- What is left of `size` at a position on the screen, on `uint64_t`: no difference wraps there.
unfoldable pub within : Renderer → Vector2 → Vector2 → Vector2
within r position size =
    let diff_x = r.pixel_width - position.x in
    let diff_y = r.pixel_height - position.y in
    vec (if ltb diff_x size.x then diff_x else size.x)
      (if ltb diff_y size.y then diff_y else size.y)

-- The pixels of `Render` after lines of the rectangle have been written, if its position is on the screen.
unfoldable pub on_render : Renderer → (ℕ → ℕ → ℕ → ℕ) → Vector2 → Vector2 → (ℕ → ℕ) → ℕ → ℕ
on_render r f position size render =
    if ltb r.pixel_width position.x
    then render
    else (if ltb r.pixel_height position.y
        then render
        else paint r f position (within r position size) render)

-- `swap` of a rectangle; `shared` where both framebuffers are at one address. Pixels are copied whole.
unfoldable pub swap : Renderer → Bool → (ℕ → ℕ) → Vector2 → Vector2 → (ℕ → ℕ) → ℕ → ℕ
swap r shared target position size render =
    if shared
    then render
    else on_render r (λ x y old. target (x + y * r.pixels_per_scan_line)) position size render

unfoldable pub clear_rectangle : Renderer → Vector2 → Vector2 → (ℕ → ℕ) → ℕ → ℕ
clear_rectangle r position size render =
    on_render r (λ x y old. r.background_color) position size render

unfoldable pub clear_color : Renderer → Vector2 → Vector2 → ℕ → (ℕ → ℕ) → Renderer × (ℕ → ℕ)
clear_color r position size color render =
    let coloured = record r { background_color = color } in
    (coloured, clear_rectangle coloured position size render)

-- `drawCharOver`, for a character that is not negative.
unfoldable pub draw_char_over : Renderer → (ℕ → ℕ) → Vector2 → ℕ → ℕ → (ℕ → ℕ) → Vector2 × (ℕ → ℕ)
draw_char_over r glyphs position c color pixels =
    draw_bmp_over r position (vec 8 r.character_size)
      (some (λ i. glyphs (c * r.character_size + i))) color pixels

unfoldable pub crlf_offset : Renderer → Vector2 → ℕ → Vector2
crlf_offset r position offset = vec offset (add64 position.y r.character_size)

-- Clipping along one axis, at a position on the screen.
axis_within :
    (a s w u : ℕ)
    → a ≤ w
    → (leb a u && ltb u (a + (if ltb (w - a) s then w - a else s)))
      ≡ (leb a u && ltb u (a + s) && ltb u w)
axis_within a s w u on = ground arith

axis_off : (a s w u : ℕ) → w < a → (leb a u && ltb u (a + s) && ltb u w) ≡ false
axis_off a s w u off = ground arith

module _ (r : Renderer) (position size : Vector2) (render : ℕ → ℕ) (u v : ℕ)
    (lines : r.pixel_width ≤ r.pixels_per_scan_line) (on_line : u < r.pixels_per_scan_line) where
  on_render-visible :
      (f : ℕ → ℕ → ℕ → ℕ)
      → on_render r f position size render (cell r u v)
        ≡ (if visible r position size u v then f u v (render (cell r u v)) else render (cell r u v))
  unfolding on_render within
  on_render-visible f = elim (Bool-cases (ltb r.pixel_width position.x)) [
    | inl off ↦ rw (off, axis_off position.x size.x r.pixel_width u (ground (arith, off))) refl
    | inr on ↦ elim (Bool-cases (ltb r.pixel_height position.y)) [
      | inl under ↦
          let nothing = axis_off position.y size.y r.pixel_height v (ground (arith, under)) in
          rw
            (
              on,
              under,
              nothing,
              and_swap (leb position.x u && ltb u (position.x + size.x) && ltb u r.pixel_width)
                  false,
            )
            refl
      | inr over ↦
          let fits : position.x + (within r position size).x ≤ r.pixels_per_scan_line =
            ground (arith, on, lines) in
          let rows = axis_within position.y size.y r.pixel_height v (ground (arith, over)) in
          let columns = axis_within position.x size.x r.pixel_width u (ground (arith, on)) in
          let drawn =
            paint-rectangle r f position (within r position size) render u v on_line fits in
          let both =
            and_swap (leb position.y v && ltb v (position.y + size.y) && ltb v r.pixel_height)
              (leb position.x u && ltb u (position.x + size.x) && ltb u r.pixel_width) in
          rw (on, over)
            (drawn
              ∙ ap (λ b. if b then f u v (render (cell r u v)) else render (cell r u v))
                  (rw (rows, columns) both))
    ]
  ]

  -- On a screen whose lines hold its width, swapping a rectangle copies from the target the pixels of the
  -- rectangle that are on the screen and no other, unless the framebuffers are one; clearing a
  -- rectangle gives these pixels the background.
  pub swap-visible :
      (shared : Bool) (target : ℕ → ℕ)
      → (swap r shared target position size render (cell r u v) ≡ (
          if not shared && visible r position size u v
          then target (cell r u v)
          else render (cell r u v)))
        × (clear_rectangle r position size render (cell r u v)
            ≡ (if visible r position size u v then r.background_color else render (cell r u v)))
  unfolding swap clear_rectangle
  swap-visible true target = (refl, on_render-visible (λ x y old. r.background_color))
  swap-visible false target = (
    on_render-visible (λ x y old. target (x + y * r.pixels_per_scan_line)),
    on_render-visible (λ x y old. r.background_color),
  )

module _ (r : Renderer) (screen : IsScreen r) (position size : Vector2) (narrow : size.x < 2 ^ 32)
    (buffer pixels : ℕ → ℕ) (u v : ℕ) where
  abbrev corner : Vector2
  corner = clamp_draw_position r position

  abbrev size_left : Vector2
  size_left = clip r corner size

  -- Where a pixel on the screen lies in the rectangle that is left.
  record Inside : Type 0 where
    column : corner.x ≤ u
    column_end : u < corner.x + size_left.x
    row : corner.y ≤ v
    row_end : v < corner.y + size_left.y
    fits : size_left.x ≤ u32 size.x

  visible-Inside : visible r position size u v ≡ true → Inside
  unfolding clamp_draw_position clip
  visible-Inside on = record {
    column = ground (arith, on);
    column_end = ground (arith, on, screen.width);
    row = ground (arith, on);
    row_end = ground (arith, on, screen.height);
    fits = ground (arith, narrow);
  }

  -- The loop writes the pixel to its place in the buffer.
  saved :
      Inside
      → row_loop
          (λ x y old. pixels ((corner.x + x) + (corner.y + y) * r.pixels_per_scan_line))
          (u32 size.x)
          0
          size_left.x
          size_left.y
          0
          buffer
          ((u - corner.x) + (v - corner.y) * u32 size.x)
        ≡ pixels (cell r u v)
  saved here =
      let across : corner.x + (u - corner.x) ≡ u = omega (arith, here.column) in
      let down : corner.y + (v - corner.y) ≡ v = omega (arith, here.row) in
      let same : pixels
            ((corner.x + (u - corner.x)) + (corner.y + (v - corner.y)) * r.pixels_per_scan_line)
          ≡ pixels (cell r u v) =
        rw (across, down) refl in
      let written =
        row_loop_lem (λ x y old. pixels ((corner.x + x) + (corner.y + y) * r.pixels_per_scan_line))
          (u32 size.x) size_left.y 0 size_left.x 0 (u - corner.x) (v - corner.y) buffer
          (omega (arith, here.column, here.column_end, here.fits)) (omega (arith, here.fits)) in
      written ∙ ground (arith, same, here.column, here.column_end, here.row, here.row_end)

  -- On a screen whose lines hold its width and whose sizes are 32-bit numbers, drawPix of what readpix has
  -- read at a place, with a size whose width is a 32-bit number, gives the pixels there back: every
  -- pixel of the rectangle on the screen is as it was when it was read, and no other is changed.
  pub draw_pix-readpix :
      (other : ℕ → ℕ)
      → u < r.pixels_per_scan_line
      → (draw_pix r position size ((readpix r position size (some buffer) pixels).1) other).1
          (cell r u v)
        ≡ (if visible r position size u v then pixels (cell r u v) else other (cell r u v))
  unfolding readpix
  draw_pix-readpix other on_line =
      let source : ℕ → ℕ =
        row_loop (λ x y old. pixels ((corner.x + x) + (corner.y + y) * r.pixels_per_scan_line))
          (u32 size.x) 0 size_left.x size_left.y 0 buffer in
      let drawn = draw_pix-visible r screen position size other u v on_line source in
      elim (Bool-cases (visible r position size u v)) [
        | inl on ↦ drawn ∙ rw on (saved (visible-Inside on))
        | inr off ↦ drawn ∙ rw off refl
      ]
