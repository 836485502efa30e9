-- ===== src/Renderer/Shapes.antt =====
-- What the drawing functions leave on the screen: they stay within it, at any position and size.
use eterna.Base.{
  ℕ, ◌+◌, ◌-◌, ◌*◌, ◌^◌, ◌≤◌, ◌<◌, ◌≡◌, ◌∙◌, ap, arith, Bool, ◌&&◌, ltb, leb, if◌then◌else◌, some,
  u32,
}
use eterna.Renderer.{
  Vector2, Renderer, clamp_draw_position, clip, paint, draw_rect, draw_pix, bitmap_bit, draw_bmp,
  draw_bmp_over,
}
use eterna.Renderer.Paint.{paint-rectangle}

-- The screen's lines hold its width, and both sizes are 32-bit numbers.
pub record IsScreen (r : Renderer) : Type 0 where
  pub lines : r.pixel_width ≤ r.pixels_per_scan_line
  pub width : r.pixel_width < 2 ^ 32
  pub height : r.pixel_height < 2 ^ 32

-- A pixel of the rectangle that is on the screen.
abbrev pub visible : Renderer → Vector2 → Vector2 → ℕ → ℕ → Bool
visible r position size u v =
    (leb position.x u && ltb u (position.x + size.x) && ltb u r.pixel_width)
    && (leb position.y v && ltb v (position.y + size.y) && ltb v r.pixel_height)

-- The index of a pixel.
abbrev pub cell : Renderer → ℕ → ℕ → ℕ
cell r u v = u + v * r.pixels_per_scan_line

-- Clamping and clipping along one axis.
axis :
    (a s w u : ℕ)
    → w < 2 ^ 32
    → let a' = if ltb w a then w else a in
      let d = u32 (w - a') in
      (leb a' u && ltb u (a' + (if ltb d s then d else s))) ≡ (leb a u && ltb u (a + s) && ltb u w)
axis a s w u fits = ground arith

pub and_swap : (a b : Bool) → (a && b) ≡ (b && a)
and_swap a b = ground arith

module _ (r : Renderer) (screen : IsScreen r) (position size : Vector2) (pixels : ℕ → ℕ) (u v : ℕ)
    (on_line : u < r.pixels_per_scan_line) where
  abbrev pub p : Vector2
  p = clamp_draw_position r position

  clipped_fits : p.x + (clip r p size).x ≤ r.pixels_per_scan_line
  unfolding clamp_draw_position clip
  clipped_fits = ground (arith, screen.lines, screen.width)

  clipped_visible :
      ((leb p.y v && ltb v (p.y + (clip r p size).y))
        && (leb p.x u && ltb u (p.x + (clip r p size).x)))
      ≡ visible r position size u v
  unfolding clamp_draw_position clip
  clipped_visible =
      rw
        (
          axis position.y size.y r.pixel_height v screen.height,
          axis position.x size.x r.pixel_width u screen.width,
        )
        (and_swap (leb position.y v && ltb v (position.y + size.y) && ltb v r.pixel_height)
          (leb position.x u && ltb u (position.x + size.x) && ltb u r.pixel_width))

  paint-visible :
      (f : ℕ → ℕ → ℕ → ℕ)
      → paint r f p (clip r p size) pixels (cell r u v)
        ≡ (if visible r position size u v then f u v (pixels (cell r u v)) else pixels (cell r u v))
  paint-visible f =
      paint-rectangle r f p (clip r p size) pixels u v on_line clipped_fits
      ∙ ap (λ b. if b then f u v (pixels (cell r u v)) else pixels (cell r u v)) clipped_visible

  pub draw_rect-visible :
      (color : ℕ)
      → (draw_rect r position size color pixels).1 (cell r u v)
        ≡ (if visible r position size u v then color else pixels (cell r u v))
  unfolding draw_rect
  draw_rect-visible color = paint-visible (λ x y old. color)

  -- `drawPix` copies the pixels of its source that land on the screen.
  pub draw_pix-visible :
      (source : ℕ → ℕ)
      → (draw_pix r position size (some source) pixels).1 (cell r u v) ≡ (
          if visible r position size u v
          then source ((u - p.x) + (v - p.y) * u32 size.x)
          else pixels (cell r u v))
  unfolding draw_pix
  draw_pix-visible source = paint-visible (λ x y old. source ((x - p.x) + (y - p.y) * u32 size.x))

  pub draw_bmp-visible :
      (bitmap : ℕ → ℕ) (color : ℕ)
      → let bit = bitmap_bit bitmap p (u32 size.x) u v in
        let old = pixels (cell r u v) in
        ((draw_bmp r position size (some bitmap) color pixels).1 (cell r u v) ≡ (
          if visible r position size u v then (if bit then color else r.background_color) else old))
        × ((draw_bmp_over r position size (some bitmap) color pixels).1 (cell r u v)
            ≡ (if visible r position size u v then (if bit then color else old) else old))
  unfolding draw_bmp draw_bmp_over
  draw_bmp-visible bitmap color = (
    paint-visible
        (λ x y old. if bitmap_bit bitmap p (u32 size.x) x y then color else r.background_color),
    paint-visible (λ x y old. if bitmap_bit bitmap p (u32 size.x) x y then color else old),
  )
