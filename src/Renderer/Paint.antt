-- ===== src/Renderer/Paint.antt =====
-- The drawing loops change the pixels of their rectangle and no other.
use eterna.Base.{
  ℕ, zero, suc, ◌+◌, ◌*◌, ◌≤◌, ◌<◌, ◌≡◌, ◌∙◌, refl, ap, arith, ◌&&◌, ltb, leb, ◌==◌, if◌then◌else◌,
  Bool-cases, inl, inr,
}
use eterna.Renderer.{Vector2, Renderer, column_loop, row_loop, paint}

-- A column and a row give one index only.
cell_below : (w u v x y : ℕ) → u < w → v < y → u + v * w < x + y * w
cell_below w u v x y small below = grind arith

cell_apart : (w u v x y : ℕ) → u < w → x < w → (u + v * w == x + y * w) ≡ ((v == y) && (u == x))
cell_apart w u v x y a b = elim (Bool-cases (v == y)) [
  | inl same ↦ let e : v ≡ y = ground arith in ground (arith, ap (λ (t : ℕ). t * w) e)
  | inr other ↦ elim (Bool-cases (ltb v y)) [
    | inl before ↦ ground (arith, cell_below w u v x y a (ground arith))
    | inr behind ↦ ground (arith, cell_below w x y u v b (ground arith))
  ]
]

module _ (f : ℕ → ℕ → ℕ → ℕ) (stride : ℕ) where
  column_loop_lem :
      (left x y u v : ℕ) (pixels : ℕ → ℕ)
      → u < stride
      → x + left ≤ stride
      → column_loop f stride y left x pixels (u + v * stride) ≡ (
          if (v == y) && (leb x u && ltb u (x + left))
          then f u v (pixels (u + v * stride))
          else pixels (u + v * stride))
  unfolding column_loop
  column_loop_lem zero x y u v pixels small fits = ground arith
  column_loop_lem (suc left) x y u v pixels small fits =
      let step : ℕ → ℕ = λ i. if i == x + y * stride then f x y (pixels i) else pixels i in
      let rest = column_loop_lem left (x + 1) y u v step small (omega arith) in
      let cell = cell_apart stride u v x y small (omega arith) in
      elim (Bool-cases ((v == y) && (u == x))) [
        | inl here ↦
            let row : v ≡ y = ground (arith, here) in
            let column : u ≡ x = ground (arith, here) in
            let same : f x y (pixels (u + v * stride)) ≡ f u v (pixels (u + v * stride)) =
              rw (row, column) refl in
            rest ∙ ground (arith, cell, here, same, row, column)
        | inr away ↦ rest ∙ ground (arith, cell, away)
      ]

  pub row_loop_lem :
      (left x width y u v : ℕ) (pixels : ℕ → ℕ)
      → u < stride
      → x + width ≤ stride
      → row_loop f stride x width left y pixels (u + v * stride) ≡ (
          if (leb y v && ltb v (y + left)) && (leb x u && ltb u (x + width))
          then f u v (pixels (u + v * stride))
          else pixels (u + v * stride))
  unfolding row_loop
  row_loop_lem zero x width y u v pixels small fits = ground arith
  row_loop_lem (suc left) x width y u v pixels small fits =
      let rest =
        row_loop_lem left x width (y + 1) u v (column_loop f stride y width x pixels) small fits in
      let here = column_loop_lem width x y u v pixels small fits in
      elim (Bool-cases (v == y)) [
        | inl same ↦ rest ∙ ground (arith, here, same)
        | inr other ↦ rest ∙ ground (arith, here, other)
      ]

-- The loops give each pixel of the rectangle its new value, and leave the others of the scan lines.
pub paint-rectangle :
    (r : Renderer) (f : ℕ → ℕ → ℕ → ℕ) (position size : Vector2) (pixels : ℕ → ℕ) (u v : ℕ)
    → u < r.pixels_per_scan_line
    → position.x + size.x ≤ r.pixels_per_scan_line
    → paint r f position size pixels (u + v * r.pixels_per_scan_line) ≡ (
        if (leb position.y v && ltb v (position.y + size.y))
          && (leb position.x u && ltb u (position.x + size.x))
        then f u v (pixels (u + v * r.pixels_per_scan_line))
        else pixels (u + v * r.pixels_per_scan_line))
unfolding paint
paint-rectangle r f position size pixels u v small fits =
    row_loop_lem f r.pixels_per_scan_line size.y position.x size.x position.y u v pixels small fits
