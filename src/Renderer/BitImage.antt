-- ===== src/Renderer/BitImage.antt =====
-- Bitmaps as images of one bit a pixel, and what is drawn of them.
use eterna.Base.{ℕ, ◌-◌, ◌/◌, ◌%◌, ◌^◌, Bool, ◌==◌}
use eterna.Renderer.{Renderer}

-- The bits of a bitmap in order: those of a byte from the highest down, and byte after byte.
abbrev pub stored_bit : (ℕ → ℕ) → ℕ → Bool
stored_bit bitmap k = bitmap (k / 8) / 2 ^ (7 - k % 8) % 2 == 1
