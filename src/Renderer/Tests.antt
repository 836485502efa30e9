-- ===== src/Renderer/Tests.antt =====
-- Drawing at concrete values: a screen of 640 by 480 in lines of 640.
use eterna.Base.{◌≡◌, arith, false, some, if◌then◌else◌}
use eterna.Renderer.{Renderer, vec, draw_pix}
use eterna.Renderer.Shapes.{IsScreen, visible, cell}
use eterna.Renderer.Screen.{readpix, swap, clear_rectangle, swap-visible, draw_pix-readpix}

abbrev screen : Renderer
screen = record {
  pixel_width = 640;
  pixel_height = 480;
  pixels_per_scan_line = 640;
  character_size = 16;
  background_color = 0;
}

screen-IsScreen : IsScreen screen
screen-IsScreen = record { lines = omega arith; width = omega arith; height = omega arith }

swap-visible_example :
    (swap screen false (λ i. 5) (vec 600 400) (vec 100 100) (λ i. 7) (cell screen 635 475)
      ≡ (if visible screen (vec 600 400) (vec 100 100) 635 475 then 5 else 7))
    × (clear_rectangle screen (vec 600 400) (vec 100 100) (λ i. 7) (cell screen 635 475)
        ≡ (if visible screen (vec 600 400) (vec 100 100) 635 475 then 0 else 7))
swap-visible_example =
    swap-visible screen (vec 600 400) (vec 100 100) (λ i. 7) 635 475 (omega arith) (omega arith)
      false (λ i. 5)

draw_pix-readpix_example :
    (draw_pix screen
        (vec 632 470)
        (vec 16 16)
        ((readpix screen (vec 632 470) (vec 16 16) (some (λ i. 0)) (λ i. i)).1)
        (λ i. 7)).1
      (cell screen 635 475)
    ≡ (if visible screen (vec 632 470) (vec 16 16) 635 475 then cell screen 635 475 else 7)
draw_pix-readpix_example =
    draw_pix-readpix screen screen-IsScreen (vec 632 470) (vec 16 16) (omega arith) (λ i. 0)
      (λ i. i) 635 475 (λ i. 7) (omega arith)
