-- ===== src/Bitmap/Tests.antt =====
-- The bitmap at concrete values.
use eterna.Base.{◌≡◌, refl, true, false, if◌then◌else◌, ltb, ◌==◌, ◌&&◌, ◌*◌}
use eterna.Bitmap.{Bitmap, init, get, set}
use eterna.Bitmap.Laws.{IsValid, init-IsValid, get-set, set-IsValid}

abbrev small : Bitmap
small = init 2 0x1000

get-set_example :
    get (set small 9 true).0 9 ≡ (if ltb 9 (small.size * 8) && 9 == 9 then true else get small 9)
get-set_example = get-set (init-IsValid 2 0x1000) 9 true 9

set-IsValid_example : IsValid (set small 9 true).0
set-IsValid_example = set-IsValid (init-IsValid 2 0x1000) 9 true

set_bit : get (set small 9 true).0 9 ≡ true
unfolding init get set eterna.Bitmap.byte_test eterna.Bitmap.byte_write
set_bit = refl

other_bit : get (set small 9 true).0 8 ≡ false
unfolding init get set eterna.Bitmap.byte_test eterna.Bitmap.byte_write
other_bit = refl
