-- ===== src/Mem/Tests.antt =====
-- The byte routines at concrete values.
use eterna.Base.{ℕ, ◌+◌, ◌-◌, ◌≡◌, ◌&&◌, arith, leb, ltb, if◌then◌else◌, inr, ◌%◌}
use eterna.Mem.{memset, memcpy}
use eterna.Mem.Set.{memset-range}
use eterna.Mem.Copy.{memcpy-range}

abbrev pattern_at : ℕ → ℕ
pattern_at j = j % 256

memset-range_example :
    memset pattern_at 0x1000 0 4096 0x1800
    ≡ (if leb 0x1000 0x1800 && ltb 0x1800 (0x1000 + 4096) then 0 else pattern_at 0x1800)
memset-range_example = memset-range pattern_at 0x1000 0 4096 0x1800 (omega arith)

memcpy-range_example : memcpy pattern_at 0x1001 0x2000 16 0x2003 ≡ (
    if leb 0x2000 0x2003 && ltb 0x2003 (0x2000 + 16)
    then pattern_at (0x1001 + (0x2003 - 0x2000))
    else pattern_at 0x2003)
memcpy-range_example =
    memcpy-range pattern_at 0x1001 0x2000 16 0x2003 (omega arith) (omega arith) (omega arith)
      (omega arith) (inr (omega arith))
