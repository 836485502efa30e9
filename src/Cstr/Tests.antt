-- ===== src/Cstr/Tests.antt =====
-- Strings at concrete values.
use eterna.Base.{none, ◌⊎◌, ℕ, ◌-◌, ◌^◌, ◌≤◌, ◌<◌, ◌≡◌, refl, arith, some, ◌==◌, if◌then◌else◌}
use eterna.Cstr.{to_string, strlen, to_string_signed}
use eterna.Cstr.Signed.{Written, to_string_signed-Written}
use eterna.Cstr.Decimal.{IsDecimal, to_string-IsDecimal}
use eterna.Cstr.Compare.{strlen-terminator}

abbrev blank : ℕ → ℕ
blank j = 7

to_string-IsDecimal_example :
    ((10 ^ 19 ≤ 4096) × (to_string 4096 blank ≡ none))
    ⊎ ((4096 < 10 ^ 19)
        × ((out : ℕ → ℕ) × (n : ℕ) × (to_string 4096 blank ≡ some out)
            × IsDecimal 4096 blank out n))
to_string-IsDecimal_example = to_string-IsDecimal 4096 blank (omega arith)

-- Three characters and a terminator.
abbrev word : ℕ → ℕ
word j = if j == 3 then 0 else 65

strlen-terminator_example : strlen 10 word ≡ some 4
strlen-terminator_example = strlen-terminator 10 word 3 refl (λ j p. ground arith) (omega arith)

-- The pattern of -42.
to_string_signed-Written_example :
    Written (2 ^ 64 - 42) blank (to_string_signed (2 ^ 64 - 42) blank)
to_string_signed-Written_example = to_string_signed-Written (2 ^ 64 - 42) blank (omega arith)
