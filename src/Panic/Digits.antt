-- ===== src/Panic/Digits.antt =====
-- The digits of a reported number.
use eterna.Base.{ℕ, ◌+◌, ◌*◌, List, [], ◌∷◌}
use eterna.Cstr.Hex.{hex_digit}

-- The number that a text spells in sixteen digits a place, behind one that was read already.
abbrev pub spelled : List ℕ → ℕ → ℕ
spelled [] number = number
spelled (c ∷ cs) number = spelled cs (number * 16 + hex_digit c)
