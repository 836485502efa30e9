-- ===== src/Uart/Reader.antt =====
-- What a reader sees of a text whose colour codes are hidden.
use eterna.Base.{ℕ, Bool, true, false, ◌||◌, List, [], ◌∷◌, ◌==◌, if◌then◌else◌}
use eterna.Uart.{Uart}
use eterna.Uart.Text.{Mode, plain, code, behind_code}

-- The text without its colour codes: each goes from an escape to the next `m`. The Boolean says whether the place is
-- in a code.
unfoldable pub without_codes : Bool → List ℕ → List ℕ
without_codes in_code [] = []
without_codes false (c ∷ cs) = if c == 27 then without_codes true cs else c ∷ without_codes false cs
without_codes true (c ∷ cs) = if c == b'm' then without_codes false cs else without_codes true cs

-- Whether a colour code begins right behind another one.
unfoldable pub has_adjoining : Mode → List ℕ → Bool
has_adjoining plain [] = false
has_adjoining code [] = false
has_adjoining behind_code [] = false
has_adjoining plain (c ∷ cs) = if c == 27 then has_adjoining code cs else has_adjoining plain cs
has_adjoining code (c ∷ cs) =
    if c == b'm' then has_adjoining behind_code cs else has_adjoining code cs
has_adjoining behind_code (c ∷ cs) = c == 27 || has_adjoining plain cs

abbrev in_code : Mode → Bool
in_code plain = false
in_code code = true
in_code behind_code = false
