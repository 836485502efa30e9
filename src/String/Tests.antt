-- ===== src/String/Tests.antt =====
-- Strings at concrete values: `abc` at 0x1000 and `de` at 0x2000, each with its terminator.
use eterna.Base.{
  ℕ, ◌⊎◌, ◌<◌, ◌+◌, ◌≡◌, false, refl, inl, some, [], ◌∷◌, ◌++◌, arith, ◌==◌, if◌then◌else◌,
}
use eterna.String.{String, Memory, left, right, append, append_cstr, chop}
use eterna.String.Bytes.{chars}
use eterna.String.Append.{IsText, Holds, append_cstr-Holds, append-chars}
use eterna.String.Chop.{chop-chars}

abbrev memory : Memory
memory p =
    if p == 0x1000
    then b'a'
    else if p == 0x1001
    then b'b'
    else if p == 0x1002
    then b'c'
    else if p == 0x2000
    then b'd'
    else if p == 0x2001
    then b'e'
    else 0

abbrev abc : String
abc = record { buffer = 0x1000; length = 3 }

abbrev de : String
de = record { buffer = 0x2000; length = 2 }

abc-IsText : IsText memory 0x1000 3
abc-IsText = (refl, λ j lt e. ground arith)

de-IsText : IsText memory 0x2000 2
de-IsText = (refl, λ j lt e. ground arith)

append_cstr-Holds_example :
    (m' : Memory) × (t : String) × (append_cstr 10 memory abc 0x2000 0x3000 ≡ some (m', t))
    × Holds (b'a' ∷ b'b' ∷ b'c' ∷ b'd' ∷ b'e' ∷ []) m' t
    × (((◌≡◌ {A = ℕ} 2 0) × (m' ≡ memory) × (t ≡ abc))
        ⊎ ((◌<◌ 0 2) × (t ≡ record { buffer = 0x3000; length = 5 })))
append_cstr-Holds_example =
    append_cstr-Holds memory abc 0x2000 2 0x3000 (omega arith) refl (omega arith) (omega arith)
      (inl (omega arith)) (inl (omega arith)) 10 de-IsText (omega arith)

chop-chars_example :
    (ml mr : Memory) × (l r : String) × (chop 10 memory abc 1 left 0x3000 ≡ some (ml, l))
    × (chop 10 memory abc 1 right 0x4000 ≡ some (mr, r))
    × (l.length ≡ 1)
    × (chars memory abc ≡ chars ml l ++ chars mr r)
    × (ml (l.buffer + l.length) ≡ 0)
    × (mr (r.buffer + r.length) ≡ 0)
chop-chars_example =
    chop-chars memory abc 1 abc-IsText (omega arith) (omega arith) 10 0x3000 0x4000 (omega arith)
      (omega arith) (inl (omega arith)) (omega arith) (inl (omega arith))

append-chars_example :
    let (m', t) = append memory abc de false 0x3000 in
    chars m' t ≡ chars memory abc ++ chars memory de
append-chars_example =
    append-chars memory abc de 0x3000 (omega arith) (omega arith) (omega arith) (inl (omega arith))
      (inl (omega arith))
