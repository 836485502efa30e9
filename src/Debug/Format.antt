-- ===== src/Debug/Format.antt =====
-- A format that is spelled from pieces prints piece by piece.
use eterna.Base.{ℕ, ◌+◌, ◌≡◌, Bool, true, false, ◌&&◌, List, [], ◌∷◌, ◌++◌, ◌==◌}
use eterna.Debug.{
  Kind, c_string, string_class, hex, float_number, character, boolean, signed, unsigned, Message,
  print_char, message, next,
}

-- The formats that the header lists, by the letters behind the `%`.
pub data Format : Type 0 where
  s c b hhu hu u ul ull hhi hi i il ill f x p sl : Format

abbrev pub letters : Format → List ℕ
letters s = b's' ∷ []
letters c = b'c' ∷ []
letters b = b'b' ∷ []
letters hhu = b'h' ∷ b'h' ∷ b'u' ∷ []
letters hu = b'h' ∷ b'u' ∷ []
letters u = b'u' ∷ []
letters ul = b'u' ∷ b'l' ∷ []
letters ull = b'u' ∷ b'l' ∷ b'l' ∷ []
letters hhi = b'h' ∷ b'h' ∷ b'i' ∷ []
letters hi = b'h' ∷ b'i' ∷ []
letters i = b'i' ∷ []
letters il = b'i' ∷ b'l' ∷ []
letters ill = b'i' ∷ b'l' ∷ b'l' ∷ []
letters f = b'f' ∷ []
letters x = b'x' ∷ []
letters p = b'p' ∷ []
letters sl = b's' ∷ b'l' ∷ []

abbrev pub kind_of : Format → Kind
kind_of s = c_string
kind_of c = character
kind_of b = boolean
kind_of hhu = unsigned 8
kind_of hu = unsigned 16
kind_of u = unsigned 32
kind_of ul = unsigned 32
kind_of ull = unsigned 64
kind_of hhi = signed 8
kind_of hi = signed 16
kind_of i = signed 32
kind_of il = signed 32
kind_of ill = signed 64
kind_of f = float_number
kind_of x = hex
kind_of p = hex
kind_of sl = string_class

-- Whether an `l` behind the letters would make another format of them.
abbrev pub is_open : Format → Bool
is_open s = true
is_open u = true
is_open ul = true
is_open i = true
is_open il = true
is_open _ = false

-- A message in pieces: a character as it stands, or a format.
pub data Piece : Type 0 where
  text : ℕ → Piece
  format : Format → Piece

abbrev pub spell : List Piece → List ℕ
spell [] = []
spell (text k ∷ pieces) = k ∷ spell pieces
spell (format form ∷ pieces) = b'%' ∷ (letters form ++ spell pieces)

-- The text has no `%`, and no escape where colour codes are hidden; no format runs into the letter behind it.
abbrev pub IsPlain : Bool → List Piece → Type 0
IsPlain hide [] = Unit {0}
IsPlain hide (text k ∷ pieces) =
    ((k == b'%') ≡ false) × ((hide && k == 27) ≡ false) × IsPlain hide pieces
IsPlain hide (format form ∷ pieces) =
    ((is_open form && next (spell pieces) == b'l') ≡ false) × IsPlain hide pieces

-- What the pieces print, with the number of the next argument.
abbrev pub printed : (ℕ → ℕ) → List Piece → ℕ → List Message
printed args [] n = []
printed args (text k ∷ pieces) n = print_char k ∷ printed args pieces n
printed args (format form ∷ pieces) n =
    message (kind_of form) (args n) ∷ printed args pieces (n + 1)
