-- ===== src/Cstr.antt =====
-- Strings of numbers, kernel/cstr.cc: `strlen`, `strcmp`, `to_string` and `to_hexstring`. A buffer or a string
-- is a function from indices to characters; a loop is given a number of rounds.
pub mod Decimal
pub mod Signed
pub mod Hex
pub mod Compare
mod Tests
use eterna.Base.{
  ℕ, zero, suc, ◌+◌, ◌-◌, ◌*◌, ◌/◌, ◌%◌, ◌^◌, bit_and, Bool, true, false, not, Option, none, some,
  List, [], ◌∷◌, ltb, leb, ◌==◌, if◌then◌else◌, get_or, u8, ◌>>>◌,
}

unfoldable pub put : (ℕ → ℕ) → ℕ → ℕ → ℕ → ℕ
put buf i c j = if j == i then c else buf j

-- The first loop of `to_string`: how often the value is divided by ten.
unfoldable pub length_loop : ℕ → ℕ → ℕ → ℕ
length_loop zero val_cpy length = length
length_loop (suc rounds) val_cpy length =
    let rest = length_loop rounds (val_cpy / 10) (u8 (length + 1)) in
    if ltb 0 (val_cpy / 10) then rest else length

-- The second loop and the last digit behind it.
unfoldable pub digit_loop : ℕ → ℕ → ℕ → ℕ → (ℕ → ℕ) → ℕ → ℕ
digit_loop zero value length index buf = buf
digit_loop (suc rounds) value length index buf =
    let written = put buf (length - index) (value % 10 + 48) in
    let rest = digit_loop rounds (value / 10) length (u8 (index + 1)) written in
    if ltb 0 (value / 10) then rest else written

-- `TO_STRING_BUF_SZ`, the size of the buffers, include/cstr.hpp.
abbrev pub to_string_buf_sz : ℕ
to_string_buf_sz = 20

-- The digits and the terminator of a value, behind a sign or not.
unfoldable pub write_digits : ℕ → ℕ → (ℕ → ℕ) → ℕ → ℕ
write_digits is_negative value buf =
    let length = length_loop 20 value 0 in
    put (digit_loop 20 value (is_negative + length) 0 buf) (is_negative + length + 1) 0

-- `none` where the terminator is written behind the end of the buffer.
unfoldable pub within_buffer : ℕ → ℕ → (ℕ → ℕ) → Option (ℕ → ℕ)
within_buffer is_negative value buf =
    if leb to_string_buf_sz (is_negative + length_loop 20 value 0 + 1)
    then none
    else some (write_digits is_negative value buf)

-- `to_string(uint64_t)`: the buffer after it.
unfoldable pub to_string : ℕ → (ℕ → ℕ) → Option (ℕ → ℕ)
to_string value buf = within_buffer 0 value buf

-- `to_string(int64_t)` of a value in two's complement. Negating the least value overflows, which C++ does not define:
-- `none` as well.
unfoldable pub magnitude : ℕ → ℕ
magnitude value = if leb (2 ^ 63) value then 2 ^ 64 - value else value

unfoldable pub to_string_signed : ℕ → (ℕ → ℕ) → Option (ℕ → ℕ)
to_string_signed value buf =
    if value == 2 ^ 63
    then none
    else if leb (2 ^ 63) value
    then within_buffer 1 (magnitude value) (put buf 0 b'-')
    else within_buffer 0 (magnitude value) buf

abbrev pub hexmap : List ℕ
hexmap = 48 ∷ 49 ∷ 50 ∷ 51 ∷ 52 ∷ 53 ∷ 54 ∷ 55 ∷ 56 ∷ 57 ∷ 97 ∷ 98 ∷ 99 ∷ 100 ∷ 101 ∷ 102 ∷ []

abbrev pub hexmap_capital : List ℕ
hexmap_capital = 48 ∷ 49 ∷ 50 ∷ 51 ∷ 52 ∷ 53 ∷ 54 ∷ 55 ∷ 56 ∷ 57 ∷ 65 ∷ 66 ∷ 67 ∷ 68 ∷ 69 ∷ 70 ∷ []

-- The loop of `to_hexstring`, at the digit `n - 1` and the index `i`.
unfoldable pub hex_loop : ℕ → ℕ → Bool → ℕ → (ℕ → ℕ) → ℕ → ℕ
hex_loop zero value capital i buf = put buf i 0
hex_loop (suc n) value capital i buf =
    let tmp = bit_and (value >>> (n * 4)) 0xf in
    hex_loop n value capital (i + 1)
      (put buf i (if capital then get_or hexmap_capital tmp 0 else get_or hexmap tmp 0))

unfoldable pub to_hexstring : ℕ → Bool → (ℕ → ℕ) → ℕ → ℕ
to_hexstring value capital buf = hex_loop 16 value capital 0 buf

-- `strlen` counts the terminator; `none` is a string that has none within the rounds.
unfoldable pub strlen_loop : ℕ → (ℕ → ℕ) → ℕ → ℕ → Option ℕ
strlen_loop zero a at out = none
strlen_loop (suc rounds) a at out =
    let rest = strlen_loop rounds a (at + 1) (out + 1) in if a at == 0 then some (out + 1) else rest

unfoldable pub strlen : ℕ → (ℕ → ℕ) → Option ℕ
strlen rounds a = strlen_loop rounds a 0 0

unfoldable pub strcmp_loop : (ℕ → ℕ) → (ℕ → ℕ) → ℕ → ℕ → Bool
strcmp_loop a b i zero = true
strcmp_loop a b i (suc left) =
    let rest = strcmp_loop a b (i + 1) left in if not (a i == b i) then false else rest

unfoldable pub strcmp : (ℕ → ℕ) → (ℕ → ℕ) → ℕ → Bool
strcmp a b length = strcmp_loop a b 0 length
