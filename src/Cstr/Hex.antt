-- ===== src/Cstr/Hex.antt =====
-- `to_hexstring` writes sixteen digits that read back.
use eterna.Base.{
  ℕ, ◌-◌, ◌/◌, ◌%◌, ◌^◌, ◌<◌, bit_and, ◌≡◌, refl, arith, Bool, true, false, ◌&&◌, ltb, ◌==◌,
  if◌then◌else◌, get_or,
}
use eterna.Base.Table.{each_below, each_below_lem}
use eterna.Bits.{bit_and_ones}
use eterna.Cstr.{put, hexmap, hexmap_capital, hex_loop, to_hexstring}
use eterna.Cstr.Decimal.{read_number}

-- The value of a digit, in either case.
abbrev pub hex_digit : ℕ → ℕ
hex_digit c = if ltb c 58 then c - 48 else if ltb c 97 then c - 55 else c - 87

digits_table :
    each_below
      (λ d. (hex_digit (get_or hexmap d 0) == d) && (hex_digit (get_or hexmap_capital d 0) == d))
      16
    ≡ true
unfolding each_below
digits_table = refl

hex_char :
    (capital : Bool) (x : ℕ)
    → hex_digit (
        if capital
        then get_or hexmap_capital (bit_and x 0xf) 0
        else get_or hexmap (bit_and x 0xf) 0)
      ≡ x % 16
hex_char capital x =
    let d = x % 16 in
    let ok =
      each_below_lem
        (λ d. (hex_digit (get_or hexmap d 0) == d) && (hex_digit (get_or hexmap_capital d 0) == d))
        16 digits_table d (omega arith) in
    rw (bit_and_ones 4 x) (split_on capital d ok)
  where
    split_on :
        (capital : Bool) (d : ℕ)
        → ((hex_digit (get_or hexmap d 0) == d) && (hex_digit (get_or hexmap_capital d 0) == d))
          ≡ true
        → hex_digit (if capital then get_or hexmap_capital d 0 else get_or hexmap d 0) ≡ d
    split_on true d ok = ground (arith, ok)
    split_on false d ok = ground (arith, ok)

-- `to_hexstring` leaves sixteen hexadecimal digits that spell the value, in either case of letters, and
-- the terminator behind them.
pub to_hexstring-number :
    (v : ℕ) (capital : Bool) (buf : ℕ → ℕ)
    → v < 2 ^ 64
    → (read_number 16 hex_digit (to_hexstring v capital buf) 16 ≡ v)
      × (to_hexstring v capital buf 16 ≡ 0)
unfolding to_hexstring hex_loop put read_number
to_hexstring-number v capital buf fits = (
  rw
      (
        hex_char capital (v / 2 ^ 60),
        hex_char capital (v / 2 ^ 56),
        hex_char capital (v / 2 ^ 52),
        hex_char capital (v / 2 ^ 48),
        hex_char capital (v / 2 ^ 44),
        hex_char capital (v / 2 ^ 40),
        hex_char capital (v / 2 ^ 36),
        hex_char capital (v / 2 ^ 32),
        hex_char capital (v / 2 ^ 28),
        hex_char capital (v / 2 ^ 24),
        hex_char capital (v / 2 ^ 20),
        hex_char capital (v / 2 ^ 16),
        hex_char capital (v / 2 ^ 12),
        hex_char capital (v / 2 ^ 8),
        hex_char capital (v / 2 ^ 4),
        hex_char capital (v / 2 ^ 0),
      )
      (omega arith),
  refl,
)
