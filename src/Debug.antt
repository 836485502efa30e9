-- ===== src/Debug.antt =====
-- Formatted messages, `dbgmsg_v` of kernel/debug.cc and the formats of include/debug.hpp. A format is the list of its characters
-- before the terminator, and `args n` is the `n`-th argument as a 64-bit slot. What is printed is
-- given by the calls of the other output functions, in order.
pub mod Format
mod Tests
use eterna.Base.{
  ℕ, zero, suc, ◌+◌, ◌%◌, ◌^◌, Bool, true, false, not, ◌&&◌, List, [], ◌∷◌, ◌==◌, if◌then◌else◌,
  length,
}
use eterna.Uart.{skip_code}

-- What a directive prints; the numbers are widths in bits.
pub data Kind : Type 0 where
  c_string string_class hex float_number character boolean : Kind
  signed unsigned : ℕ → Kind

-- A call of an output function. The pointer of `%s` goes to `dbgmsg(const char*, ...)`, as a format.
pub data Message : Type 0 where
  print_char print_format print_string print_hex print_double print_bool : ℕ → Message
  print_signed print_unsigned : ℕ → ℕ → Message

unfoldable pub message : Kind → ℕ → Message
message c_string v = print_format v
message string_class v = print_string v
message hex v = print_hex v
message float_number v = print_double v
message character v = print_char (v % 2 ^ 8)
message boolean v = print_bool (if v % 2 ^ 32 == 0 then 0 else 1)
message (signed w) v = print_signed w (v % 2 ^ w)
message (unsigned w) v = print_unsigned w (v % 2 ^ w)

-- What the `switch` makes of the characters behind a `%`: the end of the format, a character that is not
-- known, a directive that prints nothing, or one that prints; with what is left.
pub data Directive : Type 0 where
  ends passes : Directive
  ignores : List ℕ → Directive
  prints : Kind → List ℕ → Directive

unfoldable pub next : List ℕ → ℕ
next [] = 0
next (c ∷ cs) = c

unfoldable pub rest : List ℕ → List ℕ
rest [] = []
rest (c ∷ cs) = cs

-- The cases `h`, and `u`, `d` and `i`, on what is behind the letter.
unfoldable pub case_h : List ℕ → Directive
unfolding next rest
case_h cs =
    if next cs == b'i'
    then prints (signed 16) (rest cs)
    else if next cs == b'u'
    then prints (unsigned 16) (rest cs)
    else if next cs == b'h'
    then if next (rest cs) == b'i'
      then prints (signed 8) (rest (rest cs))
      else if next (rest cs) == b'u'
      then prints (unsigned 8) (rest (rest cs))
      else ignores (rest cs)
    else ignores cs

unfoldable pub case_long : (ℕ → Kind) → List ℕ → Directive
unfolding next rest
case_long kind cs =
    if not (next cs == b'l')
    then prints (kind 32) cs
    else if not (next (rest cs) == b'l')
    then prints (kind 32) (rest cs)
    else prints (kind 64) (rest (rest cs))

unfoldable pub directive : List ℕ → Directive
unfolding next rest case_h case_long
directive [] = ends
directive (c ∷ cs) =
    if c == b's'
    then if next cs == b'l' then prints string_class (rest cs) else prints c_string cs
    else if c == b'h'
    then case_h cs
    else if c == b'u'
    then case_long unsigned cs
    else if c == b'd'
    then case_long signed cs
    else if c == b'i'
    then case_long signed cs
    else if c == b'f'
    then prints float_number cs
    else if c == b'p'
    then prints hex cs
    else if c == b'x'
    then prints hex cs
    else if c == b'c'
    then prints character cs
    else if c == b'b'
    then prints boolean cs
    else passes

-- What is done behind a `%`; `go` is the loop on what is left, with the number of the next argument.
unfoldable pub obey : (ℕ → ℕ) → (List ℕ → ℕ → List Message) → List ℕ → ℕ → Directive → List Message
obey args go cs n ends = print_char b'%' ∷ []
obey args go cs n passes = print_char b'%' ∷ go cs n
obey args go cs n (ignores left) = go left n
obey args go cs n (prints kind left) = message kind (args n) ∷ go left (n + 1)

-- One round at the character `c` with `cs` behind it.
unfoldable pub round : (ℕ → ℕ) → (List ℕ → ℕ → List Message) → ℕ → List ℕ → ℕ → List Message
round args go c cs n =
    if c == b'%' then obey args go cs n (directive cs) else print_char c ∷ go cs n

-- The loop, with UART_HIDE_COLOR_CODES where `hide` is set.
unfoldable pub dbgmsg_loop : (ℕ → ℕ) → Bool → ℕ → List ℕ → ℕ → List Message
dbgmsg_loop args hide zero fmt n = []
dbgmsg_loop args hide (suc rounds) [] n = []
dbgmsg_loop args hide (suc rounds) (c ∷ cs) n =
    if hide && c == 27
    then elim (skip_code cs) [ [] ↦ [] | d ∷ ds ↦ round args (dbgmsg_loop args hide rounds) d ds n ]
    else round args (dbgmsg_loop args hide rounds) c cs n

unfoldable pub dbgmsg_v : Bool → List ℕ → (ℕ → ℕ) → List Message
dbgmsg_v hide fmt args = dbgmsg_loop args hide (length fmt) fmt 0
