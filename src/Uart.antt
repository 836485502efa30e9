-- ===== src/Uart.antt =====
-- The serial port, kernel/uart.cc and include/uart.hpp, built without VBOX and COM1_INPUT_DEBUG. What a port gives is a
-- parameter: `device n port` is the byte of the `n`-th read, since the instructions are assembly.
-- A C string is the list of its characters before the terminator.
pub mod Poll
pub mod Text
pub mod Reader
pub mod Start
mod Tests
use Prim.Native.Char.{code}
use Prim.Native.String.{String}
use eterna.Base.{
  ℕ, zero, suc, ◌+◌, ◌-◌, bit_and, Bool, true, false, not, List, [], ◌∷◌, ◌++◌, length, ◌==◌,
  if◌then◌else◌, u16,
}

abbrev pub com1 : ℕ
com1 = 0x3f8

abbrev pub interrupt_port : ℕ
interrupt_port = com1 + 1

abbrev pub int_id_port : ℕ
int_id_port = com1 + 2

abbrev pub line_control_port : ℕ
line_control_port = com1 + 3

abbrev pub modem_control_port : ℕ
modem_control_port = com1 + 4

abbrev pub line_status_port : ℕ
line_status_port = com1 + 5

abbrev pub scratch_port : ℕ
scratch_port = com1 + 7

pub data Chip : Type 0 where
  no_chip chip_8250 chip_16450 chip_16550 chip_16550a chip_16750 : Chip

-- The state of the driver, the reads so far, and what was written, the latest first.
pub record Uart : Type 0 where
  pub initialized : Bool
  pub chip : Chip
  pub reads : ℕ
  pub written : List (ℕ × ℕ)

unfoldable pub out8 : Uart → ℕ → ℕ → Uart
out8 s port value = record s { written = (port, value) ∷ s.written }

unfoldable pub in8 : (ℕ → ℕ → ℕ) → Uart → ℕ → ℕ × Uart
in8 device s port = (device s.reads port, record s { reads = s.reads + 1 })

-- `(uint16_t)1000000`
abbrev pub max_spins : ℕ
max_spins = u16 1000000

-- The loops of `read` and `out` on `maxSpins`, until the line status has a bit of `mask`.
unfoldable pub spin : (ℕ → ℕ → ℕ) → ℕ → ℕ → Uart → ℕ × Uart
unfolding in8
spin device mask zero s = let (status, s₁) = in8 device s line_status_port in (0, s₁)
spin device mask (suc spins) s =
    let (status, s₁) = in8 device s line_status_port in
    let rest = spin device mask spins s₁ in
    if bit_and status mask == 0 then rest else (suc spins, s₁)

unfoldable pub read : (ℕ → ℕ → ℕ) → Uart → ℕ × Uart
read device s =
    let (spins, s₁) = spin device 1 max_spins s in
    if not s.initialized then (0, s) else if spins == 0 then (0, s₁) else in8 device s₁ com1

unfoldable pub out : (ℕ → ℕ → ℕ) → Uart → ℕ → Uart
out device s byte =
    let (spins, s₁) = spin device 32 max_spins s in
    if not s.initialized then s else if spins == 0 then s₁ else out8 s₁ com1 byte

-- What is left behind the `m` that ends a colour code.
unfoldable pub skip_code : List ℕ → List ℕ
skip_code [] = []
skip_code (c ∷ cs) = if c == b'm' then cs else skip_code cs

-- The loop of `out(const char*)`, with UART_HIDE_COLOR_CODES where `hide` is set. As many rounds as the string has
-- characters are enough.
unfoldable pub out_loop : (ℕ → ℕ → ℕ) → Bool → ℕ → List ℕ → Uart → Uart
out_loop device hide zero str s = s
out_loop device hide (suc rounds) [] s = s
out_loop device hide (suc rounds) (c ∷ cs) s =
    let plain = out_loop device hide rounds cs (out device s c) in
    if hide
    then (if c == 27
        then elim (skip_code cs) [
          | [] ↦ s
          | d ∷ ds ↦ out_loop device hide rounds ds (out device s d)
        ]
        else plain)
    else plain

unfoldable pub out_string : (ℕ → ℕ → ℕ) → Bool → Uart → List ℕ → Uart
out_string device hide s str =
    let written = out_loop device hide (length str) str s in
    if not s.initialized then s else written

-- The loop of `out(uint8_t*, uint64_t)` without UART_HIDE_COLOR_CODES, on the bytes that are left.
unfoldable pub out_bytes : (ℕ → ℕ → ℕ) → Uart → List ℕ → Uart
out_bytes device s [] = s
out_bytes device s (byte ∷ bytes) =
    let written = out_bytes device (out device s byte) bytes in
    if not s.initialized then s else written

-- The characters of a literal.
abbrev pub codes : String → List ℕ
codes String.[] = []
codes (String.◌∷◌ c s) = code c ∷ codes s

abbrev pub line_end : List ℕ
line_end = 13 ∷ 10 ∷ []

unfoldable pub get_uart_chip_name : Chip → List ℕ
get_uart_chip_name no_chip = codes "Invalid UART chip"
get_uart_chip_name chip_8250 = codes "8250"
get_uart_chip_name chip_16450 = codes "16450"
get_uart_chip_name chip_16550 = codes "16550"
get_uart_chip_name chip_16550a = codes "16550A"
get_uart_chip_name chip_16750 = codes "16750"

-- The registers that `initialize` sets before it looks for the chip; the divisor is 115200 / 9600.
unfoldable pub set_line : Uart → Uart
set_line s =
    let s₁ = out8 (out8 s interrupt_port 0x00) line_control_port 0b10000000 in
    let s₂ = out8 (out8 s₁ com1 12) interrupt_port 0 in
    out8 (out8 s₂ line_control_port 0b00000011) int_id_port 0b11000111

unfoldable pub find_chip : (ℕ → ℕ → ℕ) → Uart → Uart
find_chip device s =
    let (fifo_test, s₁) = in8 device s int_id_port in
    let (returned, s₂) = in8 device (out8 s₁ scratch_port 0x2a) scratch_port in
    if not (bit_and fifo_test 64 == 0)
    then if not (bit_and fifo_test 128 == 0)
      then if not (bit_and fifo_test 32 == 0)
        then record s₁ { chip = chip_16750 }
        else record s₁ { chip = chip_16550a }
      else record s₁ { chip = chip_16550 }
    else if returned == 0x2a
    then record s₂ { chip = chip_16450 }
    else record s₂ { chip = chip_8250 }

abbrev pub welcome : List ℕ
welcome =
    line_end
    ++ line_end
    ++ codes "Welcome to "
    ++ 27 ∷ codes "[5;1;33mEterna"
    ++ 27 ∷ codes "[0m"
    ++ line_end
    ++ line_end

abbrev pub detected : List ℕ
detected = codes "[UART]: Initialized driver" ++ line_end ++ codes "  Detected '"

abbrev pub chip_end : List ℕ
chip_end = codes "' chip" ++ line_end

-- The first messages, once the driver is on.
unfoldable pub greet : (ℕ → ℕ → ℕ) → Bool → Uart → Uart
greet device hide s =
    let s₁ = out_string device hide s welcome in
    let s₂ = out_string device hide s₁ detected in
    let s₃ = out_string device hide s₂ (get_uart_chip_name s₂.chip) in
    out_string device hide s₃ chip_end

unfoldable pub initialize : (ℕ → ℕ → ℕ) → Bool → Uart → Uart
initialize device hide s =
    let s₁ = find_chip device (set_line s) in
    let s₂ = out8 (out8 s₁ modem_control_port 0b00011111) com1 0xae in
    let (looped, s₃) = in8 device s₂ com1 in
    let s₄ = out8 (out8 s₃ modem_control_port 0b00001111) interrupt_port 1 in
    if not (looped == 0xae)
    then record s₃ { initialized = false }
    else greet device hide (record s₄ { initialized = true })
