-- ===== src/String.antt =====
-- The class `String` of include/string.hpp, on memory as a function from addresses to bytes. What `new` gives is the argument
-- `fresh`; `delete[]` leaves the bytes as they are. A `strlen` is given a number of rounds.
pub mod Bytes
pub mod Append
pub mod Chop
mod Tests
use eterna.Base.{
  ℕ, ◌+◌, Bool, true, false, Option, none, some, ◌==◌, not, ltb, leb, if◌then◌else◌, add64, sub64,
}
use eterna.Mem.{store_byte, memset, memcpy, memcmp}
use eterna.Cstr.{strlen}

pub record String : Type 0 where
  pub buffer : ℕ
  pub length : ℕ

abbrev pub Memory : Type 0
Memory = ℕ → ℕ

abbrev pub string_initial_length : ℕ
string_initial_length = 10

-- The string that lies at an address.
unfoldable pub text_at : Memory → ℕ → ℕ → ℕ
text_at m p j = m (p + j)

-- The four constructors.
unfoldable pub empty_string : Memory → ℕ → Memory × String
empty_string m fresh = (
  memset m fresh 0 string_initial_length,
  record { buffer = fresh; length = string_initial_length },
)

unfoldable pub copy : Memory → String → ℕ → Memory × String
copy m original fresh =
    let ended = store_byte m (fresh + original.length) 0 in
    (
      memcpy ended original.buffer fresh original.length,
      record { buffer = fresh; length = original.length },
    )

unfoldable pub from_cstr : ℕ → Memory → ℕ → ℕ → Option (Memory × String)
from_cstr rounds m cstr fresh = elim (strlen rounds (text_at m cstr)) [
  | none ↦ none
  | some n ↦
      some
        (memcpy m cstr fresh (add64 (sub64 n 1) 1), record { buffer = fresh; length = sub64 n 1 })
]

unfoldable pub from_bytes : Memory → ℕ → ℕ → ℕ → Memory × String
from_bytes m cstr byte_count fresh = (
  store_byte (memcpy m cstr fresh byte_count) (fresh + byte_count) 0,
  record { buffer = fresh; length = byte_count },
)

pub data Side : Type 0 where
  left right : Side

unfoldable pub chop_left : Memory → String → ℕ → ℕ → Memory × String
chop_left m s index fresh = (
  store_byte (memcpy m s.buffer fresh index) (fresh + index) 0,
  record { buffer = fresh; length = index },
)

unfoldable pub chop_right : ℕ → Memory → String → ℕ → ℕ → Option (Memory × String)
chop_right rounds m s index fresh = elim (strlen rounds (text_at m (s.buffer + index))) [
  | none ↦ none
  | some n ↦ some (
    memcpy m (s.buffer + index) fresh (add64 (sub64 n 1) 1),
    record { buffer = fresh; length = sub64 n 1 },
  )
]

unfoldable pub chop : ℕ → Memory → String → ℕ → Side → ℕ → Option (Memory × String)
chop rounds m s index left fresh =
    if ltb (sub64 s.length 1) index then some (m, s) else some (chop_left m s index fresh)
chop rounds m s index right fresh =
    if ltb (sub64 s.length 1) index then some (m, s) else chop_right rounds m s index fresh

unfoldable pub data_copy : Memory → String → ℕ → Memory × ℕ
data_copy m s fresh = (store_byte (memcpy m s.buffer fresh s.length) (fresh + s.length) 0, fresh)

-- Copy assignment; `same` where both are one object.
unfoldable pub assign : Memory → String → String → Bool → ℕ → Memory × String
assign m s other same fresh =
    let ended = store_byte m (fresh + other.length) 0 in
    if same then (m, s) else (
      memcpy ended other.buffer fresh other.length,
      record { buffer = fresh; length = other.length },
    )

-- Move assignment: both strings after it.
unfoldable pub assign_moved : String → String → Bool → String × String
assign_moved s other same = if same then (s, other) else (other, record { buffer = 0; length = 0 })

-- `operator+` of a string, and of a C string.
unfoldable pub append : Memory → String → String → Bool → ℕ → Memory × String
append m s other same fresh =
    let first = memcpy m s.buffer fresh s.length in
    if same then (m, s) else (
      memcpy first other.buffer (fresh + s.length) other.length,
      record { buffer = fresh; length = add64 s.length other.length },
    )

-- What `operator+` does with the length that `strlen` gave.
unfoldable pub append_chars : Memory → String → ℕ → ℕ → ℕ → Memory × String
append_chars m s cstr string_length fresh =
    let length = add64 s.length (sub64 string_length 1) in
    let first = memcpy m s.buffer fresh s.length in
    let second = memcpy first cstr (fresh + s.length) (sub64 string_length 1) in
    if leb string_length 1
    then (m, s)
    else (store_byte second (fresh + length) 0, record { buffer = fresh; length = length })

unfoldable pub append_cstr : ℕ → Memory → String → ℕ → ℕ → Option (Memory × String)
append_cstr rounds m s cstr fresh =
    if cstr == 0 then some (m, s) else elim (strlen rounds (text_at m cstr)) [
      | none ↦ none
      | some n ↦ some (append_chars m s cstr n fresh)
    ]

-- The address of `operator[]`.
unfoldable pub at : String → ℕ → ℕ
at s index = if leb s.length index then add64 s.buffer (sub64 s.length 1) else add64 s.buffer index

unfoldable pub equal : Memory → String → String → Bool
equal m lhs rhs =
    if not (lhs.length == rhs.length) then false else memcmp m lhs.buffer rhs.buffer lhs.length == 0
