-- ===== src/Mem.antt =====
-- The byte routines of kernel/memory/memory.cc, on memory as a function from addresses to bytes.
pub mod Set
pub mod Copy
mod Tests
use eterna.Base.{
  ℕ, zero, suc, ◌+◌, ◌-◌, ◌*◌, ◌/◌, ◌%◌, ◌^◌, bit_or, Bool, true, false, not, leb, ltb, ◌==◌,
  if◌then◌else◌, add64, ◌<<<◌, ◌>>>◌,
}

unfoldable pub store_byte : (ℕ → ℕ) → ℕ → ℕ → ℕ → ℕ
store_byte m a v j = if j == a then v else m j

-- A store of eight bytes, the lowest first.
unfoldable pub store_qword : (ℕ → ℕ) → ℕ → ℕ → ℕ → ℕ
store_qword m a w j =
    if leb a j then if ltb j (a + 8) then (w >>> (8 * (j - a))) % 256 else m j else m j

-- `qWordValue`: the byte eight times.
unfoldable pub repeated : ℕ → ℕ
repeated value =
    let q₀ = bit_or 0 (value <<< 0) in
    let q₁ = bit_or q₀ (value <<< 8) in
    let q₂ = bit_or q₁ (value <<< 16) in
    let q₃ = bit_or q₂ (value <<< 24) in
    let q₄ = bit_or q₃ (value <<< 32) in
    let q₅ = bit_or q₄ (value <<< 40) in
    let q₆ = bit_or q₅ (value <<< 48) in bit_or q₆ (value <<< 56)

-- The loop over `i <= numBytes - 8` in steps of eight has `numBytes / 8` rounds.
unfoldable pub qword_loop : ℕ → ℕ → ℕ → ℕ → (ℕ → ℕ) → ℕ → ℕ
qword_loop zero start i value m = m
qword_loop (suc left) start i value m =
    qword_loop left start (i + 8) value (store_qword m (add64 start i) (repeated value))

unfoldable pub byte_loop : ℕ → ℕ → ℕ → ℕ → (ℕ → ℕ) → ℕ → ℕ
byte_loop zero start i value m = m
byte_loop (suc left) start i value m =
    byte_loop left start (i + 1) value (store_byte m (add64 start i) value)

unfoldable pub memset : (ℕ → ℕ) → ℕ → ℕ → ℕ → ℕ → ℕ
memset m start value num_bytes =
    let filled = if leb 256 num_bytes then qword_loop (num_bytes / 8) start 0 value m else m in
    byte_loop num_bytes start 0 value filled

unfoldable pub copy_loop : ℕ → ℕ → ℕ → (ℕ → ℕ) → ℕ → ℕ
copy_loop zero source dest m = m
copy_loop (suc left) source dest m =
    copy_loop left (add64 source 1) (add64 dest 1) (store_byte m dest (m source))

unfoldable pub memcpy : (ℕ → ℕ) → ℕ → ℕ → ℕ → ℕ → ℕ
memcpy m src dest num_bytes =
    if dest == 0 then m else if src == 0 then m else copy_loop num_bytes src dest m

unfoldable pub compare_loop : (ℕ → ℕ) → ℕ → ℕ → ℕ → ℕ
compare_loop m zero a b = 0
compare_loop m (suc left) a b =
    let rest = compare_loop m left (add64 a 1) (add64 b 1) in if not (m a == m b) then 1 else rest

unfoldable pub memcmp : (ℕ → ℕ) → ℕ → ℕ → ℕ → ℕ
memcmp m aptr bptr num_bytes = if aptr == bptr then 0 else compare_loop m num_bytes aptr bptr
