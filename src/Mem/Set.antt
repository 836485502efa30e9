-- ===== src/Mem/Set.antt =====
-- `memset` sets its bytes, whichever loops it takes.
use eterna.Base.{
  ℕ, zero, suc, ◌+◌, ◌*◌, ◌/◌, ◌^◌, ◌≤◌, ◌≡◌, refl, arith, true, ◌&&◌, leb, ltb, if◌then◌else◌,
  add64,
}
use eterna.Mem.{store_byte, store_qword, repeated, qword_loop, byte_loop, memset}

-- The wide stores stay between `start + i` and the end of their rounds.
qword_loop_outside :
    (left start i value : ℕ) (m : ℕ → ℕ) (j : ℕ)
    → start + (i + left * 8) ≤ 2 ^ 64
    → ltb j (start + i) ≡ true
    → qword_loop left start i value m j ≡ m j
unfolding qword_loop store_qword
qword_loop_outside zero start i value m j fits out = refl
qword_loop_outside (suc left) start i value m j fits out =
    let a : add64 start i ≡ start + i = omega arith in
    ground (
      arith,
      a,
      qword_loop_outside left start (i + 8) value (store_qword m (add64 start i) (repeated value)) j
          (omega arith) (ground arith),
    )

qword_loop_past :
    (left start i value : ℕ) (m : ℕ → ℕ) (j : ℕ)
    → start + (i + left * 8) ≤ 2 ^ 64
    → start + (i + left * 8) ≤ j
    → qword_loop left start i value m j ≡ m j
unfolding qword_loop store_qword
qword_loop_past zero start i value m j fits out = refl
qword_loop_past (suc left) start i value m j fits out =
    let a : add64 start i ≡ start + i = omega arith in
    ground (
      arith,
      a,
      qword_loop_past left start (i + 8) value (store_qword m (add64 start i) (repeated value)) j
          (omega arith) (omega arith),
    )

byte_loop_lem :
    (left start i value : ℕ) (m : ℕ → ℕ) (j : ℕ)
    → start + (i + left) ≤ 2 ^ 64
    → byte_loop left start i value m j
      ≡ (if leb (start + i) j && ltb j (start + (i + left)) then value else m j)
unfolding byte_loop store_byte
byte_loop_lem zero start i value m j fits = ground arith
byte_loop_lem (suc left) start i value m j fits =
    let a : add64 start i ≡ start + i = omega arith in
    ground (
      arith,
      a,
      byte_loop_lem left start (i + 1) value (store_byte m (add64 start i) value) j (omega arith),
    )

-- `memset` sets the bytes of its range and no other.
pub memset-range :
    (m : ℕ → ℕ) (start value num_bytes j : ℕ)
    → start + num_bytes ≤ 2 ^ 64
    → memset m start value num_bytes j
      ≡ (if leb start j && ltb j (start + num_bytes) then value else m j)
unfolding memset
memset-range m start value num_bytes j fits = ground (
  arith,
  byte_loop_lem num_bytes start 0 value m j (omega arith),
  byte_loop_lem num_bytes start 0 value (qword_loop (num_bytes / 8) start 0 value m) j
      (omega arith),
  qword_loop_outside (num_bytes / 8) start 0 value m j (omega arith),
  qword_loop_past (num_bytes / 8) start 0 value m j (omega arith),
)
