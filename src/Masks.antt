-- ===== src/Masks.antt =====
-- Masks and fields of a number cut at a digit.
use native.Mathlib.Nat.{one-le-pow}
use eterna.Bits.{bit_and_split, bit_or_split, bit_or-zero, zero-bit_or}
use eterna.Base.{ℕ, ◌+◌, ◌*◌, ◌/◌, ◌%◌, ◌^◌, ◌<◌, bit_and, bit_or, ◌≡◌, arith}

pub pow_pos : (k : ℕ) → 0 < 2 ^ k
pow_pos k = omega (arith, one-le-pow k 2)

-- A mask cut at digit `k`.
pub bit_and_at :
    (k q s v : ℕ)
    → s < 2 ^ k
    → bit_and v (q * 2 ^ k + s) ≡ bit_and (v / 2 ^ k) q * 2 ^ k + bit_and (v % 2 ^ k) s
bit_and_at k q s v fits =
    let cut : v / 2 ^ k * 2 ^ k + v % 2 ^ k ≡ v = grind (arith, pow_pos k) in
    let low : v % 2 ^ k < 2 ^ k = grind (arith, pow_pos k) in
    rw cut at (bit_and_split k (v / 2 ^ k) (v % 2 ^ k) q s low fits)

-- A number below `2 ^ k` does not meet the digits from `k` on.
pub bit_or_low :
    (k p r s : ℕ) → r < 2 ^ k → s < 2 ^ k → bit_or (p * 2 ^ k + r) s ≡ p * 2 ^ k + bit_or r s
bit_or_low k p r s fits fits' = ground (arith, bit_or_split k p r 0 s, bit_or-zero p)

pub bit_or_high : (k a r : ℕ) → r < 2 ^ k → bit_or r (a * 2 ^ k) ≡ a * 2 ^ k + r
bit_or_high k a r fits =
    ground (arith, bit_or_split k 0 r a 0, zero-bit_or a, bit_or-zero r, pow_pos k)
