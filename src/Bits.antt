-- ===== src/Bits.antt =====
-- Laws of `&` and `|` at variables, for masks and fields of any width.
mod Step
use Step.{by_halves, peel_and, peel_or}
use mathlib.Core.WellFounded.{Acc}
use native.Mathlib.Nat.{pow-suc, one-le-pow}
use eterna.Base.{
  ℕ, zero, suc, ◌+◌, ◌-◌, ◌*◌, ◌/◌, ◌%◌, ◌^◌, ◌≤◌, ◌<◌, bit_and, bit_or, ◌≡◌, refl, ap, arith,
}

pub bit_and-zero : (x : ℕ) → bit_and x 0 ≡ 0
bit_and-zero =
    by_halves (λ x. bit_and x 0 ≡ 0) refl (λ x half. omega (arith, peel_and (suc x) 0, half))

pub bit_or-zero : (x : ℕ) → bit_or x 0 ≡ x
bit_or-zero =
    by_halves (λ x. bit_or x 0 ≡ x) refl (λ x half. omega (arith, peel_or (suc x) 0, half))

pub zero-bit_or : (b : ℕ) → bit_or 0 b ≡ b
zero-bit_or b = Prim.Native.Nat.bit_or-bitwise 0 b

mul_pow-suc : (q k : ℕ) → q * 2 ^ suc k ≡ 2 * (q * 2 ^ k)
mul_pow-suc q k = omega (arith, ap (λ (t : ℕ). q * t) (pow-suc 2 k))

-- Split at digit `k`: high and low parts are treated apart.
pub bit_and_split :
    (k p r q s : ℕ)
    → r < 2 ^ k
    → s < 2 ^ k
    → bit_and (p * 2 ^ k + r) (q * 2 ^ k + s) ≡ bit_and p q * 2 ^ k + bit_and r s
bit_and_split zero zero zero zero zero hr hs = refl
bit_and_split zero p r q s hr hs = ground (arith, bit_and-zero 0)
bit_and_split (suc k) p r q s hr hs = ground (
  arith,
  peel_and (p * 2 ^ suc k + r) (q * 2 ^ suc k + s),
  peel_and r s,
  mul_pow-suc p k,
  mul_pow-suc q k,
  mul_pow-suc (bit_and p q) k,
  pow-suc 2 k,
  bit_and_split k p (r / 2) q (s / 2) (omega (arith, pow-suc 2 k)) (omega (arith, pow-suc 2 k)),
)

pub bit_or_split :
    (k p r q s : ℕ)
    → r < 2 ^ k
    → s < 2 ^ k
    → bit_or (p * 2 ^ k + r) (q * 2 ^ k + s) ≡ bit_or p q * 2 ^ k + bit_or r s
bit_or_split zero p r q s hr hs = ground (arith, bit_or-zero 0)
bit_or_split (suc k) p r q s hr hs = ground (
  arith,
  peel_or (p * 2 ^ suc k + r) (q * 2 ^ suc k + s),
  peel_or r s,
  mul_pow-suc p k,
  mul_pow-suc q k,
  mul_pow-suc (bit_or p q) k,
  pow-suc 2 k,
  bit_or_split k p (r / 2) q (s / 2) (omega (arith, pow-suc 2 k)) (omega (arith, pow-suc 2 k)),
)

ones_below : (k r : ℕ) → r < 2 ^ k → bit_and r (2 ^ k - 1) ≡ r
ones_below zero r h = omega (arith, bit_and-zero r)
ones_below (suc k) r h = ground (
  arith,
  peel_and r (2 ^ suc k - 1),
  pow-suc 2 k,
  one-le-pow k 2,
  ones_below k (r / 2) (omega (arith, pow-suc 2 k)),
)

-- A mask of `k` low ones takes the remainder.
pub bit_and_ones : (k a : ℕ) → bit_and a (2 ^ k - 1) ≡ a % 2 ^ k
bit_and_ones k a = ground (
  arith,
  one-le-pow k 2,
  bit_and_split k (a / 2 ^ k) (a % 2 ^ k) 0 (2 ^ k - 1),
  bit_and-zero (a / 2 ^ k),
  ones_below k (a % 2 ^ k),
)

-- Fields that do not overlap are joined by a sum.
pub bit_or_fields : (k p s : ℕ) → s < 2 ^ k → bit_or (p * 2 ^ k) s ≡ p * 2 ^ k + s
bit_or_fields k p s h =
    ground (arith, bit_or_split k p 0 0 s, one-le-pow k 2, bit_or-zero p, zero-bit_or s)
