-- ===== src/Bits/Step.antt =====
-- `&` and `|` digit by digit, and induction that halves a number.
use Prim.Native.Nat.{digits, bitwise, bit_and-bitwise, bit_or-bitwise}
use eterna.Base.{
  ℕ, zero, suc, ◌+◌, ◌-◌, ◌*◌, ◌/◌, ◌%◌, ◌≤◌, min, max, bit_and, bit_or, ◌≡◌, ◌∙◌, refl, ap, arith,
}

-- What holds of 0, and of a positive number when it holds of its half, holds of all.
module _ {ℓ} (P : ℕ → Type ℓ) (base : P zero) (double : (x : ℕ) → P (suc x / 2) → P (suc x)) where
  halving_bound : (bound x : ℕ) → x ≤ bound → P x
  halving_bound bound zero fits = base
  halving_bound zero (suc x) fits = absurd (omega arith)
  halving_bound (suc bound) (suc x) fits = double x (halving_bound bound (suc x / 2) (omega arith))

  pub by_halves : (x : ℕ) → P x
  by_halves x = halving_bound x x (omega arith)

module _ (high : ℕ → ℕ) (low : ℕ → ℕ → ℕ) where
  -- One more digit than the number can have changes nothing, and so do any number more.
  one_more : (n x y : ℕ) → x ≤ n → digits high low (suc n) x y ≡ digits high low n x y
  one_more zero (suc x) y fits = absurd (omega arith)
  one_more zero zero y fits = refl
  one_more (suc n) zero y fits = refl
  one_more (suc n) (suc x) y fits =
      ap (λ (t : ℕ). t * 2 + low (suc x % 2) (y % 2)) (one_more n (suc x / 2) (y / 2) (omega arith))

  many_more : (k x y : ℕ) → digits high low (x + k) x y ≡ bitwise high low x y
  many_more zero x y = ap (λ (n : ℕ). digits high low n x y) (omega arith)
  many_more (suc k) x y =
      let next : x + suc k ≡ suc (x + k) = omega arith in
      ap (λ (n : ℕ). digits high low n x y) next
      ∙ (one_more (x + k) x y (omega arith) ∙ many_more k x y)

  peel :
      (x y : ℕ)
      → bitwise high low (suc x) y
        ≡ 2 * bitwise high low (suc x / 2) (y / 2) + low (suc x % 2) (y % 2)
  peel x y =
      let half = suc x / 2 in
      let enough : half + (x - half) ≡ x = omega arith in
      let same : digits high low x half (y / 2) ≡ bitwise high low half (y / 2) =
        rw enough at (many_more (x - half) half (y / 2)) in
      omega (arith, same)

pub peel_and : (x y : ℕ) → bit_and x y ≡ 2 * bit_and (x / 2) (y / 2) + min (x % 2) (y % 2)
peel_and zero y = rw (bit_and-bitwise 0 y, bit_and-bitwise 0 (y / 2)) (omega arith)
peel_and (suc x) y =
    rw (bit_and-bitwise (suc x) y, bit_and-bitwise (suc x / 2) (y / 2)) (peel (λ z. 0) min x y)

pub peel_or : (x y : ℕ) → bit_or x y ≡ 2 * bit_or (x / 2) (y / 2) + max (x % 2) (y % 2)
peel_or zero y = rw (bit_or-bitwise 0 y, bit_or-bitwise 0 (y / 2)) (omega arith)
peel_or (suc x) y =
    rw (bit_or-bitwise (suc x) y, bit_or-bitwise (suc x / 2) (y / 2)) (peel (λ z. z) max x y)
