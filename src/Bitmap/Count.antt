-- ===== src/Bitmap/Count.antt =====
-- How many bits below a bound are clear, and how that changes when one bit is written.
use eterna.Base.{
  ℕ, zero, suc, ◌+◌, ◌≤◌, ◌<◌, ◌≡◌, refl, Bool, true, false, arith, ◌==◌, if◌then◌else◌, not,
}

-- `test` is a bitmap as a function; `want` is the value that is counted.
module _ (want : Bool) where
  unfoldable pub count : (ℕ → Bool) → ℕ → ℕ
  count test zero = 0
  count test (suc n) =
      count test n + (if test n then (if want then 1 else 0) else (if want then 0 else 1))

abbrev pub free_count : (ℕ → Bool) → ℕ → ℕ
free_count = count false

abbrev pub used_count : (ℕ → Bool) → ℕ → ℕ
used_count = count true

pub count_total : (test : ℕ → Bool) (n : ℕ) → free_count test n + used_count test n ≡ n
unfolding count
count_total test zero = refl
count_total test (suc n) = ground (arith, count_total test n)

pub count_same :
    (want : Bool) (f g : ℕ → Bool) (n : ℕ)
    → ((j : ℕ) → j < n → g j ≡ f j)
    → count want g n ≡ count want f n
unfolding count
count_same want f g zero h = refl
count_same want f g (suc n) h =
    ground (arith, h n, count_same want f g n (λ j p. h j (omega arith)))

-- Writing bit `i` below the bound moves it from the one count to the other.
pub count-write :
    (f g : ℕ → Bool) (i : ℕ) (value : Bool) (n : ℕ)
    → ((j : ℕ) → g j ≡ (if i == j then value else f j))
    → i < n
    → f i ≡ not value
    → (free_count g n + (if value then 1 else 0) ≡ free_count f n + (if value then 0 else 1))
      × (used_count g n + (if value then 0 else 1) ≡ used_count f n + (if value then 1 else 0))
unfolding count
count-write f g i value zero h p e = absurd (omega arith)
count-write f g i value (suc n) h p e = elim (eterna.Base.Bool-cases (i == n)) [
  | eterna.Base.inl here ↦ ground (
    arith,
    h n,
    count_same false f g n (λ j q. ground (arith, h j)),
    count_same true f g n (λ j q. ground (arith, h j)),
  )
  | eterna.Base.inr before ↦ ground (arith, h n, count-write f g i value n h (ground arith) e)
]

-- A run of `n` clear bits at `a`.
abbrev pub Run : (ℕ → Bool) → ℕ → ℕ → Type 0
Run test a n = (k : ℕ) → k < n → test (a + k) ≡ false
