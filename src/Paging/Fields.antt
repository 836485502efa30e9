-- ===== src/Paging/Fields.antt =====
-- The methods of an entry as arithmetic on its fields.
use eterna.Bits.{bit_or_split, bit_and_ones, bit_and-zero, bit_or-zero, zero-bit_or}
use native.Mathlib.Nat.{pow-suc}
use eterna.Base.{
  ℕ, ◌+◌, ◌-◌, ◌*◌, ◌/◌, ◌%◌, ◌^◌, ◌<◌, bit_and, bit_or, ◌≡◌, refl, arith, Bool, ltb, if◌then◌else◌,
  ◌==◌,
}
use eterna.Masks.{pow_pos, bit_and_at, bit_or_low, bit_or_high}
use eterna.Paging
use eterna.Paging.{
  PageTableFlag, present, read_write, user_super, write_through, cache_disabled, accessed, dirty,
  larger_pages, global, nx, selector,
}

-- A mask of all digits but digit `k`, on `k + 1 + m` digits.
clear_at :
    (k m v : ℕ)
    → bit_and v ((2 ^ m - 1) * 2 ^ (k + 1) + (2 ^ k - 1))
      ≡ v / 2 ^ (k + 1) % 2 ^ m * 2 ^ (k + 1) + v % 2 ^ (k + 1) % 2 ^ k
clear_at k m v =
    rw
      (
        bit_and_at (k + 1) (2 ^ m - 1) (2 ^ k - 1) v (ground (arith, pow-suc 2 k, pow_pos k)),
        bit_and_ones m (v / 2 ^ (k + 1)),
        bit_and_ones k (v % 2 ^ (k + 1)),
      )
      refl

-- Setting digit `k` where it is clear.
set_at :
    (k p r : ℕ) → r < 2 ^ k → bit_or (p * 2 ^ (k + 1) + r) (2 ^ k) ≡ p * 2 ^ (k + 1) + (2 ^ k + r)
set_at k p r fits = ground (
  arith,
  bit_or_split (k + 1) p r 0 (2 ^ k),
  bit_or_split k 0 r 1 0,
  bit_or-zero p,
  bit_or-zero r,
  zero-bit_or 1,
  pow-suc 2 k,
  pow_pos k,
)

pub address_form : (v : ℕ) → v < 2 ^ 64 → Paging.address v ≡ v / 4096 % 2 ^ 40
unfolding Paging.address
address_form v fits = omega (
  arith,
  bit_and_at 12 (2 ^ 40 - 1) 0 v (omega arith),
  bit_and_ones 40 (v / 4096),
  bit_and-zero (v % 4096),
)

pub set_address_form :
    (v a : ℕ)
    → v < 2 ^ 64
    → Paging.set_address v a ≡ v / 2 ^ 52 * 2 ^ 52 + (a % 2 ^ 40 * 4096 + v % 4096)
unfolding Paging.set_address
set_address_form v a fits =
    let kept : bit_and v 0xfff0000000000fff ≡ v / 2 ^ 52 * 2 ^ 52 + v % 4096 = omega (
      arith,
      bit_and_at 52 (2 ^ 12 - 1) (2 ^ 12 - 1) v (omega arith),
      bit_and_ones 12 (v / 2 ^ 52),
      bit_and_ones 12 (v % 2 ^ 52),
    ) in
    rw
      (
        kept,
        bit_and_ones 40 a,
        bit_or_low 52 (v / 2 ^ 52) (v % 4096) (a % 2 ^ 40 * 4096) (omega arith) (omega arith),
        bit_or_high 12 (a % 2 ^ 40) (v % 4096) (omega arith),
      )
      refl

-- What the flag at digit `k` reads and writes, on 64-bit values.
flag_at : (k v : ℕ) → ltb 0 (bit_and v (2 ^ k)) ≡ (v / 2 ^ k % 2 == 1)
flag_at k v = ground (
  arith,
  bit_and_at k 1 0 v (pow_pos k),
  bit_and_ones 1 (v / 2 ^ k),
  bit_and-zero (v % 2 ^ k),
  pow_pos k,
)

-- The digit that a truth value writes.
abbrev pub digit : Bool → ℕ
digit b = if b then 1 else 0

-- Each flag reads one digit.
pub flag_form : (v : ℕ) (f : PageTableFlag) → Paging.flag v f ≡ (v / selector f % 2 == 1)
unfolding Paging.flag selector
flag_form v present = flag_at 0 v
flag_form v read_write = flag_at 1 v
flag_form v user_super = flag_at 2 v
flag_form v write_through = flag_at 3 v
flag_form v cache_disabled = flag_at 4 v
flag_form v accessed = flag_at 5 v
flag_form v dirty = flag_at 6 v
flag_form v larger_pages = flag_at 7 v
flag_form v global = flag_at 8 v
flag_form v nx = flag_at 63 v

set_flag_at :
    (k m v : ℕ) (b : Bool)
    → (let cleared = bit_and v ((2 ^ m - 1) * 2 ^ (k + 1) + (2 ^ k - 1)) in
        if b then bit_or cleared (2 ^ k) else cleared)
      ≡ v / 2 ^ (k + 1) % 2 ^ m * 2 ^ (k + 1) + (digit b * 2 ^ k + v % 2 ^ (k + 1) % 2 ^ k)
set_flag_at k m v b =
    ground (
      arith,
      clear_at k m v,
      set_at k (v / 2 ^ (k + 1) % 2 ^ m) (v % 2 ^ (k + 1) % 2 ^ k),
      pow_pos k,
    )

-- Each flag writes its digit and leaves the others.
pub set_flag_form :
    (v : ℕ) (f : PageTableFlag) (b : Bool)
    → v < 2 ^ 64
    → Paging.set_flag v f b
      ≡ v / (2 * selector f) * (2 * selector f) + (digit b * selector f + v % selector f)
unfolding Paging.set_flag selector
set_flag_form v present b fits = omega (arith, set_flag_at 0 63 v b)
set_flag_form v read_write b fits = omega (arith, set_flag_at 1 62 v b)
set_flag_form v user_super b fits = omega (arith, set_flag_at 2 61 v b)
set_flag_form v write_through b fits = omega (arith, set_flag_at 3 60 v b)
set_flag_form v cache_disabled b fits = omega (arith, set_flag_at 4 59 v b)
set_flag_form v accessed b fits = omega (arith, set_flag_at 5 58 v b)
set_flag_form v dirty b fits = omega (arith, set_flag_at 6 57 v b)
set_flag_form v larger_pages b fits = omega (arith, set_flag_at 7 56 v b)
set_flag_form v global b fits = omega (arith, set_flag_at 8 55 v b)
set_flag_form v nx b fits = omega (arith, set_flag_at 63 0 v b)
