-- ===== src/Cstr/Decimal.antt =====
-- `to_string` writes a number that reads back.
use eterna.Base.{
  ap, ◌⊎◌, none, some, leb, ◌==◌, ℕ, zero, suc, ◌+◌, ◌-◌, ◌*◌, ◌/◌, ◌%◌, ◌^◌, ◌≤◌, ◌<◌, ◌≡◌, ◌∙◌,
  refl, subst, arith, true, false, ltb, if◌then◌else◌, Bool-cases, inl, inr, u8,
}
use native.Mathlib.Nat.{pow-suc}
use eterna.Cstr.{
  put, length_loop, digit_loop, to_string_buf_sz, write_digits, within_buffer, to_string,
}

-- The number that the first `n` characters spell in base `base`, where `digit` reads one.
unfoldable pub read_number : ℕ → (ℕ → ℕ) → (ℕ → ℕ) → ℕ → ℕ
read_number base digit buf zero = 0
read_number base digit buf (suc n) = read_number base digit buf n * base + digit (buf n)

abbrev pub decimal_digit : ℕ → ℕ
decimal_digit c = c - 48

pub read_number_same :
    (base : ℕ) (digit f g : ℕ → ℕ) (n : ℕ)
    → ((j : ℕ) → j < n → g j ≡ f j)
    → read_number base digit g n ≡ read_number base digit f n
unfolding read_number
read_number_same base digit f g zero same = refl
read_number_same base digit f g (suc n) same =
    rw (read_number_same base digit f g n (λ j p. same j (omega arith)), same n (omega arith)) refl

-- How many digits a number has behind its first.
unfoldable pub more_digits : ℕ → ℕ → ℕ
more_digits zero v = 0
more_digits (suc rounds) v =
    let rest = more_digits rounds (v / 10) in if ltb 0 (v / 10) then rest + 1 else 0

more_digits-le : (rounds v : ℕ) → more_digits rounds v ≤ rounds
unfolding more_digits
more_digits-le zero v = omega arith
more_digits-le (suc rounds) v = ground (arith, more_digits-le rounds (v / 10))

pub length_loop-more_digits :
    (rounds v length : ℕ)
    → length + rounds < 256
    → length_loop rounds v length ≡ length + more_digits rounds v
unfolding length_loop more_digits
length_loop-more_digits zero v length small = omega arith
length_loop-more_digits (suc rounds) v length small =
    let step : u8 (length + 1) ≡ length + 1 = omega arith in
    rw step (ground (arith, length_loop-more_digits rounds (v / 10) (length + 1) (omega arith)))

-- What the digit loop leaves: the digits of `v` up to its place, and the rest as it was.
abbrev Spells : ℕ → ℕ → (ℕ → ℕ) → (ℕ → ℕ) → Type 0
Spells v place buf out =
    (read_number 10 decimal_digit out (place + 1) ≡ v)
    × ((j : ℕ) → j ≤ place → (48 ≤ out j) × (out j < 58))
    × ((j : ℕ) → place < j → out j ≡ buf j)

-- The last round writes the first digit.
one_digit : (v : ℕ) (buf : ℕ → ℕ) → v < 10 → Spells v 0 buf (put buf 0 (v % 10 + 48))
unfolding put read_number
one_digit v buf small = (
  ground arith,
  λ j p. let here : j ≡ 0 = omega arith in (ground (arith, here), ground (arith, here)),
  λ j p. ground arith,
)

-- A round before it writes the digit behind those of the rest.
another_digit :
    (v place : ℕ) (buf out : ℕ → ℕ)
    → Spells (v / 10) place (put buf (suc place) (v % 10 + 48)) out
    → Spells v (suc place) buf out
unfolding put read_number
another_digit v place buf out (read, digits, same) =
    let here = same (suc place) (omega arith) in
    (
      ground (arith, read, here),
      λ j p. elim (Bool-cases (j == suc place)) [
        | inl last ↦
            let at : j ≡ suc place = ground (arith, last) in
            let out_at : out j ≡ out (suc place) = ap out at in
            (ground (arith, here, out_at), ground (arith, here, out_at))
        | inr other ↦ digits j (ground (arith, other))
      ],
      λ j p. ground (arith, same j (omega arith)),
    )

module _ (rounds v length index : ℕ) (buf : ℕ → ℕ) where
  abbrev written : ℕ → ℕ
  written = put buf (length - index) (v % 10 + 48)

  pub digit_loop_last : v < 10 → digit_loop (suc rounds) v length index buf ≡ written
  unfolding digit_loop
  digit_loop_last small = let done : ltb 0 (v / 10) ≡ false = ground arith in rw done refl

  pub digit_loop_more :
      10 ≤ v
      → index < 200
      → digit_loop (suc rounds) v length index buf
        ≡ digit_loop rounds (v / 10) length (index + 1) written
  unfolding digit_loop
  digit_loop_more big short =
      let more : ltb 0 (v / 10) ≡ true = ground arith in
      let step : u8 (index + 1) ≡ index + 1 = omega arith in rw (more, step) refl

  pub more_digits_last : v < 10 → more_digits (suc rounds) v ≡ 0
  unfolding more_digits
  more_digits_last small = ground arith

  pub more_digits_more : 10 ≤ v → more_digits (suc rounds) v ≡ more_digits rounds (v / 10) + 1
  unfolding more_digits
  more_digits_more big = ground arith

some_rounds : (rounds x : ℕ) → x < 10 ^ rounds → 0 < x → 0 < rounds
some_rounds zero x low pos = absurd (omega arith)
some_rounds (suc rounds) x low pos = omega arith

pub more_digits-lt : (rounds v : ℕ) → v < 10 ^ rounds → 0 < rounds → more_digits rounds v < rounds
more_digits-lt zero v fits pos = absurd (omega arith)
more_digits-lt (suc rounds) v fits pos = elim (Bool-cases (ltb v 10)) [
  | inl small ↦ omega (arith, more_digits_last rounds v 0 0 (λ j. 0) (ground arith))
  | inr big ↦
      let ten : 10 ≤ v = ground arith in
      let low : v / 10 < 10 ^ rounds = omega (arith, pow-suc 10 rounds) in
      omega (
        arith,
        more_digits_more rounds v 0 0 (λ j. 0) ten,
        more_digits-lt rounds (v / 10) low (some_rounds rounds (v / 10) low (omega arith)),
      )
]

digit_loop-Spells :
    (rounds v length index place : ℕ) (buf : ℕ → ℕ)
    → v < 10 ^ rounds
    → 0 < rounds
    → length < 200
    → index + place ≡ length
    → place ≡ more_digits rounds v
    → Spells v place buf (digit_loop rounds v length index buf)
digit_loop-Spells zero v length index place buf fits pos short e f = absurd (omega arith)
digit_loop-Spells (suc rounds) v length index zero buf fits pos short e f =
    elim (Bool-cases (ltb v 10)) [
      | inl small ↦
          let start : length - index ≡ 0 = omega arith in
          rw (digit_loop_last rounds v length index buf (ground arith), start)
            (one_digit v buf (ground arith))
      | inr big ↦ absurd (ground (arith, more_digits_more rounds v length index buf))
    ]
digit_loop-Spells (suc rounds) v length index (suc place) buf fits pos short e f =
    elim (Bool-cases (ltb v 10)) [
      | inl small ↦ absurd (ground (arith, more_digits_last rounds v length index buf))
      | inr big ↦
          let ten : 10 ≤ v = ground arith in
          let low : v / 10 < 10 ^ rounds = omega (arith, pow-suc 10 rounds) in
          let at : length - index ≡ suc place = omega arith in
          let some_left : 0 < rounds = some_rounds rounds (v / 10) low (omega arith) in
          let rest =
            digit_loop-Spells rounds (v / 10) length (index + 1) place
              (put buf (length - index) (v % 10 + 48)) low some_left short (omega arith)
              (omega (arith, more_digits_more rounds v length index buf ten)) in
          rw (digit_loop_more rounds v length index buf ten (omega arith)) (
            another_digit v place buf _ (
              subst
                (λ (i : ℕ). Spells (v / 10) place (put buf i (v % 10 + 48)) (
                  digit_loop rounds (v / 10) length (index + 1)
                    (put buf (length - index) (v % 10 + 48))))
                at rest))
    ]

pow_step : (k : ℕ) → 10 ^ (k + 1) ≡ 10 ^ k * 10
pow_step k =
    let e : k + 1 ≡ suc k = omega arith in omega (arith, ap (λ (n : ℕ). 10 ^ n) e, pow-suc 10 k)

pow_le : (k d : ℕ) → 10 ^ k ≤ 10 ^ (k + d)
pow_le k zero = let e : k + 0 ≡ k = omega arith in omega (arith, ap (λ (n : ℕ). 10 ^ n) e)
pow_le k (suc d) =
    let e : k + suc d ≡ k + d + 1 = omega arith in
    omega (arith, ap (λ (n : ℕ). 10 ^ n) e, pow_step (k + d), pow_le k d)

-- How many digits a number has, in terms of the powers of ten.
pub more_digits_lem :
    (rounds v : ℕ)
    → v < 10 ^ rounds
    → 0 < rounds
    → let k = more_digits rounds v in (v < 10 ^ (k + 1)) × ((k ≡ 0) ⊎ (10 ^ k ≤ v))
more_digits_lem zero v fits pos = absurd (omega arith)
more_digits_lem (suc rounds) v fits pos = elim (Bool-cases (ltb v 10)) [
  | inl small ↦
      let none_more = more_digits_last rounds v 0 0 (λ j. 0) (ground arith) in
      rw none_more (ground arith, inl refl)
  | inr big ↦
      let ten : 10 ≤ v = ground arith in
      let low : v / 10 < 10 ^ rounds = omega (arith, pow-suc 10 rounds) in
      let k = more_digits rounds (v / 10) in
      let (above, below) =
        more_digits_lem rounds (v / 10) low (some_rounds rounds (v / 10) low (omega arith)) in
      let one_more : more_digits (suc rounds) v ≡ k + 1 =
        more_digits_more rounds v 0 0 (λ j. 0) ten in
      let power = pow_step k in
      let power' = pow_step (k + 1) in
      rw one_more (omega (arith, above, power'), inr (at_least k below power ten))
]
  where
    at_least :
        (k : ℕ)
        → (k ≡ 0) ⊎ (10 ^ k ≤ v / 10)
        → 10 ^ (k + 1) ≡ 10 ^ k * 10
        → 10 ≤ v
        → 10 ^ (k + 1) ≤ v
    at_least k (inl e) power ten = rw e ten
    at_least k (inr le) power ten = omega (arith, le, power)

-- The buffer holds the digits of a value without a leading zero, a terminator behind them, and nothing else is
-- written.
pub record IsDecimal (v : ℕ) (buf out : ℕ → ℕ) (n : ℕ) : Type 0 where
  pub number : read_number 10 decimal_digit out n ≡ v
  pub digits : (j : ℕ) → j < n → (48 ≤ out j) × (out j < 58)
  pub no_more : (n ≡ 1) ⊎ (10 ^ (n - 1) ≤ v)
  pub ends : out n ≡ 0
  pub others : (j : ℕ) → n < j → out j ≡ buf j

no_more_of : {v : ℕ} (k : ℕ) → (k ≡ 0) ⊎ (10 ^ k ≤ v) → (k + 1 ≡ 1) ⊎ (10 ^ (k + 1 - 1) ≤ v)
no_more_of k (inl e) = inl (omega (arith, e))
no_more_of k (inr le) =
    let e : k + 1 - 1 ≡ k = omega arith in inr (omega (arith, le, ap (λ (n : ℕ). 10 ^ n) e))

-- A number with few digits is small, and one with more is not.
pub size_of_digits :
    (v limit : ℕ)
    → v < 2 ^ 64
    → (limit ≤ more_digits 20 v → 0 < limit → 10 ^ limit ≤ v)
      × (more_digits 20 v < limit → v < 10 ^ limit)
size_of_digits v limit fits =
    let k = more_digits 20 v in
    let (above, below) = more_digits_lem 20 v (omega arith) (omega arith) in
    (
      λ le pos.
          let e : limit + (k - limit) ≡ k = omega (arith, le) in
          elim below [
            | inl nothing ↦ absurd (omega (arith, nothing, le, pos))
            | inr most ↦ omega (arith, most, pow_le limit (k - limit), ap (λ (n : ℕ). 10 ^ n) e)
          ],
      λ lt.
          let e : k + 1 + (limit - (k + 1)) ≡ limit = omega (arith, lt) in
          omega (arith, above, pow_le (k + 1) (limit - (k + 1)), ap (λ (n : ℕ). 10 ^ n) e),
    )

pub write_digits-IsDecimal :
    (v : ℕ) (buf : ℕ → ℕ)
    → v < 2 ^ 64
    → IsDecimal v buf (write_digits 0 v buf) (more_digits 20 v + 1)
unfolding write_digits put
write_digits-IsDecimal v buf fits =
    let k = more_digits 20 v in
    let small : k < 20 = more_digits-lt 20 v (omega arith) (omega arith) in
    let length : length_loop 20 v 0 ≡ k =
      omega (arith, length_loop-more_digits 20 v 0 (omega arith)) in
    let (read, digits, same) =
      digit_loop-Spells 20 v k 0 k buf (omega arith) (omega arith) (omega arith) (omega arith)
        refl in
    let start : 0 + k ≡ k = omega arith in
    rw (length, start)
      (record {
        number =
            read_number_same 10 decimal_digit (digit_loop 20 v k 0 buf) _ (k + 1)
              (λ j p. ground arith)
            ∙ read;
        digits =
            λ j p. let d = digits j (omega arith) in (ground (arith, d.0), ground (arith, d.1));
        no_more = no_more_of k (more_digits_lem 20 v (omega arith) (omega arith)).1;
        ends = ground arith;
        others = λ j p. ground (arith, same j (omega arith));
      })

-- What the buffer of 20 bytes has room for.
pub length-fits :
    (v : ℕ) → v < 2 ^ 64 → (length_loop 20 v 0 ≡ more_digits 20 v) × (more_digits 20 v < 20)
length-fits v fits = (
  omega (arith, length_loop-more_digits 20 v 0 (omega arith)),
  more_digits-lt 20 v (omega arith) (omega arith),
)

-- `to_string` of a 64-bit value below 10 ^ 19 leaves its decimal digits with a terminator behind them, without a leading
-- zero, and writes nothing else. A greater value has twenty digits, and the terminator is written behind the buffer.
pub to_string-IsDecimal :
    (v : ℕ) (buf : ℕ → ℕ)
    → v < 2 ^ 64
    → ((10 ^ 19 ≤ v) × (to_string v buf ≡ none))
      ⊎ ((v < 10 ^ 19)
          × ((out : ℕ → ℕ) × (n : ℕ) × (to_string v buf ≡ some out) × IsDecimal v buf out n))
unfolding to_string within_buffer
to_string-IsDecimal v buf fits =
    let (length, few) = length-fits v fits in
    let (enough, small) = size_of_digits v 19 fits in
    elim (Bool-cases (leb to_string_buf_sz (0 + length_loop 20 v 0 + 1))) [
      | inl over ↦ inl (enough (ground (arith, over, length)) (omega arith), rw over refl)
      | inr room ↦ inr (
        small (ground (arith, room, length)),
        (
          write_digits 0 v buf,
          more_digits 20 v + 1,
          rw room refl,
          write_digits-IsDecimal v buf fits,
        ),
      )
    ]
