-- ===== src/Cstr/Signed.antt =====
-- `to_string` of a signed value writes what `to_string` of its magnitude does, one character further behind a sign.
use eterna.Base.{
  ℕ, zero, suc, ◌+◌, ◌-◌, ◌/◌, ◌%◌, ◌^◌, ◌≤◌, ◌<◌, ◌≡◌, refl, arith, true, false, ltb, leb, ◌==◌,
  Bool-cases, ◌⊎◌, inl, inr, u8, Option, none, some,
}
use eterna.Cstr.{
  put, length_loop, digit_loop, to_string_buf_sz, write_digits, within_buffer, to_string, magnitude,
  to_string_signed,
}
use eterna.Cstr.Decimal.{
  more_digits, more_digits-lt, length_loop-more_digits, more_digits_more, length-fits,
  size_of_digits,
}

abbrev pub behind_first : (ℕ → ℕ) → ℕ → ℕ
behind_first buf j = buf (suc j)

-- Two buffers agree where the second is one character further on and starts with the sign.
abbrev Signed : (ℕ → ℕ) → (ℕ → ℕ) → Type 0
Signed out out' = (out' 0 ≡ b'-') × ((j : ℕ) → out' (suc j) ≡ out j)

put-Signed :
    (i i' c : ℕ) (out out' : ℕ → ℕ)
    → i' ≡ suc i
    → Signed out out'
    → Signed (put out i c) (put out' i' c)
unfolding put
put-Signed i i' c out out' at (sign, same) = (ground (arith, sign), λ j. ground (arith, same j))

digit_loop-Signed :
    (rounds v length index : ℕ) (out out' : ℕ → ℕ)
    → Signed out out'
    → index + more_digits rounds v ≤ length
    → length < 200
    → Signed (digit_loop rounds v length index out) (digit_loop rounds v (1 + length) index out')
unfolding digit_loop
digit_loop-Signed zero v length index out out' same room short = same
digit_loop-Signed (suc rounds) v length index out out' same room short =
    let next =
      put-Signed (length - index) (1 + length - index) (v % 10 + 48) out out' (omega arith) same in
    elim (Bool-cases (ltb v 10)) [
      | inl small ↦ let done : ltb 0 (v / 10) ≡ false = ground arith in rw done next
      | inr big ↦
          let ten : 10 ≤ v = ground arith in
          let more : ltb 0 (v / 10) ≡ true = ground arith in
          let fewer = more_digits_more rounds v length index out ten in
          let step : u8 (index + 1) ≡ index + 1 = omega arith in
          rw (more, step)
            (digit_loop-Signed rounds (v / 10) length (index + 1) _ _ next (omega (arith, fewer))
              short)
    ]

sign-Signed : (buf : ℕ → ℕ) → Signed (behind_first buf) (put buf 0 b'-')
unfolding put
sign-Signed buf = (refl, λ j. ground arith)

write_digits-Signed :
    (v : ℕ) (buf : ℕ → ℕ)
    → v < 2 ^ 64
    → Signed (write_digits 0 v (behind_first buf)) (write_digits 1 v (put buf 0 b'-'))
unfolding write_digits
write_digits-Signed v buf fits =
    let small = more_digits-lt 20 v (omega arith) (omega arith) in
    let length : length_loop 20 v 0 ≡ more_digits 20 v =
      omega (arith, length_loop-more_digits 20 v 0 (omega arith)) in
    let start : 0 + length_loop 20 v 0 ≡ length_loop 20 v 0 = omega arith in
    rw start (
      put-Signed (length_loop 20 v 0 + 1) (1 + length_loop 20 v 0 + 1) 0 _ _ (omega arith) (
        digit_loop-Signed 20 v (length_loop 20 v 0) 0 (behind_first buf) (put buf 0 b'-')
          (sign-Signed buf) (omega (arith, length)) (omega (arith, length))))

-- The four cases of `to_string` of a signed value.
abbrev pub Written : ℕ → (ℕ → ℕ) → Option (ℕ → ℕ) → Type 0
Written v buf written =
    ((v ≡ 2 ^ 63) × (written ≡ none))
    ⊎ ((v < 2 ^ 63) × (written ≡ to_string v buf))
    ⊎ ((2 ^ 63 < v) × (10 ^ 18 ≤ 2 ^ 64 - v) × (written ≡ none))
    ⊎ ((2 ^ 63 < v)
        × (2 ^ 64 - v < 10 ^ 18)
        × ((digits out : ℕ → ℕ) × (to_string (2 ^ 64 - v) (behind_first buf) ≡ some digits)
            × (written ≡ some out)
            × Signed digits out))

-- The string of a value that is not negative is that of `to_string` for the same value without a sign. The string of a negative
-- one is a minus and then that of its magnitude, where the magnitude is below 10 ^ 18. From there on the terminator is
-- written behind the buffer, and 2 ^ 63 has no magnitude: negating it is undefined.
pub to_string_signed-Written :
    (v : ℕ) (buf : ℕ → ℕ) → v < 2 ^ 64 → Written v buf (to_string_signed v buf)
unfolding to_string_signed magnitude to_string within_buffer
to_string_signed-Written v buf fits = elim (Bool-cases (v == 2 ^ 63)) [
  | inl least ↦ inl (ground (arith, least), rw least refl)
  | inr other ↦ inr (elim (Bool-cases (leb (2 ^ 63) v)) [
    | inr below ↦ inl (ground (arith, below), rw (other, below) refl)
    | inl above ↦
        let w = 2 ^ 64 - v in
        let negative : 2 ^ 63 < v = ground (arith, above, other) in
        let (length, few) = length-fits w (omega arith) in
        let (enough, small) = size_of_digits w 18 (omega arith) in
        inr (elim (Bool-cases (leb to_string_buf_sz (1 + length_loop 20 w 0 + 1))) [
          | inl over ↦ inl (
            negative,
            enough (ground (arith, over, length)) (omega arith),
            rw (other, above, over) refl,
          )
          | inr room ↦
              let room' : leb to_string_buf_sz (0 + length_loop 20 w 0 + 1) ≡ false =
                ground (arith, room) in
              inr (
                negative,
                small (ground (arith, room, length)),
                (
                  write_digits 0 w (behind_first buf),
                  write_digits 1 w (put buf 0 b'-'),
                  rw room' refl,
                  rw (other, above, room) refl,
                  write_digits-Signed w buf (omega arith),
                ),
              )
        ])
  ])
]
