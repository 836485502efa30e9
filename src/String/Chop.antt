-- ===== src/String/Chop.antt =====
-- `chop` cuts a string in two.
use eterna.Base.{
  ℕ, ◌+◌, ◌-◌, ◌<◌, ◌≡◌, refl, sym, ap, ap₂, ◌∙◌, inr, false, some, List, ◌++◌, arith, ltb, add64,
  sub64,
}
use eterna.Mem.{store_byte, memcpy}
use eterna.String.{String, Memory, left, right, chop_left, chop_right, chop}
use eterna.String.Bytes.{
  bytes, chars, bytes_same, bytes_at, Apart, Valid, bytes-append, bytes-memcpy, bytes-store_byte,
}
use eterna.String.Append.{IsText, Holds, strlen-text_at}

module _ (m : Memory) (s : String) (index : ℕ) (text : IsText m s.buffer s.length)
    (short : index < s.length) (from : Valid s.buffer (s.length + 1)) where
  chop_left-Holds :
      (fresh : ℕ)
      → Valid fresh (index + 1)
      → Apart s.buffer (s.length + 1) fresh (index + 1)
      → let (m', l) = chop_left m s index fresh in Holds (bytes m s.buffer index) m' l
  unfolding chop_left store_byte
  chop_left-Holds fresh to apart = (
    bytes-store_byte _ (fresh + index) 0 fresh index (inr (omega arith))
        ∙ bytes-memcpy m s.buffer fresh index (omega (arith, from, short)) (omega (arith, to))
            (ground (arith, apart, short)),
    ground arith,
  )

  abbrev behind : ℕ
  behind = s.length - index

  IsText-behind : IsText m (s.buffer + index) behind
  IsText-behind =
      let end : s.buffer + index + behind ≡ s.buffer + s.length = omega (arith, short) in
      (
        ap m end ∙ text.0,
        λ j lt e.
            let same : s.buffer + (index + j) ≡ s.buffer + index + j = omega arith in
            text.1 (index + j) (omega (arith, lt)) (ap m same ∙ e),
      )

  -- The right part, with its terminator copied along.
  chop_right-Holds :
      (rounds fresh : ℕ)
      → s.length < rounds
      → Valid fresh (behind + 1)
      → Apart s.buffer (s.length + 1) fresh (behind + 1)
      → (m' : Memory) × (r : String) × (chop_right rounds m s index fresh ≡ some (m', r))
        × Holds (bytes m (s.buffer + index) behind) m' r
  unfolding chop_right
  chop_right-Holds rounds fresh enough to apart =
      let length : sub64 (behind + 1) 1 ≡ behind = omega (arith, from) in
      let count : add64 behind 1 ≡ behind + 1 = omega (arith, from) in
      let m' = memcpy m (s.buffer + index) fresh (behind + 1) in
      let copied : bytes m' fresh (behind + 1) ≡ bytes m (s.buffer + index) (behind + 1) =
        bytes-memcpy m (s.buffer + index) fresh (behind + 1) (omega (arith, from, short)) to
          (ground (arith, apart, short)) in
      (
        m',
        record { buffer = fresh; length = behind },
        rw
            (
              strlen-text_at rounds m (s.buffer + index) behind IsText-behind (omega arith),
              chop_right,
              length,
              count,
            )
            refl,
        (
          bytes_same m' m fresh (s.buffer + index) behind
              (λ j lt. bytes_at m' m fresh (s.buffer + index) (behind + 1) copied j (omega arith)),
          bytes_at m' m fresh (s.buffer + index) (behind + 1) copied behind (omega arith)
              ∙ IsText-behind.0,
        ),
      )

  -- `chop` at an index within the string, on the left and on the right, gives two strings with a terminator that
  -- make up the string: the character at the index is the first of the right one.
  pub chop-chars :
      (rounds fresh fresh' : ℕ)
      → s.length < rounds
      → Valid fresh (index + 1)
      → Apart s.buffer (s.length + 1) fresh (index + 1)
      → Valid fresh' (behind + 1)
      → Apart s.buffer (s.length + 1) fresh' (behind + 1)
      → (ml mr : Memory) × (l r : String) × (chop rounds m s index left fresh ≡ some (ml, l))
        × (chop rounds m s index right fresh' ≡ some (mr, r))
        × (l.length ≡ index)
        × (chars m s ≡ chars ml l ++ chars mr r)
        × (ml (l.buffer + l.length) ≡ 0)
        × (mr (r.buffer + r.length) ≡ 0)
  unfolding chop chop_left
  chop-chars rounds fresh fresh' enough to apart to' apart' =
      let inside : ltb (sub64 s.length 1) index ≡ false = ground (arith, short, from) in
      let (ml, l) = chop_left m s index fresh in
      let (front, ended) = chop_left-Holds fresh to apart in
      let (mr, r, e, (back, ended')) = chop_right-Holds rounds fresh' enough to' apart' in
      let whole : index + behind ≡ s.length = omega (arith, short) in
      (
        ml,
        mr,
        l,
        r,
        rw inside refl,
        rw inside e,
        refl,
        ap (bytes m s.buffer) (sym whole)
            ∙ bytes-append m s.buffer index behind
            ∙ ap₂ (λ (a b : List ℕ). a ++ b) (sym front) (sym back),
        ended,
        ended',
      )
