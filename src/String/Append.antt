-- ===== src/String/Append.antt =====
-- Appending, copying and comparing strings.
use eterna.Base.{
  ◌⊎◌, ℕ, ◌+◌, ◌<◌, ◌≡◌, ◌≢◌, ◌↔◌, refl, sym, ap, ap₂, ◌∙◌, inl, inr, true, false, some, List, ◌++◌,
  arith, leb, ◌==◌, Bool-cases, length, add64, sub64,
}
use mathlib.Core.List.{append-nil}
use eterna.Mem.{store_byte, memcpy}
use eterna.Mem.Copy.{memcmp-same}
use eterna.Cstr.{strlen}
use eterna.Cstr.Compare.{strlen-terminator}
use eterna.String.{String, Memory, text_at, append, append_chars, append_cstr, equal}
use eterna.String.Bytes.{
  bytes, chars, Apart, Valid, bytes_same, bytes_at, bytes-append, length-bytes, bytes-memcpy,
  bytes_other-memcpy, bytes-store_byte,
}

-- Two copies behind each other.
module _ (m : Memory) (p n q k fresh : ℕ) (from : Valid p n) (from' : Valid q k)
    (to : Valid fresh (n + k + 1)) (apart : Apart p n fresh (n + k + 1))
    (apart' : Apart q k fresh (n + k + 1)) where
  abbrev first : Memory
  first = memcpy m p fresh n

  abbrev second : Memory
  second = memcpy first q (fresh + n) k

  second-append : bytes second fresh (n + k) ≡ bytes m p n ++ bytes m q k
  second-append =
      let front =
        bytes_other-memcpy first q (fresh + n) k from' (omega (arith, to)) (ground (arith, apart'))
          fresh n (inl (omega arith))
        ∙ bytes-memcpy m p fresh n from (omega (arith, to)) (ground (arith, apart)) in
      let back =
        bytes-memcpy first q (fresh + n) k from' (omega (arith, to)) (ground (arith, apart'))
        ∙ bytes_other-memcpy m p fresh n from (omega (arith, to)) (ground (arith, apart)) q k
            (ground (arith, apart')) in
      bytes-append second fresh n k ∙ ap₂ (λ (a b : List ℕ). a ++ b) front back

-- `operator+` of another string gives the characters of both, one behind the other, where the three buffers are within
-- the addresses and the new one is apart from both.
pub append-chars :
    (m : Memory) (s other : String) (fresh : ℕ)
    → Valid s.buffer s.length
    → Valid other.buffer other.length
    → Valid fresh (s.length + other.length + 1)
    → Apart s.buffer s.length fresh (s.length + other.length + 1)
    → Apart other.buffer other.length fresh (s.length + other.length + 1)
    → let (m', t) = append m s other false fresh in chars m' t ≡ chars m s ++ chars m other
unfolding append
append-chars m s other fresh from from' to apart apart' =
    let sum : add64 s.length other.length ≡ s.length + other.length = omega (arith, to) in
    rw sum
      (second-append m s.buffer s.length other.buffer other.length fresh from from' to apart apart')

-- A text of `n` characters with its terminator.
abbrev pub IsText : Memory → ℕ → ℕ → Type 0
IsText m p n = (m (p + n) ≡ 0) × ((j : ℕ) → j < n → m (p + j) ≢ 0)

pub strlen-text_at :
    (rounds : ℕ) (m : Memory) (p n : ℕ)
    → IsText m p n
    → n < rounds
    → strlen rounds (text_at m p) ≡ some (n + 1)
unfolding text_at
strlen-text_at rounds m p n (ends, before) enough =
    strlen-terminator rounds (λ j. m (p + j)) n ends before enough

-- The string `t` holds the characters, and a terminator behind them.
abbrev pub Holds : List ℕ → Memory → String → Type 0
Holds cs m t = (chars m t ≡ cs) × (m (t.buffer + t.length) ≡ 0)

module _ (m : Memory) (s : String) (cstr n fresh : ℕ) (from : Valid s.buffer s.length)
    (ended : m (s.buffer + s.length) ≡ 0) (from' : Valid cstr n)
    (to : Valid fresh (s.length + n + 1)) (apart : Apart s.buffer s.length fresh (s.length + n + 1))
    (apart' : Apart cstr n fresh (s.length + n + 1)) where
  append_chars-Holds :
      let (m', t) = append_chars m s cstr (n + 1) fresh in Holds (chars m s ++ bytes m cstr n) m' t
  unfolding append_chars store_byte
  append_chars-Holds = elim (Bool-cases (leb (n + 1) 1)) [
    | inl nothing ↦
        let z : n ≡ 0 = ground (arith, nothing) in
        rw nothing
          (sym (ap (λ (k : ℕ). chars m s ++ bytes m cstr k) z ∙ append-nil (chars m s)), ended)
    | inr more ↦
        let less : sub64 (n + 1) 1 ≡ n = omega (arith, to) in
        let sum : add64 s.length n ≡ s.length + n = omega (arith, to) in
        rw (more, less, sum)
          (
            bytes-store_byte _ (fresh + (s.length + n)) 0 fresh (s.length + n) (inr (omega arith))
                ∙ second-append m s.buffer s.length cstr n fresh from from' to apart apart',
            ground arith,
          )
  ]

  -- `operator+` of a C string gives the characters of both and a terminator behind them, where the string has its
  -- terminator, the buffers are within the addresses, and the new one is apart from both. An empty C string
  -- changes neither the string nor the memory, and any other puts the string into the new buffer.
  pub append_cstr-Holds :
      (rounds : ℕ)
      → IsText m cstr n
      → n < rounds
      → (m' : Memory) × (t : String) × (append_cstr rounds m s cstr fresh ≡ some (m', t))
        × Holds (chars m s ++ bytes m cstr n) m' t
        × (((n ≡ 0) × (m' ≡ m) × (t ≡ s))
            ⊎ ((0 < n) × (t ≡ record { buffer = fresh; length = s.length + n })))
  unfolding append_cstr append_chars
  append_cstr-Holds rounds text enough =
      let (m', t) = append_chars m s cstr (n + 1) fresh in
      let there : (cstr == 0) ≡ false = ground (arith, from'.0) in
      let changed : ((n ≡ 0) × (m' ≡ m) × (t ≡ s))
          ⊎ ((0 < n) × (t ≡ record { buffer = fresh; length = s.length + n })) =
        elim (Bool-cases (leb (n + 1) 1)) [
          | inl nothing ↦ inl (ground (arith, nothing), rw nothing refl, rw nothing refl)
          | inr more ↦
              let sum : add64 s.length (sub64 (n + 1) 1) ≡ s.length + n = omega (arith, to) in
              inr (ground (arith, more), rw (more, sum) refl)
        ] in
      (
        m',
        t,
        rw (there, strlen-text_at rounds m cstr n text enough) refl,
        append_chars-Holds,
        changed,
      )

-- `==` says of two strings exactly whether they have the same characters.
pub equal-chars :
    (m : Memory) (lhs rhs : String)
    → Valid lhs.buffer lhs.length
    → Valid rhs.buffer rhs.length
    → (equal m lhs rhs ≡ true) ↔ (chars m lhs ≡ chars m rhs)
unfolding equal
equal-chars m lhs rhs from from' = elim (Bool-cases (lhs.length == rhs.length)) [
  | inr other ↦ (
    λ e. ground (arith, e, other),
    λ e. ground (
      arith,
      other,
      ap length e,
      length-bytes m lhs.buffer lhs.length,
      length-bytes m rhs.buffer rhs.length,
    ),
  )
  | inl same ↦
      let n : lhs.length ≡ rhs.length = ground (arith, same) in
      let (sound, complete) =
        memcmp-same m lhs.buffer rhs.buffer lhs.length (omega (arith, from))
          (omega (arith, from', n)) in
      let swap : bytes m rhs.buffer lhs.length ≡ bytes m rhs.buffer rhs.length =
        ap (bytes m rhs.buffer) n in
      (
        λ e.
            bytes_same m m lhs.buffer rhs.buffer lhs.length (sound (ground (arith, e, same)))
            ∙ swap,
        λ e.
            let zero_then =
              complete (bytes_at m m lhs.buffer rhs.buffer lhs.length (e ∙ sym swap)) in
            ground (arith, zero_then, same),
      )
]
