-- ===== src/String/Bytes.antt =====
-- The characters of a string, and what a copy does to them.
use eterna.Base.{
  ℕ, zero, suc, ◌+◌, ◌-◌, ◌^◌, ◌≤◌, ◌<◌, ◌≡◌, refl, ap, ap₂, ◌∙◌, ◌⊎◌, ◌&&◌, List, [], ◌∷◌, ◌++◌,
  arith, leb, ltb, if◌then◌else◌, length,
}
use eterna.Mem.{store_byte, memcpy}
use eterna.Mem.Copy.{memcpy-range}
use eterna.String.{String, Memory}

abbrev pub bytes : Memory → ℕ → ℕ → List ℕ
bytes m p zero = []
bytes m p (suc n) = m p ∷ bytes m (p + 1) n

abbrev pub chars : Memory → String → List ℕ
chars m s = bytes m s.buffer s.length

-- Two ranges of addresses with nothing in common.
abbrev pub Apart : ℕ → ℕ → ℕ → ℕ → Type 0
Apart p n q k = (p + n ≤ q) ⊎ (q + k ≤ p)

-- A range that is not at a null pointer and does not run over the end of the addresses.
abbrev pub Valid : ℕ → ℕ → Type 0
Valid p n = (0 < p) × (p + n < 2 ^ 64)

pub bytes_same :
    (m m' : Memory) (p q n : ℕ)
    → ((j : ℕ) → j < n → m (p + j) ≡ m' (q + j))
    → bytes m p n ≡ bytes m' q n
bytes_same m m' p q zero same = refl
bytes_same m m' p q (suc n) same =
    ap₂ (λ (x : ℕ) (xs : List ℕ). x ∷ xs) (shift m p ∙ same 0 (omega arith) ∙ unshift m' q)
      (bytes_same m m' (p + 1) (q + 1) n
        (λ j lt. step m p j ∙ same (suc j) (omega arith) ∙ unstep m' q j))
  where
    shift : (m : Memory) (p : ℕ) → m p ≡ m (p + 0)
    shift m p = ap m (omega arith)

    unshift : (m : Memory) (p : ℕ) → m (p + 0) ≡ m p
    unshift m p = ap m (omega arith)

    step : (m : Memory) (p j : ℕ) → m (p + 1 + j) ≡ m (p + suc j)
    step m p j = ap m (omega arith)

    unstep : (m : Memory) (p j : ℕ) → m (p + suc j) ≡ m (p + 1 + j)
    unstep m p j = ap m (omega arith)

-- Two ranges of bytes are the same where every byte is.
pub bytes_at :
    (m m' : Memory) (p q n : ℕ)
    → bytes m p n ≡ bytes m' q n
    → (j : ℕ) → j < n
    → m (p + j) ≡ m' (q + j)
bytes_at m m' p q zero e j lt = absurd (omega arith)
bytes_at m m' p q (suc n) e zero lt =
    let head : m p ≡ m' q = ground (arith, e) in ap m (omega arith) ∙ head ∙ ap m' (omega arith)
bytes_at m m' p q (suc n) e (suc j) lt =
    ap m (omega arith)
    ∙ bytes_at m m' (p + 1) (q + 1) n (ground (arith, e)) j (omega arith)
    ∙ ap m' (omega arith)

pub bytes-append : (m : Memory) (p a b : ℕ) → bytes m p (a + b) ≡ bytes m p a ++ bytes m (p + a) b
bytes-append m p zero b =
    let e : zero + b ≡ b = omega arith in let e' : p + zero ≡ p = omega arith in rw (e, e') refl
bytes-append m p (suc a) b =
    let e : suc a + b ≡ suc (a + b) = omega arith in
    let e' : p + 1 + a ≡ p + suc a = omega arith in
    rw e (
      ap (λ (l : List ℕ). m p ∷ l)
        (bytes-append m (p + 1) a b ∙ ap (λ (q : ℕ). bytes m (p + 1) a ++ bytes m q b) e'))

pub length-bytes : (m : Memory) (p n : ℕ) → length (bytes m p n) ≡ n
length-bytes m p zero = refl
length-bytes m p (suc n) = ap suc (length-bytes m (p + 1) n)

module _ (m : Memory) (src dest n : ℕ) (from : Valid src n) (to : Valid dest n)
    (apart : Apart src n dest n) where
  forward : (dest ≤ src) ⊎ (src + n ≤ dest)
  forward = ground (arith, apart)

  range :
      (j : ℕ)
      → memcpy m src dest n j
        ≡ (if leb dest j && ltb j (dest + n) then m (src + (j - dest)) else m j)
  range j =
      memcpy-range m src dest n j (omega (arith, from)) (omega (arith, to)) from.1 to.1 forward

  -- What was copied, and that nothing else has changed.
  pub bytes-memcpy : bytes (memcpy m src dest n) dest n ≡ bytes m src n
  bytes-memcpy = bytes_same (memcpy m src dest n) m dest src n (λ j lt.
      let back : dest + j - dest ≡ j = omega arith in ground (arith, range (dest + j), back))

  pub bytes_other-memcpy :
      (q k : ℕ) → Apart q k dest n → bytes (memcpy m src dest n) q k ≡ bytes m q k
  bytes_other-memcpy q k other =
      bytes_same (memcpy m src dest n) m q q k (λ j lt. ground (arith, range (q + j), other))

pub bytes-store_byte :
    (m : Memory) (at v q k : ℕ)
    → (at < q) ⊎ (q + k ≤ at)
    → bytes (store_byte m at v) q k ≡ bytes m q k
unfolding store_byte
bytes-store_byte m at v q k away =
    bytes_same (store_byte m at v) m q q k (λ j lt. ground (arith, away))
