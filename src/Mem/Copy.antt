-- ===== src/Mem/Copy.antt =====
-- `memcpy` copies forward, and `memcmp` compares.
use eterna.Base.{
  ℕ, zero, suc, ◌+◌, ◌-◌, ◌^◌, ◌≤◌, ◌<◌, ◌≡◌, ◌≢◌, ◌∙◌, refl, arith, not, ◌&&◌, leb, ltb, ◌==◌,
  if◌then◌else◌, Bool-cases, inl, inr, ◌⊎◌, add64, ap,
}
use eterna.Mem.{store_byte, copy_loop, memcpy, compare_loop, memcmp}

-- The destination does not lie within the source, behind its start.
abbrev pub Forward : ℕ → ℕ → ℕ → Type 0
Forward src dest n = (dest ≤ src) ⊎ (src + n ≤ dest)

copy_loop_lem :
    (left src dest : ℕ) (m : ℕ → ℕ) (j : ℕ)
    → src + left < 2 ^ 64
    → dest + left < 2 ^ 64
    → Forward src dest left
    → copy_loop left src dest m j
      ≡ (if leb dest j && ltb j (dest + left) then m (src + (j - dest)) else m j)
unfolding copy_loop store_byte
copy_loop_lem zero src dest m j fits fits' forward = ground arith
copy_loop_lem (suc left) src dest m j fits fits' forward =
    let a : add64 src 1 ≡ src + 1 = omega arith in
    let b : add64 dest 1 ≡ dest + 1 = omega arith in
    let next : j ≢ dest → dest ≤ j → src + 1 + (j - (dest + 1)) ≡ src + (j - dest) =
      λ ne le. omega arith in
    let here : j ≡ dest → m (src + (j - dest)) ≡ m src = λ e. ap m (omega arith) in
    rw (a, b)
      (ground (
        arith,
        next,
        here,
        copy_loop_lem left (src + 1) (dest + 1) (store_byte m dest (m src)) j (omega arith)
            (omega arith) (ground (arith, forward)),
      ))

-- `memcpy` copies its bytes and changes no other, where the destination does not begin within the source.
pub memcpy-range :
    (m : ℕ → ℕ) (src dest num_bytes j : ℕ)
    → src ≢ 0
    → dest ≢ 0
    → src + num_bytes < 2 ^ 64
    → dest + num_bytes < 2 ^ 64
    → Forward src dest num_bytes
    → memcpy m src dest num_bytes j
      ≡ (if leb dest j && ltb j (dest + num_bytes) then m (src + (j - dest)) else m j)
unfolding memcpy
memcpy-range m src dest num_bytes j s d fits fits' forward =
    ground (arith, s, d, copy_loop_lem num_bytes src dest m j fits fits' forward)

same_first :
    (m : ℕ → ℕ) (rest a b j : ℕ)
    → j ≡ 0
    → (if not (m a == m b) then 1 else rest) ≡ 0
    → m (a + j) ≡ m (b + j)
same_first m rest a b j z e =
    let head : m a ≡ m b = ground (arith, e) in ap m (omega arith) ∙ (head ∙ ap m (omega arith))

shifted :
    (m : ℕ → ℕ) (a b j : ℕ)
    → 0 < j
    → m (a + 1 + (j - 1)) ≡ m (b + 1 + (j - 1))
    → m (a + j) ≡ m (b + j)
shifted m a b j pos e = ap m (omega arith) ∙ (e ∙ ap m (omega arith))

shifted_on : (m : ℕ → ℕ) (a b j : ℕ) → m (a + suc j) ≡ m (b + suc j) → m (a + 1 + j) ≡ m (b + 1 + j)
shifted_on m a b j e = ap m (omega arith) ∙ (e ∙ ap m (omega arith))

shifted_back : (m : ℕ → ℕ) (a b j : ℕ) → m (a + 0) ≡ m (b + 0) → m a ≡ m b
shifted_back m a b j e = ap m (omega arith) ∙ (e ∙ ap m (omega arith))

compare_loop_lem :
    (m : ℕ → ℕ) (left a b : ℕ)
    → a + left < 2 ^ 64
    → b + left < 2 ^ 64
    → (compare_loop m left a b ≡ 0 → (j : ℕ) → j < left → m (a + j) ≡ m (b + j))
      × (((j : ℕ) → j < left → m (a + j) ≡ m (b + j)) → compare_loop m left a b ≡ 0)
unfolding compare_loop
compare_loop_lem m zero a b fits fits' = ((λ e j p. absurd (omega arith)), λ same. refl)
compare_loop_lem m (suc left) a b fits fits' =
    let next_a : add64 a 1 ≡ a + 1 = omega arith in
    let next_b : add64 b 1 ≡ b + 1 = omega arith in
    let (sound, complete) = compare_loop_lem m left (a + 1) (b + 1) (omega arith) (omega arith) in
    rw (next_a, next_b)
      (
        λ e j p. elim (Bool-cases (j == 0)) [
          | inl first ↦ same_first m (compare_loop m left (a + 1) (b + 1)) a b j (ground arith) e
          | inr later ↦
              let rest : compare_loop m left (a + 1) (b + 1) ≡ 0 = ground (arith, e) in
              shifted m a b j (ground arith) (sound rest (j - 1) (ground arith))
        ],
        λ same.
            let head : m a ≡ m b = shifted_back m a b 0 (same 0 (omega arith)) in
            let tail = complete (λ j p. shifted_on m a b j (same (suc j) (omega arith))) in
            ground (arith, head, tail),
      )

-- `memcmp` is 0 exactly where the bytes are the same.
pub memcmp-same :
    (m : ℕ → ℕ) (a b num_bytes : ℕ)
    → a + num_bytes < 2 ^ 64
    → b + num_bytes < 2 ^ 64
    → (memcmp m a b num_bytes ≡ 0 → (j : ℕ) → j < num_bytes → m (a + j) ≡ m (b + j))
      × (((j : ℕ) → j < num_bytes → m (a + j) ≡ m (b + j)) → memcmp m a b num_bytes ≡ 0)
unfolding memcmp
memcmp-same m a b num_bytes fits fits' =
    let (sound, complete) = compare_loop_lem m num_bytes a b fits fits' in
    elim (Bool-cases (a == b)) [
      | inl same_place ↦
          let e : a ≡ b = ground arith in
          rw same_place ((λ z j p. ap (λ (t : ℕ). m (t + j)) e), λ same. refl)
      | inr apart ↦ rw apart (sound, complete)
    ]
