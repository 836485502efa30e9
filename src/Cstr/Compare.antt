-- ===== src/Cstr/Compare.antt =====
-- `strlen` and `strcmp`.
use eterna.Base.{
  ℕ, zero, suc, ◌+◌, ◌≤◌, ◌<◌, ◌≡◌, ◌≢◌, ◌∙◌, refl, ap, arith, true, false, ◌==◌, Bool-cases, inl,
  inr, some,
}
use eterna.Cstr.{strlen_loop, strlen, strcmp_loop, strcmp}

strlen_loop_lem :
    (rounds : ℕ) (a : ℕ → ℕ) (at out n : ℕ)
    → a (at + n) ≡ 0
    → ((j : ℕ) → j < n → a (at + j) ≢ 0)
    → n < rounds
    → strlen_loop rounds a at out ≡ some (out + n + 1)
unfolding strlen_loop
strlen_loop_lem zero a at out n ends before enough = absurd (omega arith)
strlen_loop_lem (suc rounds) a at out zero ends before enough =
    let here : (a at == 0) ≡ true = ground (arith, ends) in rw here (ap some (omega arith))
strlen_loop_lem (suc rounds) a at out (suc n) ends before enough =
    let here : (a at == 0) ≡ false = ground (arith, before 0) in
    let later =
      strlen_loop_lem rounds a (at + 1) (out + 1) n (ground (arith, ends))
        (λ j p e. ground (arith, before (suc j))) (omega arith) in
    rw here (later ∙ ap some (omega arith))

-- `strlen` of a string whose first terminator is at `n` is `n + 1`: the terminator is counted.
pub strlen-terminator :
    (rounds : ℕ) (a : ℕ → ℕ) (n : ℕ)
    → a n ≡ 0
    → ((j : ℕ) → j < n → a j ≢ 0)
    → n < rounds
    → strlen rounds a ≡ some (n + 1)
unfolding strlen
strlen-terminator rounds a n ends before enough =
    strlen_loop_lem rounds a 0 0 n (ground (arith, ends)) (λ j p e. ground (arith, before j)) enough
    ∙ ap some (omega arith)

strcmp_loop_lem :
    (a b : ℕ → ℕ) (i left : ℕ)
    → (strcmp_loop a b i left ≡ true → (j : ℕ) → i ≤ j → j < i + left → a j ≡ b j)
      × (((j : ℕ) → i ≤ j → j < i + left → a j ≡ b j) → strcmp_loop a b i left ≡ true)
unfolding strcmp_loop
strcmp_loop_lem a b i zero = ((λ e j p q. absurd (omega arith)), λ same. refl)
strcmp_loop_lem a b i (suc left) =
    let (sound, complete) = strcmp_loop_lem a b (i + 1) left in
    (
      λ e j p q.
          let head : (a i == b i) ≡ true = ground (arith, e) in
          let rest : strcmp_loop a b (i + 1) left ≡ true = ground (arith, e) in
          elim (Bool-cases (i == j)) [
            | inl here ↦ ground (arith, head, here)
            | inr past ↦ sound rest j (ground arith) (omega arith)
          ],
      λ same. ground (arith, same i, complete (λ j p q. same j (omega arith) (omega arith))),
    )

-- `strcmp` says whether the first `length` characters are the same; it does not stop at a terminator.
pub strcmp-same :
    (a b : ℕ → ℕ) (length : ℕ)
    → (strcmp a b length ≡ true → (j : ℕ) → j < length → a j ≡ b j)
      × (((j : ℕ) → j < length → a j ≡ b j) → strcmp a b length ≡ true)
unfolding strcmp
strcmp-same a b length =
    let (sound, complete) = strcmp_loop_lem a b 0 length in
    (
      λ e j p. sound e j (omega arith) (omega arith),
      λ same. complete (λ j p q. same j (omega arith)),
    )
