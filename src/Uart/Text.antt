-- ===== src/Uart/Text.antt =====
-- What a string leaves on the line, when the chip keeps up.
use eterna.Base.{
  ℕ, zero, suc, ◌≤◌, ◌≡◌, ◌≢◌, refl, sym, subst, ap, ◌∙◌, inl, inr, bit_and, Bool, true, false,
  List, [], ◌∷◌, arith, length, ◌==◌, if◌then◌else◌, Bool-cases,
}
use eterna.Uart.{Uart, com1, line_status_port, out, skip_code, out_loop, out_string, out_bytes}
use eterna.Uart.Poll.{out-Wrote}

-- What is sent of a text with colour codes hidden: nothing from an escape to its `m`, and the character behind a code
-- whatever it is.
pub data Mode : Type 0 where
  plain code behind_code : Mode

unfoldable pub shown_in : Mode → List ℕ → List ℕ
shown_in plain [] = []
shown_in code [] = []
shown_in behind_code [] = []
shown_in plain (c ∷ cs) = if c == 27 then shown_in code cs else c ∷ shown_in plain cs
shown_in code (c ∷ cs) = if c == b'm' then shown_in behind_code cs else shown_in code cs
shown_in behind_code (c ∷ cs) = c ∷ shown_in plain cs

unfoldable pub shown : Bool → List ℕ → List ℕ
shown hide str = if hide then shown_in plain str else str

-- The bytes on the line after those of a text, the latest first.
abbrev pub sends : List ℕ → List (ℕ × ℕ) → List (ℕ × ℕ)
sends [] line = line
sends (c ∷ cs) line = sends cs ((com1, c) ∷ line)

-- The line status always has the transmit buffer empty.
abbrev pub KeepsUp : (ℕ → ℕ → ℕ) → Type 0
KeepsUp device = (n : ℕ) → bit_and (device n line_status_port) 32 ≢ 0

-- The state `t` is on, and has the text sent since `s`.
abbrev pub Sent : List ℕ → Uart → Uart → Type 0
Sent str s t = (t.initialized ≡ true) × (t.written ≡ sends str s.written) × (t.chip ≡ s.chip)

skip_code-shown : (cs : List ℕ) → shown_in code cs ≡ shown_in behind_code (skip_code cs)
unfolding shown_in skip_code
skip_code-shown [] = refl
skip_code-shown (c ∷ cs) = ground (arith, skip_code-shown cs)

length-skip_code : (cs : List ℕ) → length (skip_code cs) ≤ length cs
unfolding skip_code
length-skip_code [] = omega arith
length-skip_code (c ∷ cs) = ground (arith, length-skip_code cs)

module _ (device : ℕ → ℕ → ℕ) (keeps_up : KeepsUp device) where
  pub out-Sent : (s : Uart) (c : ℕ) → s.initialized ≡ true → Sent (c ∷ []) s (out device s c)
  out-Sent s c on = elim (out-Wrote device s c) [
    | inl (off, e) ↦ ground (arith, on, off)
    | inr (on', inl (same, (reads, clear))) ↦
        absurd (keeps_up s.reads (clear s.reads (omega arith) (omega arith)))
    | inr (on', inr (wrote, ready)) ↦ (
      ap (λ (t : Uart). t.initialized) wrote ∙ on,
      ap (λ (t : Uart). t.written) wrote,
      ap (λ (t : Uart). t.chip) wrote,
    )
  ]

  -- One character, and then the rest.
  Sent-behind :
      (str : List ℕ) (c : ℕ) (s t : Uart)
      → s.initialized ≡ true
      → Sent str (out device s c) t
      → Sent (c ∷ str) s t
  Sent-behind str c s t on (on', e, chip) =
      let first = out-Sent s c on in (on', e ∙ ap (sends str) first.1, chip ∙ first.2)

  -- Behind a colour code: the end of the text, or one character and then the rest.
  skipped :
      (rounds : ℕ) (rest : List ℕ) (s : Uart)
      → length rest ≤ rounds
      → s.initialized ≡ true
      → ((str : List ℕ) (s : Uart)
          → length str ≤ rounds
          → s.initialized ≡ true
          → Sent (shown true str) s (out_loop device true rounds str s))
      → Sent (shown_in behind_code rest) s (elim rest as (λ x. Uart) [
        | [] ↦ s
        | d ∷ ds ↦ out_loop device true rounds ds (out device s d)
      ])
  unfolding shown shown_in
  skipped rounds [] s enough on ih = (on, refl, refl)
  skipped rounds (d ∷ ds) s enough on ih =
      Sent-behind (shown_in plain ds) d s (out_loop device true rounds ds (out device s d)) on
        (ih ds (out device s d) (omega arith) (out-Sent s d on).0)

  out_loop-Sent :
      (hide : Bool) (rounds : ℕ) (str : List ℕ) (s : Uart)
      → length str ≤ rounds
      → s.initialized ≡ true
      → Sent (shown hide str) s (out_loop device hide rounds str s)
  unfolding out_loop shown shown_in
  out_loop-Sent false zero [] s enough on = (on, refl, refl)
  out_loop-Sent true zero [] s enough on = (on, refl, refl)
  out_loop-Sent hide zero (c ∷ cs) s enough on = absurd (omega arith)
  out_loop-Sent false (suc rounds) [] s enough on = (on, refl, refl)
  out_loop-Sent true (suc rounds) [] s enough on = (on, refl, refl)
  out_loop-Sent false (suc rounds) (c ∷ cs) s enough on =
      Sent-behind cs c s (out_loop device false rounds cs (out device s c)) on
        (out_loop-Sent false rounds cs (out device s c) (omega arith) (out-Sent s c on).0)
  out_loop-Sent true (suc rounds) (c ∷ cs) s enough on = elim (Bool-cases (c == 27)) [
    | inr text ↦ rw text (
        Sent-behind (shown_in plain cs) c s (out_loop device true rounds cs (out device s c)) on
          (out_loop-Sent true rounds cs (out device s c) (omega arith) (out-Sent s c on).0))
    | inl escape ↦
        rw (escape, skip_code-shown cs)
          (skipped rounds (skip_code cs) s (omega (arith, length-skip_code cs)) on
            (out_loop-Sent true rounds))
  ]

  -- While the chip keeps up, a string that is written with the driver on is sent character by character,
  -- in order and to its end: all of it, or what is left where colour codes are hidden. The driver stays on.
  pub out_string-Sent :
      (hide : Bool) (s : Uart) (str : List ℕ)
      → s.initialized ≡ true
      → Sent (shown hide str) s (out_string device hide s str)
  unfolding out_string
  out_string-Sent hide s str on =
      let sent = out_loop-Sent hide (length str) str s (omega arith) on in
      let same : out_string device hide s str ≡ out_loop device hide (length str) str s = simp on in
      subst (Sent (shown hide str) s) (sym same) sent

  pub out_bytes-Sent :
      (s : Uart) (bytes : List ℕ) → s.initialized ≡ true → Sent bytes s (out_bytes device s bytes)
  unfolding out_bytes
  out_bytes-Sent s [] on = (on, refl, refl)
  out_bytes-Sent s (c ∷ cs) on =
      let sent = out_bytes-Sent (out device s c) cs (out-Sent s c on).0 in
      let behind = Sent-behind cs c s (out_bytes device (out device s c) cs) on sent in
      let same : out_bytes device s (c ∷ cs) ≡ out_bytes device (out device s c) cs = simp on in
      subst (Sent (c ∷ cs) s) (sym same) behind
