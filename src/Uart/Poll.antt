-- ===== src/Uart/Poll.antt =====
-- Waiting for the line status, and what one byte in or out does.
use eterna.Base.{
  ℕ, zero, suc, ◌+◌, ◌-◌, ◌≤◌, ◌<◌, ◌≡◌, ◌≢◌, refl, sym, ap, subst, ◌⊎◌, inl, inr, bit_and, true,
  false, List, [], ◌∷◌, ◌++◌, if◌then◌else◌, arith, ◌==◌, Bool-cases,
}
use eterna.Uart.{Uart, com1, line_status_port, spin, out, out8}

module _ (device : ℕ → ℕ → ℕ) (mask : ℕ) where
  -- The bit is clear in the reads from one number to before another.
  abbrev pub Clear : ℕ → ℕ → Type 0
  Clear from end = (k : ℕ) → from ≤ k → k < end → bit_and (device k line_status_port) mask ≡ 0

  -- The wait ended in vain, after a read more than there are spins.
  abbrev pub TimedOut : ℕ → Uart → Uart → Type 0
  TimedOut spins s t = (t.reads ≡ s.reads + spins + 1) × Clear s.reads (s.reads + spins)

  -- The wait ended at the first read that has the bit.
  abbrev pub Ready : ℕ → Uart → Uart → Type 0
  Ready spins s t =
      (s.reads < t.reads)
      × (t.reads ≤ s.reads + spins)
      × Clear s.reads (t.reads - 1)
      × (bit_and (device (t.reads - 1) line_status_port) mask ≢ 0)

  abbrev pub Waits : ℕ → Uart → ℕ × Uart → Type 0
  Waits spins s (left, t) =
      (t ≡ record s { reads = t.reads })
      × (((left ≡ 0) × TimedOut spins s t) ⊎ ((0 < left) × Ready spins s t))

  Clear-behind :
      (from end : ℕ)
      → bit_and (device from line_status_port) mask ≡ 0
      → Clear (from + 1) end
      → Clear from end
  Clear-behind from end here rest k le lt = elim (Bool-cases (from == k)) [
    | inl same ↦ let e : from ≡ k = ground (arith, same) in rw (← e) here
    | inr other ↦ rest k (ground (arith, other)) lt
  ]

  Waits-behind :
      (spins : ℕ) (s : Uart) (r : ℕ × Uart)
      → bit_and (device s.reads line_status_port) mask ≡ 0
      → Waits spins (record s { reads = s.reads + 1 }) r
      → Waits (suc spins) s r
  Waits-behind spins s (left, t) clear (same, inl (nothing, (later, rest))) = (
    same,
    inl (
      nothing,
      (
        omega arith,
        λ k le lt.
            Clear-behind s.reads (s.reads + suc spins) clear
              (λ k le lt. rest k (omega arith) (omega arith)) k le lt,
      ),
    ),
  )
  Waits-behind spins s (left, t) clear (same, inr (some, (before, within, rest, set))) = (
    same,
    inr (some, (omega arith, omega arith, Clear-behind s.reads (t.reads - 1) clear rest, set)),
  )

  not_clear :
      (n : ℕ)
      → (bit_and (device n line_status_port) mask == 0) ≡ false
      → bit_and (device (n + 1 - 1) line_status_port) mask ≡ 0
      → ⊥
  not_clear n set e =
      let back : n + 1 - 1 ≡ n = omega arith in
      let e' = subst (λ (k : ℕ). bit_and (device k line_status_port) mask ≡ 0) back e in
      ground (arith, set, e')

  -- The loop polls the line status only, and ends.
  pub spin-Waits : (spins : ℕ) (s : Uart) → Waits spins s (spin device mask spins s)
  unfolding spin
  spin-Waits zero s = (refl, inl (refl, (omega arith, λ k le lt. absurd (omega arith))))
  spin-Waits (suc spins) s =
      elim (Bool-cases (bit_and (device s.reads line_status_port) mask == 0)) [
        | inl clear ↦ rw clear (
            Waits-behind spins s _ (ground (arith, clear))
              (spin-Waits spins (record s { reads = s.reads + 1 })))
        | inr set ↦ rw set (
          refl,
          inr (
            omega arith,
            (
              omega arith,
              omega arith,
              λ k le lt. absurd (omega arith),
              λ e. not_clear s.reads set e,
            ),
          ),
        )
      ]

module _ (device : ℕ → ℕ → ℕ) (s : Uart) (byte : ℕ) where
  -- The state `t` has polled the line status since `s`, and written `bytes` to the port.
  abbrev pub Wrote : List (ℕ × ℕ) → Uart → Type 0
  Wrote more t = t ≡ record s { reads = t.reads; written = more ++ s.written }

  -- What follows the wait.
  abbrev after_wait : ℕ × Uart → Uart
  after_wait (left, t) = if left == 0 then t else record t { written = (com1, byte) ∷ t.written }

  abbrev pub Sends : Uart → Type 0
  Sends t =
      (Wrote [] t × TimedOut device 32 16960 s t)
      ⊎ (Wrote ((com1, byte) ∷ []) t × Ready device 32 16960 s t)

  after_wait-Sends : (r : ℕ × Uart) → Waits device 32 16960 s r → Sends (after_wait r)
  after_wait-Sends (left, t) (same, inl (nothing, timed)) =
      let test : (left == 0) ≡ true = ground (arith, nothing) in rw test (inl (same, timed))
  after_wait-Sends (left, t) (same, inr (some, ready)) =
      let test : (left == 0) ≡ false = ground (arith, some) in
      rw test (inr (ap (λ (u : Uart). record u { written = (com1, byte) ∷ u.written }) same, ready))

  pub out_off : s.initialized ≡ false → out device s byte ≡ s
  unfolding out
  out_off off = simp off

  out_on : s.initialized ≡ true → out device s byte ≡ after_wait (spin device 32 16960 s)
  unfolding out out8
  out_on on = simp on

  -- `out` writes nothing and reads nothing while the driver is off. When it is on, it polls the line status: it
  -- writes the byte at the first poll that finds the transmit buffer empty, among 16960 polls, and
  -- gives up after one more if none does, with nothing written. Nothing else of the state changes.
  pub out-Wrote :
      ((s.initialized ≡ false) × (out device s byte ≡ s))
      ⊎ ((s.initialized ≡ true) × Sends (out device s byte))
  out-Wrote = elim (Bool-cases s.initialized) [
    | inr off ↦ inl (off, out_off off)
    | inl on ↦ inr (
      on,
      subst Sends (sym (out_on on))
          (after_wait-Sends (spin device 32 16960 s) (spin-Waits device 32 16960 s)),
    )
  ]
