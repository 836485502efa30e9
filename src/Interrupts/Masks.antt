-- ===== src/Interrupts/Masks.antt =====
-- Enabling and disabling one interrupt.
use eterna.Base.{
  ℕ, ◌-◌, ◌/◌, ◌%◌, ◌^◌, ◌≤◌, ◌<◌, ◌≡◌, refl, arith, Bool, true, false, ◌&&◌, [], ◌∷◌, ltb, ◌==◌,
  if◌then◌else◌, Bool-cases, inl, inr, ◌⊎◌,
}
use eterna.Base.Table.{each_below, each_below_lem, same_bool, same_bool→eq}
use eterna.Interrupts.{
  clear_mask, set_mask, pic1_data, pic2_data, Writes, enable_interrupt, disable_interrupt,
}

-- Whether the interrupt with the number `k` on its chip is masked.
abbrev pub masked : ℕ → ℕ → Bool
masked value k = value / 2 ^ k % 2 == 1

abbrev agrees : ℕ → ℕ → ℕ → Bool
agrees value irq k =
    same_bool (masked (clear_mask value irq) k) (if irq == k then false else masked value k)
    && same_bool (masked (set_mask value irq) k) (if irq == k then true else masked value k)

abbrev every : Bool
every = each_below (λ value. each_below (λ irq. each_below (agrees value irq) 8) 8) 256

every_lem : every ≡ true
unfolding each_below clear_mask set_mask
every_lem = refl

mask_bits :
    (value irq k : ℕ)
    → value < 256
    → irq < 8
    → k < 8
    → (masked (clear_mask value irq) k ≡ (if irq == k then false else masked value k))
      × (masked (set_mask value irq) k ≡ (if irq == k then true else masked value k))
mask_bits value irq k v i j =
    let a =
      each_below_lem (λ x. each_below (λ y. each_below (agrees x y) 8) 8) 256 every_lem value v in
    let b = each_below_lem (λ y. each_below (agrees value y) 8) 8 a irq i in
    let c = each_below_lem (agrees value irq) 8 b k j in
    (same_bool→eq _ _ (ground (arith, c)), same_bool→eq _ _ (ground (arith, c)))

-- One write, that masks or unmasks interrupt `irq` of sixteen and leaves the others of its chip.
abbrev pub OneMask : (ℕ → ℕ) → ℕ → Bool → Writes → Type 0
OneMask in8 irq value writes =
    (port : ℕ) × (written : ℕ) × (writes ≡ (port, written) ∷ [])
    × (port ≡ (if ltb irq 8 then pic1_data else pic2_data))
    × ((k : ℕ) → k < 8 → masked written k ≡ (if irq % 8 == k then value else masked (in8 port) k))

-- The effect on one of sixteen interrupts, or none at all.
abbrev pub Effect : (ℕ → ℕ) → ℕ → Bool → Writes → Type 0
Effect in8 irq value writes =
    ((irq < 16) × OneMask in8 irq value writes) ⊎ ((16 ≤ irq) × (writes ≡ []))

module _ (in8 : ℕ → ℕ) (bytes : (port : ℕ) → in8 port < 256) (irq : ℕ) where
  enable_interrupt-OneMask : Effect in8 irq false (enable_interrupt in8 irq)
  unfolding enable_interrupt
  enable_interrupt-OneMask = elim (Bool-cases (ltb irq 16)) [
    | inr big ↦ inr (ground arith, ground arith)
    | inl small ↦ inl (
      ground arith,
      elim (Bool-cases (ltb irq 8)) [
        | inl first ↦ (
          pic1_data,
          clear_mask (in8 pic1_data) irq,
          ground (arith, first),
          ground (arith, first),
          λ k p.
              ground
                (arith, (mask_bits (in8 pic1_data) irq k (bytes pic1_data) (ground arith) p).0),
        )
        | inr second ↦ (
          pic2_data,
          clear_mask (in8 pic2_data) (irq - 8),
          ground (arith, second),
          ground (arith, second),
          λ k p.
              ground (
                arith,
                (mask_bits (in8 pic2_data) (irq - 8) k (bytes pic2_data) (ground arith) p).0,
              ),
        )
      ],
    )
  ]

  disable_interrupt-OneMask : Effect in8 irq true (disable_interrupt in8 irq)
  unfolding disable_interrupt
  disable_interrupt-OneMask = elim (Bool-cases (ltb irq 16)) [
    | inr big ↦ inr (ground arith, ground arith)
    | inl small ↦ inl (
      ground arith,
      elim (Bool-cases (ltb irq 8)) [
        | inl first ↦ (
          pic1_data,
          set_mask (in8 pic1_data) irq,
          ground (arith, first),
          ground (arith, first),
          λ k p.
              ground
                (arith, (mask_bits (in8 pic1_data) irq k (bytes pic1_data) (ground arith) p).1),
        )
        | inr second ↦ (
          pic2_data,
          set_mask (in8 pic2_data) (irq - 8),
          ground (arith, second),
          ground (arith, second),
          λ k p.
              ground (
                arith,
                (mask_bits (in8 pic2_data) (irq - 8) k (bytes pic2_data) (ground arith) p).1,
              ),
        )
      ],
    )
  ]

  -- Enabling an interrupt writes once, to the chip it is on: its mask bit is cleared and no other; disabling
  -- it sets this bit and no other. One that does not exist is ignored. The ports read as bytes.
  pub interrupt-Effect :
      Effect in8 irq false (enable_interrupt in8 irq)
      × Effect in8 irq true (disable_interrupt in8 irq)
  interrupt-Effect = (enable_interrupt-OneMask, disable_interrupt-OneMask)
