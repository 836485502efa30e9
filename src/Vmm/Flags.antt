-- ===== src/Vmm/Flags.antt =====
-- The ten calls of `set_flag` that each level of `map` makes.
use eterna.Base.{ℕ, ◌+◌, ◌*◌, ◌/◌, ◌%◌, ◌^◌, ◌<◌, ◌≡◌, ◌∙◌, sym, ap, arith, Bool, ◌==◌}
use eterna.Paging.{
  PageTableFlag, present, read_write, user_super, write_through, cache_disabled, accessed, dirty,
  larger_pages, global, nx, selector, address, flag, set_flag,
}
use eterna.Paging.Fields.{address_form, flag_form, set_flag_form, digit}
use eterna.Paging.Entry.{set_flag-lt}
use eterna.Vmm.{set_flags}

abbrev pub flag_bits : ℕ → ℕ
flag_bits m =
    digit (flag m present)
    + 2 * digit (flag m read_write)
    + 4 * digit (flag m user_super)
    + 8 * digit (flag m write_through)
    + 16 * digit (flag m cache_disabled)
    + 32 * digit (flag m accessed)
    + 64 * digit (flag m dirty)
    + 128 * digit (flag m larger_pages)
    + 256 * digit (flag m nx)

digit-lt : (b : Bool) → digit b < 2
digit-lt b = ground arith

all_small :
    (m : ℕ)
    → (digit (flag m present) < 2)
      × (digit (flag m read_write) < 2)
      × (digit (flag m user_super) < 2)
      × (digit (flag m write_through) < 2)
      × (digit (flag m cache_disabled) < 2)
      × (digit (flag m accessed) < 2)
      × (digit (flag m dirty) < 2)
      × (digit (flag m larger_pages) < 2)
      × (digit (flag m nx) < 2)
all_small m = (
  digit-lt _,
  digit-lt _,
  digit-lt _,
  digit-lt _,
  digit-lt _,
  digit-lt _,
  digit-lt _,
  digit-lt _,
  digit-lt _,
)

flag_bits-lt : (m : ℕ) → flag_bits m < 512
flag_bits-lt m = omega (arith, all_small m)

-- Flags set from the lowest up: below the next flag stands what was written, above what was there.
module _ (v : ℕ) (fits : v < 2 ^ 64) where
  abbrev Written : ℕ → ℕ → ℕ → Type 0
  Written s low w = (w ≡ v / s * s + low) × (low < s) × (w < 2 ^ 64)

  next_arith :
      (f : PageTableFlag) (low w d : ℕ)
      → d < 2
      → w ≡ v / selector f * selector f + low
      → low < selector f
      → w / (2 * selector f) * (2 * selector f) + (d * selector f + w % selector f)
        ≡ v / (2 * selector f) * (2 * selector f) + (low + d * selector f)
  unfolding selector
  next_arith present low w d two e l = omega arith
  next_arith read_write low w d two e l = omega arith
  next_arith user_super low w d two e l = omega arith
  next_arith write_through low w d two e l = omega arith
  next_arith cache_disabled low w d two e l = omega arith
  next_arith accessed low w d two e l = omega arith
  next_arith dirty low w d two e l = omega arith
  next_arith larger_pages low w d two e l = omega arith
  next_arith global low w d two e l = omega arith
  next_arith nx low w d two e l = omega arith

  next_flag :
      (f : PageTableFlag) (low w : ℕ) (b : Bool)
      → Written (selector f) low w
      → Written (2 * selector f) (low + digit b * selector f) (set_flag w f b)
  next_flag f low w b (e, l, w_fits) = (
    set_flag_form w f b w_fits ∙ next_arith f low w (digit b) (ground arith) e l,
    ground arith,
    set_flag-lt w w_fits f b,
  )

  -- The last flag again.
  again :
      (low w : ℕ) (c b : Bool)
      → low < 256
      → Written 512 (low + digit c * 256) w
      → set_flag w global b ≡ v / 512 * 512 + (low + digit b * 256)
  unfolding selector
  again low w c b small (e, l, w_fits) = ground (arith, set_flag_form w global b w_fits)

  -- The low nine bits that `set_flags` writes: the last is `NX`'s.
  pub set_flags_form : (m : ℕ) → set_flags v m ≡ v / 512 * 512 + flag_bits m
  unfolding set_flags selector
  set_flags_form m =
      let w₀ = next_flag present 0 v (flag m present) (omega arith, omega arith, fits) in
      let w₁ = next_flag read_write _ _ (flag m read_write) w₀ in
      let w₂ = next_flag user_super _ _ (flag m user_super) w₁ in
      let w₃ = next_flag write_through _ _ (flag m write_through) w₂ in
      let w₄ = next_flag cache_disabled _ _ (flag m cache_disabled) w₃ in
      let w₅ = next_flag accessed _ _ (flag m accessed) w₄ in
      let w₆ = next_flag dirty _ _ (flag m dirty) w₅ in
      let w₇ = next_flag larger_pages _ _ (flag m larger_pages) w₆ in
      let w₈ = next_flag global _ _ (flag m global) w₇ in
      again _ _ (flag m global) (flag m nx) w₇.1 w₈
      ∙ ap (λ (t : ℕ). v / 512 * 512 + t) (omega arith)

-- The flags leave the address alone, and the first one is `Present`'s.
module _ (v m : ℕ) (fits : v < 2 ^ 64) where
  pub set_flags-lt : set_flags v m < 2 ^ 64
  set_flags-lt = omega (arith, set_flags_form v fits m, flag_bits-lt m)

  pub address-set_flags : address (set_flags v m) ≡ address v
  address-set_flags =
      rw (address_form (set_flags v m) set_flags-lt, address_form v fits, set_flags_form v fits m)
        (omega (arith, flag_bits-lt m))

  pub present-set_flags : flag (set_flags v m) present ≡ flag m present
  unfolding selector
  present-set_flags = rw (flag_form (set_flags v m) present, set_flags_form v fits m) (ground arith)

digit_flag : (b : Bool) (x : ℕ) → x ≡ digit b → (x == 1) ≡ b
digit_flag b x e = ground (arith, e)

-- What the ten flags of a 64-bit entry are after the calls of `set_flag` in `map`: each is the one asked for, except that
-- `Global` holds what was asked for `NX`, and `NX` keeps what the entry had. The entry keeps its address.
pub flag-set_flags :
    (v m : ℕ)
    → v < 2 ^ 64
    → (flag (set_flags v m) present ≡ flag m present)
      × (flag (set_flags v m) read_write ≡ flag m read_write)
      × (flag (set_flags v m) user_super ≡ flag m user_super)
      × (flag (set_flags v m) write_through ≡ flag m write_through)
      × (flag (set_flags v m) cache_disabled ≡ flag m cache_disabled)
      × (flag (set_flags v m) accessed ≡ flag m accessed)
      × (flag (set_flags v m) dirty ≡ flag m dirty)
      × (flag (set_flags v m) larger_pages ≡ flag m larger_pages)
      × (flag (set_flags v m) global ≡ flag m nx)
      × (flag (set_flags v m) nx ≡ flag v nx)
      × (address (set_flags v m) ≡ address v)
unfolding selector
flag-set_flags v m fits =
    let e = set_flags_form v fits m in
    let small = all_small m in
    (
      present-set_flags v m fits,
      flag_form (set_flags v m) read_write ∙ digit_flag _ _ (omega (arith, e, small)),
      flag_form (set_flags v m) user_super ∙ digit_flag _ _ (omega (arith, e, small)),
      flag_form (set_flags v m) write_through ∙ digit_flag _ _ (omega (arith, e, small)),
      flag_form (set_flags v m) cache_disabled ∙ digit_flag _ _ (omega (arith, e, small)),
      flag_form (set_flags v m) accessed ∙ digit_flag _ _ (omega (arith, e, small)),
      flag_form (set_flags v m) dirty ∙ digit_flag _ _ (omega (arith, e, small)),
      flag_form (set_flags v m) larger_pages ∙ digit_flag _ _ (omega (arith, e, small)),
      flag_form (set_flags v m) global ∙ digit_flag _ _ (omega (arith, e, small)),
      flag_form (set_flags v m) nx
          ∙ (ap (λ (t : ℕ). t == 1) (omega (arith, e, flag_bits-lt m)) ∙ sym (flag_form v nx)),
      address-set_flags v m fits,
    )
