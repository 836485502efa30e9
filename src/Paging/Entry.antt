-- ===== src/Paging/Entry.antt =====
-- The fields of an entry are independent, and the indices of an address are its digits.
use eterna.Bits.{bit_and_ones}
use eterna.Base.{ℕ, ◌+◌, ◌*◌, ◌/◌, ◌%◌, ◌^◌, ◌<◌, ◌≡◌, ◌∙◌, sym, arith, Bool, ◌==◌}
use eterna.Paging
use eterna.Paging.{
  PageTableFlag, present, read_write, user_super, write_through, cache_disabled, accessed, dirty,
  larger_pages, global, nx, selector, PageMapIndexer, page_map_indexer,
}
use eterna.Paging.Fields.{address_form, set_address_form, flag_form, set_flag_form, digit}

-- Flags lie below or above the address.
flag_outside :
    (f : PageTableFlag) (v w : ℕ)
    → v % 4096 ≡ w % 4096
    → v / 2 ^ 52 ≡ w / 2 ^ 52
    → (v / selector f % 2 == 1) ≡ (w / selector f % 2 == 1)
unfolding selector
flag_outside present v w low high = ground arith
flag_outside read_write v w low high = ground arith
flag_outside user_super v w low high = ground arith
flag_outside write_through v w low high = ground arith
flag_outside cache_disabled v w low high = ground arith
flag_outside accessed v w low high = ground arith
flag_outside dirty v w low high = ground arith
flag_outside larger_pages v w low high = ground arith
flag_outside global v w low high = ground arith
flag_outside nx v w low high = ground arith

address_inside :
    (f : PageTableFlag) (v d : ℕ)
    → d < 2
    → v < 2 ^ 64
    → (v / (2 * selector f) * (2 * selector f) + (d * selector f + v % selector f)) / 4096 % 2 ^ 40
      ≡ v / 4096 % 2 ^ 40
unfolding selector
address_inside present v d small fits = omega arith
address_inside read_write v d small fits = omega arith
address_inside user_super v d small fits = omega arith
address_inside write_through v d small fits = omega arith
address_inside cache_disabled v d small fits = omega arith
address_inside accessed v d small fits = omega arith
address_inside dirty v d small fits = omega arith
address_inside larger_pages v d small fits = omega arith
address_inside global v d small fits = omega arith
address_inside nx v d small fits = omega arith

digit_here :
    (f : PageTableFlag) (v : ℕ) (b : Bool)
    → ((v / (2 * selector f) * (2 * selector f) + (digit b * selector f + v % selector f))
          / selector f
          % 2
        == 1)
      ≡ b
unfolding selector
digit_here present v b = ground arith
digit_here read_write v b = ground arith
digit_here user_super v b = ground arith
digit_here write_through v b = ground arith
digit_here cache_disabled v b = ground arith
digit_here accessed v b = ground arith
digit_here dirty v b = ground arith
digit_here larger_pages v b = ground arith
digit_here global v b = ground arith
digit_here nx v b = ground arith

still_fits :
    (f : PageTableFlag) (v : ℕ) (b : Bool)
    → v < 2 ^ 64
    → v / (2 * selector f) * (2 * selector f) + (digit b * selector f + v % selector f) < 2 ^ 64
unfolding selector
still_fits present v b fits = ground arith
still_fits read_write v b fits = ground arith
still_fits user_super v b fits = ground arith
still_fits write_through v b fits = ground arith
still_fits cache_disabled v b fits = ground arith
still_fits accessed v b fits = ground arith
still_fits dirty v b fits = ground arith
still_fits larger_pages v b fits = ground arith
still_fits global v b fits = ground arith
still_fits nx v b fits = ground arith

digit-lt : (b : Bool) → digit b < 2
digit-lt b = ground arith

module _ (v : ℕ) (fits : v < 2 ^ 64) where
  pub set_address-lt : (a : ℕ) → Paging.set_address v a < 2 ^ 64
  set_address-lt a = omega (arith, set_address_form v a fits)

  pub set_flag-lt : (f : PageTableFlag) (b : Bool) → Paging.set_flag v f b < 2 ^ 64
  set_flag-lt f b = rw (set_flag_form v f b fits) (still_fits f v b fits)

  -- The address reads back, cut to 40 bits, and every flag is what it was.
  pub address-set_address :
      (a : ℕ)
      → (Paging.address (Paging.set_address v a) ≡ a % 2 ^ 40)
        × ((f : PageTableFlag) → Paging.flag (Paging.set_address v a) f ≡ Paging.flag v f)
  address-set_address a = (
    omega (
      arith,
      address_form (Paging.set_address v a) (set_address-lt a),
      set_address_form v a fits,
    ),
    λ f.
        flag_form (Paging.set_address v a) f
        ∙ (flag_outside f (Paging.set_address v a) v (omega (arith, set_address_form v a fits))
              (omega (arith, set_address_form v a fits))
            ∙ sym (flag_form v f)),
  )

  -- A flag reads back, and the address is what it was.
  pub flag-set_flag :
      (f : PageTableFlag) (b : Bool)
      → (Paging.flag (Paging.set_flag v f b) f ≡ b)
        × (Paging.address (Paging.set_flag v f b) ≡ Paging.address v)
  flag-set_flag f b = (
    rw (flag_form (Paging.set_flag v f b) f, set_flag_form v f b fits) (digit_here f v b),
    rw
        (
          address_form (Paging.set_flag v f b) (set_flag-lt f b),
          address_form v fits,
          set_flag_form v f b fits,
        )
        (address_inside f v (digit b) (digit-lt b) fits),
  )

-- The four indices and the offset give back the low 48 bits of an address.
pub page_map_indexer-address :
    (v : ℕ)
    → let i = page_map_indexer v in
      (((i.page_directory_pointer * 512 + i.page_directory) * 512 + i.page_table) * 512 + i.page)
          * 4096
        + v % 4096
      ≡ v % 2 ^ 48
unfolding page_map_indexer
page_map_indexer-address v = omega (
  arith,
  bit_and_ones 9 (v / 2 ^ 12),
  bit_and_ones 9 (v / 2 ^ 12 / 2 ^ 9),
  bit_and_ones 9 (v / 2 ^ 12 / 2 ^ 9 / 2 ^ 9),
  bit_and_ones 9 (v / 2 ^ 12 / 2 ^ 9 / 2 ^ 9 / 2 ^ 9),
)
