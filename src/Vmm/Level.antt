-- ===== src/Vmm/Level.antt =====
-- What one level of `map` does to the tables.
use eterna.Base.{
  ℕ, zero, suc, ◌+◌, ◌-◌, ◌%◌, ◌^◌, ◌≤◌, ◌<◌, ◌≡◌, ◌≢◌, refl, arith, true, false, Bool-cases, inl,
  inr, mul64, ◌<<<◌, ◌>>>◌,
}
use eterna.Pmm.{
  Pmm, Request, granted, refused, panicked, exhausted, page_size, pointer, request_page,
  request_loop,
}
use eterna.Pmm.Pages.{IsValid, total-lock_page}
use eterna.Pmm.OnePage.{OnePage, request_page-OnePage}
use eterna.Paging.{present, larger_pages, address, set_address, flag}
use eterna.Paging.Entry.{set_address-lt, address-set_address}
use eterna.Vmm.Flags.{set_flags-lt, address-set_flags, flag-set_flags}
use eterna.Vmm.{Vmm, zero_table, write_entry, set_flags, level, next_table}

-- Every entry has 64 bits, and the pages that are given out lie below 2 ^ 52.
pub record Fine (s : Vmm) : Type 0 where
  pub words : (t i : ℕ) → s.tables t i < 2 ^ 64
  pub pages : IsValid s.pmm
  pub low_pages : s.pmm.total_pages ≤ 2 ^ 40

total-request_loop : (left : ℕ) (p : Pmm) → (request_loop left p).1.total_pages ≡ p.total_pages
unfolding request_loop
total-request_loop zero p = refl
total-request_loop (suc left) p = ground (
  arith,
  total-lock_page p (mul64 p.first_free_page page_size),
  total-request_loop left (record p { first_free_page = p.first_free_page + 1 }),
)

-- The page that a request gives: aligned and below 2 ^ 52.
abbrev Given : Pmm → Request × Pmm → Type 0
Given p (request, p') = (pointer request % 4096 ≡ 0) × (pointer request < 2 ^ 52) × IsValid p'

OnePage-Given : (p : Pmm) (r : Request × Pmm) → p.total_pages ≤ 2 ^ 40 → OnePage p r → Given p r
unfolding pointer
OnePage-Given p (granted a, p') low (page, e, takes) =
    (omega (arith, e), omega (arith, e, takes.present), takes.valid)
OnePage-Given p (panicked, p') low has = (omega arith, omega arith, has.valid)
OnePage-Given p (refused, p') low h = absurd h
OnePage-Given p (exhausted, p') low h = absurd h

request_page-Given :
    (s : Vmm)
    → Fine s
    → Given s.pmm (request_page s.pmm) × ((request_page s.pmm).1.total_pages ≡ s.pmm.total_pages)
unfolding request_page
request_page-Given s v = (
  OnePage-Given s.pmm (request_page s.pmm) v.low_pages (request_page-OnePage s.pmm v.pages),
  total-request_loop (s.pmm.total_pages - s.pmm.first_free_page) s.pmm,
)

-- An entry that leads the processor to a table, or to a page in the last one.
pub record Points (m : ℕ → ℕ → ℕ) (table index next : ℕ) : Type 0 where
  pub there : flag (m table index) present ≡ true
  pub small : flag (m table index) larger_pages ≡ false
  pub at : next_table m table index ≡ next

-- What a level with `Present` and without `LargerPages` among its flags does: its entry leads to the next table, and no
-- table but those two is touched.
pub record Leads (s : Vmm) (table index : ℕ) (r : Vmm × ℕ) : Type 0 where
  pub fine : Fine r.0
  pub entry : Points r.0.tables table index r.1
  pub frame : (t i : ℕ) → t ≢ table → t ≢ r.1 → r.0.tables t i ≡ s.tables t i

module _ (s : Vmm) (table index m : ℕ) (v : Fine s) (on : flag m present ≡ true)
    (not_large : flag m larger_pages ≡ false) where
  abbrev value : ℕ
  value = s.tables table index

  level_present :
      flag value present ≡ true
      → level s table index m ≡ (
        record s { tables = write_entry s.tables table index (set_flags value m) },
        address (set_flags value m) <<< 12,
      )
  unfolding level
  level_present e = rw e refl

  abbrev page : ℕ
  page = pointer (request_page s.pmm).0

  abbrev fresh : ℕ
  fresh = set_address value (page >>> 12)

  level_absent :
      flag value present ≡ false
      → level s table index m ≡ (
        record s {
          tables = write_entry (zero_table s.tables page) table index (set_flags fresh m);
          pmm = (request_page s.pmm).1;
        },
        address (set_flags fresh m) <<< 12,
      )
  unfolding level
  level_absent e = rw e refl

  present-Leads : flag value present ≡ true → Leads s table index (level s table index m)
  unfolding write_entry next_table
  present-Leads e = rw (level_present e) (record {
    fine = record {
      words = λ t i. ground (arith, v.words t i, set_flags-lt value m (v.words table index));
      pages = v.pages;
      low_pages = v.low_pages;
    };
    entry =
        let flags = flag-set_flags value m (v.words table index) in
        record {
          there = ground (arith, flags.0, on);
          small = ground (arith, flags.7, not_large);
          at = ground arith;
        };
    frame = λ t i ne ne'. ground arith;
  })

  absent-Leads : flag value present ≡ false → Leads s table index (level s table index m)
  unfolding write_entry next_table zero_table
  absent-Leads e =
      let (given, total) = request_page-Given s v in
      let fits = set_address-lt value (v.words table index) (page >>> 12) in
      let next : address (set_flags fresh m) <<< 12 ≡ page = omega (
        arith,
        given,
        address-set_flags fresh m fits,
        (address-set_address value (v.words table index) (page >>> 12)).0,
      ) in
      rw (level_absent e) (record {
        fine = record {
          words = λ t i. ground (arith, v.words t i, set_flags-lt fresh m fits);
          pages = given.2;
          low_pages = omega (arith, total, v.low_pages);
        };
        entry =
            let flags = flag-set_flags fresh m fits in
            record {
              there = ground (arith, flags.0, on);
              small = ground (arith, flags.7, not_large);
              at = ground arith;
            };
        frame = λ t i ne ne'. ground (arith, next);
      })

  pub level-Leads : Leads s table index (level s table index m)
  level-Leads = elim (Bool-cases (flag value present)) [
    | inl e ↦ present-Leads e
    | inr e ↦ absent-Leads e
  ]
