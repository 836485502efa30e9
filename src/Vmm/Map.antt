-- ===== src/Vmm/Map.antt =====
-- `map`, read back by the processor's walk.
use eterna.Base.{
  ap, false, ℕ, ◌+◌, ◌*◌, ◌/◌, ◌%◌, ◌^◌, ◌≡◌, ◌≢◌, ◌∙◌, refl, arith, true, some, ◌>>>◌,
}
use eterna.Pmm.{page_size}
use eterna.Paging.{present, larger_pages, set_address, flag, page_map_indexer}
use eterna.Paging.Entry.{set_address-lt, address-set_address}
use eterna.Vmm.{Vmm, write_entry, level, map_page, map, next_table, translate}
use eterna.Vmm.Level.{Fine, Points, level-Leads}
use eterna.Vmm.Flags.{address-set_flags, flag-set_flags}

-- The tables that `map` passes through, from the second on, and the state at the last.
abbrev pub first_level : Vmm → ℕ → ℕ → ℕ → Vmm × ℕ
first_level s pml4 va m = level s pml4 (page_map_indexer va).page_directory_pointer m

abbrev pub second_level : Vmm → ℕ → ℕ → ℕ → Vmm × ℕ
second_level s pml4 va m =
    let r = first_level s pml4 va m in level r.0 r.1 (page_map_indexer va).page_directory m

abbrev pub third_level : Vmm → ℕ → ℕ → ℕ → Vmm × ℕ
third_level s pml4 va m =
    let r = second_level s pml4 va m in level r.0 r.1 (page_map_indexer va).page_table m

-- The four tables are different ones.
pub record Distinct (a b c d : ℕ) : Type 0 where
  pub ab : a ≢ b
  pub ac : a ≢ c
  pub ad : a ≢ d
  pub bc : b ≢ c
  pub bd : b ≢ d
  pub cd : c ≢ d

-- The walk along four tables.
translate_steps :
    (m : ℕ → ℕ → ℕ) (a b c d p va : ℕ)
    → let i = page_map_indexer va in
      Points m a i.page_directory_pointer b
      → Points m b i.page_directory c
      → Points m c i.page_table d
      → Points m d i.page p
      → translate m a va ≡ some (p + va % page_size)
unfolding translate
translate_steps m a b c d p va e f g h =
    rw (e.at, e.there, e.small, f.at, f.there, f.small, g.at, g.there, g.small, h.at, h.there) refl

Points-same : (m m' : ℕ → ℕ → ℕ) (t i n : ℕ) → m' t i ≡ m t i → Points m t i n → Points m' t i n
unfolding next_table
Points-same m m' t i n e p = record {
  there = ap (λ v. flag v present) e ∙ p.there;
  small = ap (λ v. flag v larger_pages) e ∙ p.small;
  at = ground (arith, e, p.at);
}

module _ (s : Vmm) (pml4 va pa m : ℕ) (v : Fine s) (on : flag m present ≡ true)
    (not_large : flag m larger_pages ≡ false) (some_map : pml4 ≢ 0) where
  abbrev r₁ : Vmm × ℕ
  r₁ = first_level s pml4 va m

  abbrev r₂ : Vmm × ℕ
  r₂ = second_level s pml4 va m

  abbrev r₃ : Vmm × ℕ
  r₃ = third_level s pml4 va m

  map_eq : map s pml4 va pa m ≡ map_page r₃.0 r₃.1 (page_map_indexer va).page pa m
  unfolding map
  map_eq = ground (arith, some_map)

  -- The page's entry, and that no other table is written.
  map_page_entry :
      (w : Vmm)
      → Fine w
      → (t i : ℕ)
      → Points (map_page w t i pa m).tables t i (pa / 4096 % 2 ^ 40 * 4096)
        × ((u j : ℕ) → u ≢ t → (map_page w t i pa m).tables u j ≡ w.tables u j)
  unfolding map_page write_entry next_table
  map_page_entry w fine t i =
      let fits = set_address-lt (w.tables t i) (fine.words t i) (pa >>> 12) in
      (
        (let value = set_address (w.tables t i) (pa >>> 12) in
            let flags = flag-set_flags value m fits in
            record {
              there = ground (arith, flags.0, on);
              small = ground (arith, flags.7, not_large);
              at = ground (
                arith,
                address-set_flags value m fits,
                (address-set_address (w.tables t i) (fine.words t i) (pa >>> 12)).0,
              );
            }),
        λ u j ne. ground arith,
      )

  -- After `map` with `Present` and without `LargerPages` among the flags, the processor finds the physical page at
  -- the virtual address, where the page map is not null, the page allocator is in a valid state, and the four
  -- tables that the walk passes are different ones.
  pub translate-map :
      Distinct pml4 r₁.1 r₂.1 r₃.1
      → translate (map s pml4 va pa m).tables pml4 va
        ≡ some (pa / 4096 % 2 ^ 40 * 4096 + va % page_size)
  translate-map d =
      let i = page_map_indexer va in
      let l₁ = level-Leads s pml4 i.page_directory_pointer m v on not_large in
      let l₂ = level-Leads r₁.0 r₁.1 i.page_directory m l₁.fine on not_large in
      let l₃ = level-Leads r₂.0 r₂.1 i.page_table m l₂.fine on not_large in
      let (here, frame) = map_page_entry r₃.0 l₃.fine r₃.1 i.page in
      let final = (map_page r₃.0 r₃.1 i.page pa m).tables in
      let keep₁ : final pml4 i.page_directory_pointer ≡ r₁.0.tables pml4 i.page_directory_pointer =
        frame pml4 _ d.ad ∙ (l₃.frame pml4 _ d.ac d.ad ∙ l₂.frame pml4 _ d.ab d.ac) in
      let keep₂ : final r₁.1 i.page_directory ≡ r₂.0.tables r₁.1 i.page_directory =
        frame r₁.1 _ d.bd ∙ l₃.frame r₁.1 _ d.bc d.bd in
      let keep₃ : final r₂.1 i.page_table ≡ r₃.0.tables r₂.1 i.page_table = frame r₂.1 _ d.cd in
      rw map_eq (
        translate_steps final pml4 r₁.1 r₂.1 r₃.1 _ va (Points-same _ _ _ _ _ keep₁ l₁.entry)
          (Points-same _ _ _ _ _ keep₂ l₂.entry) (Points-same _ _ _ _ _ keep₃ l₃.entry) here)
