-- ===== src/Vmm/Unmap.antt =====
-- `unmap`, read back by the processor's walk.
use eterna.Base.{ℕ, ◌^◌, ◌<◌, ◌≡◌, ◌≢◌, refl, arith, false, none, inl, ◌⊎◌}
use eterna.Paging.{present, larger_pages, flag, page_map_indexer}
use eterna.Paging.Entry.{flag-set_flag}
use eterna.Vmm.{Vmm, write_entry, unmap, next_table, translate}

-- The tables on the way to an address.
abbrev pub second_table : (ℕ → ℕ → ℕ) → ℕ → ℕ → ℕ
second_table m pml4 va = next_table m pml4 (page_map_indexer va).page_directory_pointer

abbrev pub third_table : (ℕ → ℕ → ℕ) → ℕ → ℕ → ℕ
third_table m pml4 va = next_table m (second_table m pml4 va) (page_map_indexer va).page_directory

abbrev pub fourth_table : (ℕ → ℕ → ℕ) → ℕ → ℕ → ℕ
fourth_table m pml4 va = next_table m (third_table m pml4 va) (page_map_indexer va).page_table

module _ (s : Vmm) (pml4 va : ℕ) where
  abbrev last_table : ℕ
  last_table = fourth_table s.tables pml4 va

  unmap_entry :
      s.tables last_table (page_map_indexer va).page < 2 ^ 64
      → flag ((unmap s pml4 va).tables last_table (page_map_indexer va).page) present ≡ false
  unfolding unmap write_entry
  unmap_entry fits =
      ground (
        arith,
        (flag-set_flag (s.tables last_table (page_map_indexer va).page) fits present false).0,
      )

  unmap_frame :
      (t i : ℕ)
      → ((t ≢ last_table) ⊎ (i ≢ (page_map_indexer va).page))
      → (unmap s pml4 va).tables t i ≡ s.tables t i
  unfolding unmap write_entry
  unmap_frame t i away = ground (arith, away)

module _ (s : Vmm) (pml4 va : ℕ) (words : (t i : ℕ) → s.tables t i < 2 ^ 64)
    (second : pml4 ≢ fourth_table s.tables pml4 va)
    (third : second_table s.tables pml4 va ≢ fourth_table s.tables pml4 va)
    (fourth : third_table s.tables pml4 va ≢ fourth_table s.tables pml4 va)
    (no_large_second : flag
        (s.tables (second_table s.tables pml4 va) (page_map_indexer va).page_directory)
        larger_pages
      ≡ false)
    (no_large_third : flag
        (s.tables (third_table s.tables pml4 va) (page_map_indexer va).page_table)
        larger_pages
      ≡ false) where
  -- After `unmap` the processor finds nothing at the address, whether it was mapped or not, if no entry on the way
  -- is that of a large page and the last table is none of the three before.
  pub translate-unmap : translate (unmap s pml4 va).tables pml4 va ≡ none
  unfolding next_table translate
  translate-unmap =
      let i = page_map_indexer va in
      let e₁ = unmap_frame s pml4 va pml4 i.page_directory_pointer (inl second) in
      let e₂ = unmap_frame s pml4 va (second_table s.tables pml4 va) i.page_directory (inl third) in
      let e₃ = unmap_frame s pml4 va (third_table s.tables pml4 va) i.page_table (inl fourth) in
      rw (e₁, e₂, e₃, no_large_second, no_large_third, unmap_entry s pml4 va (words _ _))
        (ground arith)

-- `unmap` of one address changes the walk of no other in the same page map: neither of one with another page in
-- the same last table, nor of one with another last table, where the last table of the first is none of the first
-- three tables of the other.
pub translate_other-unmap :
    (s : Vmm) (pml4 va other : ℕ)
    → let last = fourth_table s.tables pml4 va in
      pml4 ≢ last
      → second_table s.tables pml4 other ≢ last
      → third_table s.tables pml4 other ≢ last
      → ((fourth_table s.tables pml4 other ≢ last)
          ⊎ ((page_map_indexer other).page ≢ (page_map_indexer va).page))
      → translate (unmap s pml4 va).tables pml4 other ≡ translate s.tables pml4 other
unfolding next_table translate
translate_other-unmap s pml4 va other a b c d =
    let j = page_map_indexer other in
    let e₁ = unmap_frame s pml4 va pml4 j.page_directory_pointer (inl a) in
    let e₂ = unmap_frame s pml4 va (second_table s.tables pml4 other) j.page_directory (inl b) in
    let e₃ = unmap_frame s pml4 va (third_table s.tables pml4 other) j.page_table (inl c) in
    let e₄ = unmap_frame s pml4 va (fourth_table s.tables pml4 other) j.page d in
    rw (e₁, e₂, e₃, e₄) refl
