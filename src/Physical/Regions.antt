-- ===== src/Physical/Regions.antt =====
-- Which pages are free once physical memory is set up.
use eterna.Base.{
  ℕ, ◌+◌, ◌*◌, ◌/◌, ◌≤◌, ◌^◌, ◌≡◌, refl, ◌∙◌, Bool, false, ◌&&◌, ◌||◌, List, [], ◌∷◌, arith, leb,
  ltb, ◌==◌, if◌then◌else◌, Bool-cases, inl, inr,
}
use eterna.Pmm.{Pmm, page_size, lock_pages, free_pages}
use eterna.Pmm.Pages.{IsValid, locked}
use eterna.Pmm.Runs.{
  lock_pages-IsValid, locked-lock_pages, total-lock_pages, free_pages-IsValid, locked-free_pages,
  total-free_pages,
}
use eterna.Physical.{Descriptor, conventional, free_segments}
use eterna.Physical.Reset.{SamePlace, page_map-lock_pages, page_map-free_pages}

-- The page lies in a run of `n` pages at an address.
abbrev pub in_run : ℕ → ℕ → ℕ → Bool
in_run address n j = leb (address / page_size) j && ltb j (address / page_size + n)

-- The page lies in a conventional segment of the memory map.
abbrev pub usable : List Descriptor → ℕ → Bool
usable [] j = false
usable (d ∷ ds) j =
    (d.kind == conventional && in_run d.physical_address d.num_pages j) || usable ds j

-- The segments end within the addresses.
abbrev pub Addressable : List Descriptor → Type 0
Addressable [] = Unit {0}
Addressable (d ∷ ds) = (d.physical_address + d.num_pages * page_size ≤ 2 ^ 64) × Addressable ds

-- What freeing the segments does.
pub record Freed (ds : List Descriptor) (s t : Pmm) : Type 0 where
  pub valid : IsValid t
  pub bits : (j : ℕ) → locked t j ≡ (if usable ds j then false else locked s j)
  pub total : t.total_pages ≡ s.total_pages
  pub place : SamePlace s t

Freed-behind :
    (d : Descriptor) (ds : List Descriptor) (s u t : Pmm)
    → ((j : ℕ)
        → locked u j ≡ (
            if d.kind == conventional && in_run d.physical_address d.num_pages j
            then false
            else locked s j))
    → u.total_pages ≡ s.total_pages
    → SamePlace s u
    → Freed ds u t
    → Freed (d ∷ ds) s t
Freed-behind d ds s u t here total (b, n) f = record {
  valid = f.valid;
  bits = λ j. ground (arith, f.bits j, here j);
  total = f.total ∙ total;
  place = (f.place.0 ∙ b, f.place.1 ∙ n);
}

pub free_segments-Freed :
    (ds : List Descriptor) (s : Pmm) → Addressable ds → IsValid s → Freed ds s (free_segments ds s)
unfolding free_segments
free_segments-Freed [] s fits v = record {
  valid = v;
  bits = λ j. refl;
  total = refl;
  place = (refl, refl);
}
free_segments-Freed (d ∷ ds) s (fits, rest) v = elim (Bool-cases (d.kind == conventional)) [
  | inr other ↦ rw other (
      Freed-behind d ds s s (free_segments ds s) (λ j. ground (arith, other)) refl (refl, refl)
        (free_segments-Freed ds s rest v))
  | inl free ↦
      let u = free_pages s d.physical_address d.num_pages in
      rw free (
        Freed-behind d ds s u (free_segments ds u)
          (λ j.
            locked-free_pages s d.physical_address d.num_pages v.bitmap fits j
            ∙ ground (arith, free))
          (total-free_pages s d.physical_address d.num_pages)
          (page_map-free_pages s d.physical_address d.num_pages)
          (free_segments-Freed ds u rest (free_pages-IsValid s d.physical_address d.num_pages v)))
]

-- Two runs locked behind each other: those of the bitmap and of the kernel.
module _ (s : Pmm) (v : IsValid s) (base n kernel k : ℕ)
    (here : base / page_size + n ≤ s.total_pages + 1)
    (there : kernel / page_size + k ≤ s.total_pages + 1) (fits : base + n * page_size ≤ 2 ^ 64)
    (fits' : kernel + k * page_size ≤ 2 ^ 64) where
  abbrev pub kept : Pmm
  kept = lock_pages s base n

  kept-IsValid : IsValid kept
  kept-IsValid = lock_pages-IsValid s base n v here

  pub locked-kept :
      (j : ℕ)
      → locked (lock_pages kept kernel k) j ≡ (in_run base n j || in_run kernel k j || locked s j)
  locked-kept j = ground (
    arith,
    locked-lock_pages kept kernel k kept-IsValid.bitmap fits' j,
    locked-lock_pages s base n v.bitmap fits j,
    v.covered,
    (page_map-lock_pages s base n).1,
  )

  pub both-IsValid : IsValid (lock_pages kept kernel k)
  both-IsValid =
      lock_pages-IsValid kept kernel k kept-IsValid
        (omega (arith, there, total-lock_pages s base n))

  pub total-both : (lock_pages kept kernel k).total_pages ≡ s.total_pages
  total-both = total-lock_pages kept kernel k ∙ total-lock_pages s base n
