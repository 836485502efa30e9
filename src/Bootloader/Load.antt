-- ===== src/Bootloader/Load.antt =====
-- The kernel's segments in memory, and the test of its header.
use eterna.Base.{
  ℕ, ◌+◌, ◌-◌, ◌*◌, ◌≤◌, ◌<◌, ◌≡◌, ◌↔◌, refl, ◌∙◌, inl, inr, Bool, true, false, ◌&&◌, ◌||◌, Option,
  none, some, zero, suc, ap, List, [], ◌∷◌, arith, leb, ltb, ◌==◌, if◌then◌else◌, Bool-cases,
}
use eterna.Bootloader.{
  Memory, Services, Elf, Elf64Ehdr, Elf64Phdr, memcmp_loop, is_same, is_kernel, load_segment,
  table_at, load_segments,
}

-- What UEFI documents of `SetMem`, and of `Read` in a file that has the bytes.
pub record Documented (efi : Services) : Type 0 where
  pub set_mem_lem :
      (m : Memory) (p n v j : ℕ)
      → efi.set_mem m p n v j ≡ (if leb p j && ltb j (p + n) then v else m j)
  pub read_lem :
      (file : Memory) (at n : ℕ) (m : Memory) (p j : ℕ)
      → efi.read file at n m p j ≡ (if leb p j && ltb j (p + n) then file (at + (j - p)) else m j)

-- The address lies in the segment of a program header that is to be loaded, or of one of several.
abbrev pub in_segment : Elf → Elf64Phdr → ℕ → Bool
in_segment elf phdr j =
    phdr.p_type == elf.pt_load && (leb phdr.p_paddr j && ltb j (phdr.p_paddr + phdr.p_memsz))

abbrev pub in_segments : Elf → List Elf64Phdr → ℕ → Bool
in_segments elf [] j = false
in_segments elf (phdr ∷ phdrs) j = in_segment elf phdr j || in_segments elf phdrs j

-- A segment has an address, holds the bytes of the file, and no address of it is in a later one.
abbrev pub Loadable : Elf → List Elf64Phdr → Type 0
Loadable elf [] = Unit {0}
Loadable elf (phdr ∷ phdrs) =
    (0 < phdr.p_paddr)
    × (phdr.p_filesz ≤ phdr.p_memsz)
    × ((j : ℕ) → (in_segment elf phdr j && in_segments elf phdrs j) ≡ false)
    × Loadable elf phdrs

-- The byte of a segment at an address: from the file, or 0 behind what the file has of it.
abbrev pub segment_byte : Memory → Elf64Phdr → ℕ → ℕ
segment_byte contents phdr j =
    if ltb (j - phdr.p_paddr) phdr.p_filesz
    then contents (phdr.p_offset + (j - phdr.p_paddr))
    else 0

abbrev pub image : Elf → Memory → List Elf64Phdr → Memory → ℕ → ℕ
image elf contents [] m j = m j
image elf contents (phdr ∷ phdrs) m j =
    if in_segment elf phdr j then segment_byte contents phdr j else image elf contents phdrs m j

-- A byte of the first segment, or of the ones behind it.
first_or_later :
    (here later : Bool) (byte m₁ m image₁ image : ℕ)
    → (here && later) ≡ false
    → m₁ ≡ (if here then byte else m)
    → (later ≡ false → image₁ ≡ m₁)
    → (m₁ ≡ m → image₁ ≡ image)
    → image₁ ≡ (if here then byte else image)
first_or_later true later byte m₁ m image₁ image apart first outside other = outside apart ∙ first
first_or_later false later byte m₁ m image₁ image apart first outside other = other first

-- The loop over a list of program headers that lies outside the memory.
unfoldable load_list : Services → Elf → Memory → List Elf64Phdr → Memory → Option Memory
load_list efi elf contents [] m = some m
load_list efi elf contents (phdr ∷ phdrs) m = elim (load_segment efi elf contents phdr m) [
  | none ↦ none
  | some m' ↦ load_list efi elf contents phdrs m'
]

module _ (efi : Services) (laws : Documented efi) (elf : Elf) (contents : Memory) where
  abbrev Loads : List Elf64Phdr → Memory → Type 0
  Loads phdrs m =
      (m' : Memory) × (load_list efi elf contents phdrs m ≡ some m')
      × ((j : ℕ) → m' j ≡ image elf contents phdrs m j)

  -- An address outside the segments keeps what it had, whatever that was.
  image_other :
      (phdrs : List Elf64Phdr) (m m' : Memory) (j : ℕ)
      → m' j ≡ m j
      → image elf contents phdrs m' j ≡ image elf contents phdrs m j
  image_other [] m m' j e = e
  image_other (phdr ∷ phdrs) m m' j e = ground (arith, image_other phdrs m m' j e)

  image_outside :
      (phdrs : List Elf64Phdr) (m : Memory) (j : ℕ)
      → in_segments elf phdrs j ≡ false
      → image elf contents phdrs m j ≡ m j
  image_outside [] m j out = refl
  image_outside (phdr ∷ phdrs) m j out = ground (arith, image_outside phdrs m j)

  load_segment_lem :
      (phdr : Elf64Phdr) (m : Memory)
      → 0 < phdr.p_paddr
      → phdr.p_filesz ≤ phdr.p_memsz
      → (m' : Memory) × (load_segment efi elf contents phdr m ≡ some m')
        × ((j : ℕ) → m' j ≡ (if in_segment elf phdr j then segment_byte contents phdr j else m j))
  unfolding load_segment
  load_segment_lem phdr m there fits = elim (Bool-cases (phdr.p_type == elf.pt_load)) [
    | inr other ↦ (m, rw other refl, λ j. ground (arith, other))
    | inl load ↦
        let cleared = efi.set_mem m phdr.p_paddr phdr.p_memsz 0 in
        let place : (phdr.p_paddr == 0) ≡ false = ground (arith, there) in
        (
          efi.read contents phdr.p_offset phdr.p_filesz cleared phdr.p_paddr,
          rw (load, place) refl,
          λ j. ground (
            arith,
            load,
            laws.read_lem contents phdr.p_offset phdr.p_filesz cleared phdr.p_paddr j,
            laws.set_mem_lem m phdr.p_paddr phdr.p_memsz 0 j,
          ),
        )
  ]

  -- Loading the segments ends. Then every address in a segment has the segment's byte, from the file or 0, and every other
  -- one what it had, where the segments have addresses, hold the bytes of the file and do not overlap.
  load_list-image : (phdrs : List Elf64Phdr) (m : Memory) → Loadable elf phdrs → Loads phdrs m
  unfolding load_list
  load_list-image [] m ok = (m, refl, λ j. refl)
  load_list-image (phdr ∷ phdrs) m (there, fits, apart, ok) =
      let (m₁, e, first) = load_segment_lem phdr m there fits in
      let (m₂, e', rest) = load_list-image phdrs m₁ ok in
      (
        m₂,
        rw (e, load_list) e',
        λ j.
            rest j
            ∙ first_or_later (in_segment elf phdr j) (in_segments elf phdrs j)
                (segment_byte contents phdr j) (m₁ j) (m j) (image elf contents phdrs m₁ j)
                (image elf contents phdrs m j) (apart j) (first j) (image_outside phdrs m₁ j)
                (image_other phdrs m m₁ j),
      )

-- The program headers of a file, from a position on and `size` bytes apart.
abbrev pub headers_from : Elf → Memory → ℕ → ℕ → ℕ → List Elf64Phdr
headers_from elf contents size zero at = []
headers_from elf contents size (suc left) at =
    elf.phdr_at (table_at contents at) ∷ headers_from elf contents size left (at + size)

-- A program header lies in the `size` bytes that the table has for it.
abbrev pub HoldsPhdr : Elf → ℕ → Type 0
HoldsPhdr elf size =
    (a b : Memory) → ((j : ℕ) → j < size → a j ≡ b j) → elf.phdr_at a ≡ elf.phdr_at b

-- No address of the table in memory is in a segment.
abbrev pub TableApart : Elf → List Elf64Phdr → ℕ → ℕ → Type 0
TableApart elf phdrs table length =
    (j : ℕ) → table ≤ j → j < table + length → in_segments elf phdrs j ≡ false

module _ (efi : Services) (laws : Documented efi) (elf : Elf) (contents : Memory) (size : ℕ)
    (holds : HoldsPhdr elf size) where
  -- The loop reads from memory the headers of the file, as long as no segment covers them.
  load_segments-load_list :
      (left table at : ℕ) (m : Memory)
      → ((j : ℕ) → j < left * size → m (table + j) ≡ contents (at + j))
      → Loadable elf (headers_from elf contents size left at)
      → TableApart elf (headers_from elf contents size left at) table (left * size)
      → load_segments efi elf contents size left table m
        ≡ load_list efi elf contents (headers_from elf contents size left at) m
  unfolding load_segments load_list table_at
  load_segments-load_list zero table at m copied ok apart = refl
  load_segments-load_list (suc left) table at m copied (there, fits, away, ok) apart =
      let phdr = elf.phdr_at (table_at contents at) in
      let rest = headers_from elf contents size left (at + size) in
      let same : elf.phdr_at (table_at m table) ≡ phdr =
        holds (table_at m table) (table_at contents at) (λ j lt. copied j (omega arith)) in
      let (m', e, bytes) = load_segment_lem efi laws elf contents phdr m there fits in
      let outside : (j : ℕ)
          → table ≤ j
          → j < table + suc left * size
          → (in_segment elf phdr j ≡ false) × (in_segments elf rest j ≡ false) =
        λ j le lt. neither _ _ (apart j le lt) in
      rw (same, e, load_segments, load_list)
        (load_segments-load_list left (table + size) (at + size) m'
          (λ j lt.
            let place : table + size + j ≡ table + (size + j) = omega arith in
            let position : at + (size + j) ≡ at + size + j = omega arith in
            let kept = (outside (table + size + j) (omega arith) (omega arith)).0 in
            bytes (table + size + j)
            ∙ (rw kept (ap m place ∙ (copied (size + j) (omega arith) ∙ ap contents position))))
          ok (λ j le lt. (outside j (omega arith) (omega arith)).1))
    where
      neither : (a b : Bool) → (a || b) ≡ false → (a ≡ false) × (b ≡ false)
      neither a b e = (ground (arith, e), ground (arith, e))

  -- Loading the segments ends. Then every address in a segment has the segment's byte, from the file or 0, and every other
  -- one what it had, where the headers in memory are the file's and no segment covers them, and where the segments have
  -- addresses, hold the bytes of the file and do not overlap.
  pub load_segments-image :
      (left table at : ℕ) (m : Memory)
      → ((j : ℕ) → j < left * size → m (table + j) ≡ contents (at + j))
      → Loadable elf (headers_from elf contents size left at)
      → TableApart elf (headers_from elf contents size left at) table (left * size)
      → (m' : Memory) × (load_segments efi elf contents size left table m ≡ some m')
        × ((j : ℕ) → m' j ≡ image elf contents (headers_from elf contents size left at) m j)
  load_segments-image left table at m copied ok apart =
      let (m', e, bytes) =
        load_list-image efi laws elf contents (headers_from elf contents size left at) m ok in
      (m', load_segments-load_list left table at m copied ok apart ∙ e, bytes)

-- The four magic bytes, and the five fields of a 64-bit executable of the loader's machine, byte order and
-- version.
pub record IsKernel (elf : Elf) (h : Elf64Ehdr) : Type 0 where
  pub magic₀ : h.e_ident 0 ≡ elf.elfmag 0
  pub magic₁ : h.e_ident 1 ≡ elf.elfmag 1
  pub magic₂ : h.e_ident 2 ≡ elf.elfmag 2
  pub magic₃ : h.e_ident 3 ≡ elf.elfmag 3
  pub class : h.ei_class ≡ elf.elfclass64
  pub encoding : h.ei_data ≡ elf.elfdata2lsb
  pub executable : h.e_type ≡ elf.et_exec
  pub machine : h.e_machine ≡ elf.em_x86_64
  pub version : h.e_version ≡ elf.ev_current

same_magic :
    (a b : Memory)
    → is_same (memcmp_loop a b 4 0) ≡ true
    → (a 0 ≡ b 0) × (a 1 ≡ b 1) × (a 2 ≡ b 2) × (a 3 ≡ b 3)
unfolding memcmp_loop is_same
same_magic a b e = ground (arith, e)

magic_same :
    (a b : Memory)
    → a 0 ≡ b 0
    → a 1 ≡ b 1
    → a 2 ≡ b 2
    → a 3 ≡ b 3
    → is_same (memcmp_loop a b 4 0) ≡ true
unfolding memcmp_loop is_same
magic_same a b e₀ e₁ e₂ e₃ = ground arith

-- The loader accepts exactly the headers with the magic bytes and the five fields of a kernel's.
pub is_kernel-IsKernel : (elf : Elf) (h : Elf64Ehdr) → (is_kernel elf h ≡ true) ↔ IsKernel elf h
unfolding is_kernel
is_kernel-IsKernel elf h = (
  λ e.
      let magic : is_same (memcmp_loop h.e_ident elf.elfmag 4 0) ≡ true = ground (arith, e) in
      let (m₀, m₁, m₂, m₃) = same_magic h.e_ident elf.elfmag magic in
      record {
        magic₀ = m₀;
        magic₁ = m₁;
        magic₂ = m₂;
        magic₃ = m₃;
        class = ground (arith, e);
        encoding = ground (arith, e);
        executable = ground (arith, e);
        machine = ground (arith, e);
        version = ground (arith, e);
      },
  λ k. ground (
    arith,
    magic_same h.e_ident elf.elfmag k.magic₀ k.magic₁ k.magic₂ k.magic₃,
    k.class,
    k.encoding,
    k.executable,
    k.machine,
    k.version,
  ),
)
