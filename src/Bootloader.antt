-- ===== src/Bootloader.antt =====
-- The boot loader, gnu-efi/bootloader/main.c. UEFI's services and the constants of elf.h are parameters; memory is a
-- function from addresses to bytes, and a file one from positions to bytes. Messages are left out, and so
-- is the memory map, which UEFI writes to a buffer of its own.
pub mod Load
pub mod Start
mod Tests
use eterna.Base.{
  ℕ, zero, suc, ◌+◌, ◌-◌, ◌*◌, ◌/◌, ◌%◌, ◌^◌, bit_and, Bool, true, false, not, ◌&&◌, ◌||◌, Option,
  none, some, List, [], ◌∷◌, leb, ltb, ◌==◌, if◌then◌else◌, u8, u32, add64, sub64, mul64,
}

abbrev pub Memory : Type 0
Memory = ℕ → ℕ

-- `SetMem` with an address, a size and a value; `Read` of a file at a position, with a count and a destination; and
-- `AllocatePool` of a size at each of its calls, where 0 is a null pointer.
pub record Services : Type 0 where
  pub set_mem : Memory → ℕ → ℕ → ℕ → Memory
  pub read : Memory → ℕ → ℕ → Memory → ℕ → Memory
  pub allocate_pool : ℕ → ℕ → ℕ

-- The fields of the ELF header and of a program header that the loader reads. `e_ident` starts with the magic
-- bytes; the class and the data encoding are bytes of it.
pub record Elf64Ehdr : Type 0 where
  pub e_ident : Memory
  pub ei_class : ℕ
  pub ei_data : ℕ
  pub e_type : ℕ
  pub e_machine : ℕ
  pub e_version : ℕ
  pub e_entry : ℕ
  pub e_phoff : ℕ
  pub e_phnum : ℕ
  pub e_phentsize : ℕ

pub record Elf64Phdr : Type 0 where
  pub p_type : ℕ
  pub p_offset : ℕ
  pub p_paddr : ℕ
  pub p_filesz : ℕ
  pub p_memsz : ℕ

-- The constants of elf.h, and the fields of the two structures in the bytes from an address on.
pub record Elf : Type 0 where
  pub elfmag : Memory
  pub elfclass64 : ℕ
  pub elfdata2lsb : ℕ
  pub et_exec : ℕ
  pub em_x86_64 : ℕ
  pub ev_current : ℕ
  pub pt_load : ℕ
  pub ehdr_at : Memory → Elf64Ehdr
  pub phdr_at : Memory → Elf64Phdr

-- `memcmp` of the loader: how two ranges compare at the first byte in which they differ.
pub data Compared : Type 0 where
  less same greater : Compared

unfoldable pub memcmp_loop : Memory → Memory → ℕ → ℕ → Compared
memcmp_loop a b zero i = same
memcmp_loop a b (suc left) i =
    let rest = memcmp_loop a b left (i + 1) in
    if ltb (a i) (b i) then less else if ltb (b i) (a i) then greater else rest

unfoldable pub is_same : Compared → Bool
is_same same = true
is_same _ = false

unfoldable pub is_kernel : Elf → Elf64Ehdr → Bool
is_kernel elf h = not (
    not (is_same (memcmp_loop h.e_ident elf.elfmag 4 0))
    || not (h.ei_class == elf.elfclass64)
    || not (h.ei_data == elf.elfdata2lsb)
    || not (h.e_type == elf.et_exec)
    || not (h.e_machine == elf.em_x86_64)
    || not (h.e_version == elf.ev_current))

-- The body of the loop over the program headers. The status of `AllocatePages` is not read; the loop around it ends
-- where the segment's address is not 0, and goes on for ever otherwise, which is `none`.
unfoldable pub load_segment : Services → Elf → Memory → Elf64Phdr → Memory → Option Memory
load_segment efi elf contents phdr m =
    if phdr.p_type == elf.pt_load
    then if phdr.p_paddr == 0
      then none
      else some (
          efi.read contents phdr.p_offset phdr.p_filesz (efi.set_mem m phdr.p_paddr phdr.p_memsz 0)
            phdr.p_paddr)
    else some m

-- The bytes from an address on.
unfoldable pub table_at : Memory → ℕ → ℕ → ℕ
table_at m address i = m (address + i)

-- The loop over the program headers in memory, from the address `phdr` on and `size` bytes apart.
unfoldable pub load_segments : Services → Elf → Memory → ℕ → ℕ → ℕ → Memory → Option Memory
load_segments efi elf contents size zero phdr m = some m
load_segments efi elf contents size (suc left) phdr m =
    elim (load_segment efi elf contents (elf.phdr_at (table_at m phdr)) m) [
      | none ↦ none
      | some m' ↦ load_segments efi elf contents size left (phdr + size) m'
    ]

-- `strcmp` of the loader.
unfoldable pub strcmp_loop : Memory → Memory → ℕ → ℕ → Bool
strcmp_loop a b zero i = true
strcmp_loop a b (suc left) i =
    let rest = strcmp_loop a b left (i + 1) in if not (a i == b i) then false else rest

-- "RSD PTR "
abbrev pub rsdp_signature : Memory
rsdp_signature i =
    if i == 0
    then b'R'
    else if i == 1
    then b'S'
    else if i == 2
    then b'D'
    else if i == 3
    then b' '
    else if i == 4
    then b'P'
    else if i == 5
    then b'T'
    else if i == 6
    then b'R'
    else b' '

unfoldable pub sum_bytes : Memory → ℕ → ℕ → ℕ → ℕ
sum_bytes table zero i sum = sum
sum_bytes table (suc left) i sum = sum_bytes table left (i + 1) (add64 sum (table i))

-- An entry of the configuration table: whether its GUID is that of ACPI 2.0, and its table's address.
pub record ConfigEntry : Type 0 where
  pub is_acpi : Bool
  pub vendor_table : ℕ

-- The body of the search at a round's index. `ConfigTable` has been moved on by the index too, so the GUID is
-- that of the entry at twice the index.
unfoldable pub check_entry : Memory → (ℕ → ConfigEntry) → ℕ → ℕ → ℕ
check_entry m config index rsdp =
    let table = (config index).vendor_table in
    if (config (index + index)).is_acpi
    then if strcmp_loop rsdp_signature (table_at m table) 8 0
      then if u8 (sum_bytes (table_at m table) 33 0 0) == 0 then table else rsdp
      else rsdp
    else rsdp

unfoldable pub find_rsdp : Memory → (ℕ → ConfigEntry) → ℕ → ℕ → ℕ → ℕ
find_rsdp m config zero index rsdp = rsdp
find_rsdp m config (suc left) index rsdp =
    find_rsdp m config left (index + 1) (check_entry m config index rsdp)

-- A font that has been loaded: the addresses of its header and its glyphs.
pub record Psf1Font : Type 0 where
  pub psf1_header : ℕ
  pub glyph_buffer : ℕ

unfoldable pub glyph_buffer_size_of : Memory → ℕ → ℕ
glyph_buffer_size_of m header =
    if m (header + 2) == 1 then m (header + 3) * 512 else m (header + 3) * 256

-- A pointer of eight bytes, the lowest first.
unfoldable pub store_pointer : Memory → ℕ → ℕ → Memory
store_pointer m p value j =
    if leb p j && ltb j (p + 8) then value / 2 ^ (8 * (j - p)) % 256 else m j

-- `LoadPSF1Font` of a file that was found or not.
unfoldable pub load_psf1_font : Services → Option Memory → Memory → Option Psf1Font × Memory
load_psf1_font efi none m = (none, m)
load_psf1_font efi (some font) m =
    let header = efi.allocate_pool 0 4 in
    let m₁ = efi.read font 0 4 m header in
    let size = glyph_buffer_size_of m₁ header in
    let glyphs = efi.allocate_pool 1 size in
    let m₂ = efi.read font 4 size m₁ glyphs in
    let final = efi.allocate_pool 2 16 in
    if header == 0
    then (none, m)
    else if not (m₁ header == 0x36) || not (m₁ (header + 1) == 0x04)
    then (none, m₁)
    else if glyphs == 0
    then (none, m₁)
    else if final == 0
    then (none, m₂)
    else (some (record { psf1_header = header; glyph_buffer = glyphs }), m₂)

-- What `efi_main` is given: the files that are found, whether there is a graphics mode, and the configuration
-- table with its number of entries.
pub record Machine : Type 0 where
  pub directory : Bool
  pub kernel : Option Memory
  pub font : Option Memory
  pub has_framebuffer : Bool
  pub config : ℕ → ConfigEntry
  pub number_of_table_entries : ℕ

-- How it ends: with status 1, in the endless loop of `AllocatePages`, at the null pointer that `InitializeGOP`
-- returned, or in the kernel at an address, with the font and the RSDP of its `BootInfo`.
pub data Boot : Type 0 where
  failed hangs null_framebuffer : Boot
  starts : ℕ → Option Psf1Font → ℕ → Memory → Boot

abbrev pub kernel_virtual : ℕ
kernel_virtual = 0xffffffff80000000

-- The rest of `efi_main` once the kernel's segments have been loaded or not.
unfoldable pub enter_kernel : Machine → Elf64Ehdr → Option Psf1Font → Option Memory → Boot
enter_kernel machine header font none = hangs
enter_kernel machine header font (some m) =
    if not machine.has_framebuffer
    then null_framebuffer
    else starts (sub64 header.e_entry kernel_virtual) font
        (find_rsdp m machine.config machine.number_of_table_entries 0 0) m

-- `elf_header` is a local variable, which is no part of the memory. A size of 0 ends the loop at once.
unfoldable pub load_kernel : Services → Elf → Machine → Memory → Memory → Boot
load_kernel efi elf machine m kernel =
    let (font, m₁) = load_psf1_font efi machine.font m in
    let header = elf.ehdr_at kernel in
    let table_size = header.e_phnum * header.e_phentsize in
    let program_hdrs = efi.allocate_pool 3 table_size in
    let m₂ = efi.read kernel header.e_phoff table_size m₁ program_hdrs in
    let rounds = if header.e_phentsize == 0 then 0 else header.e_phnum in
    if not (is_kernel elf header)
    then failed
    else if program_hdrs == 0
    then failed
    else enter_kernel machine header font
        (load_segments efi elf kernel header.e_phentsize rounds program_hdrs m₂)

unfoldable pub efi_main : Services → Elf → Machine → Memory → Boot
efi_main efi elf machine m = elim (machine.kernel) [
  | none ↦ failed
  | some kernel ↦ if not machine.directory then failed else load_kernel efi elf machine m kernel
]
