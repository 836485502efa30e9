-- ===== src/Bootloader/Start.antt =====
-- The search for the RSDP, and what `efi_main` hands to the kernel.
use eterna.Base.{List, ℕ, zero, suc, ◌+◌, ◌*◌, ◌%◌, ◌<◌, ◌≡◌, ◌≢◌, ◌⊎◌, true, some, sub64}
use eterna.Bootloader.{
  Memory, Services, Elf, Elf64Ehdr, Elf64Phdr, Machine, starts, rsdp_signature, table_at,
  load_psf1_font, efi_main, kernel_virtual,
}
use eterna.Bootloader.Load.{
  Documented, Loadable, HoldsPhdr, TableApart, headers_from, IsKernel, image,
}

-- The first eight bytes at an address are the signature, and the first 33 add up to a multiple of 256.
abbrev pub bytes_sum : Memory → ℕ → ℕ
bytes_sum table zero = 0
bytes_sum table (suc n) = bytes_sum table n + table n

pub record IsRsdp (m : Memory) (table : ℕ) : Type 0 where
  pub signature : (j : ℕ) → j < 8 → rsdp_signature j ≡ m (table + j)
  pub checksum : bytes_sum (table_at m table) 33 % 256 ≡ 0

-- What is found is what was there before, or a table that is an RSDP.
abbrev Valid : Memory → ℕ → ℕ → Type 0
Valid m before found = (found ≡ before) ⊎ IsRsdp m found

-- The header of the kernel's file, and the headers of its segments.
abbrev pub header_of : Elf → Memory → Elf64Ehdr
header_of elf file = elf.ehdr_at file

abbrev pub table_size : Elf → Memory → ℕ
table_size elf file = (header_of elf file).e_phnum * (header_of elf file).e_phentsize

abbrev pub segments_of : Elf → Memory → List Elf64Phdr
segments_of elf file =
    let header = header_of elf file in
    headers_from elf file header.e_phentsize header.e_phnum header.e_phoff

-- Every file is there and allowed, the program headers have memory that no segment covers, and there is a graphics
-- mode.
pub record Bootable (efi : Services) (elf : Elf) (machine : Machine) (file : Memory) : Type 0 where
  pub directory_found : machine.directory ≡ true
  pub kernel_found : machine.kernel ≡ some file
  pub header_IsKernel : IsKernel elf (header_of elf file)
  pub some_size : (header_of elf file).e_phentsize ≢ 0
  pub entries_HoldPhdr : HoldsPhdr elf (header_of elf file).e_phentsize
  pub pool : efi.allocate_pool 3 (table_size elf file) ≢ 0
  pub framebuffer : machine.has_framebuffer ≡ true
  pub segments_Loadable : Loadable elf (segments_of elf file)
  pub table_TableApart :
      TableApart elf
        (segments_of elf file)
        (efi.allocate_pool 3 (table_size elf file))
        (table_size elf file)

-- The memory once the font has been loaded and the program headers have been read.
abbrev pub loaded_memory : Services → Elf → Machine → Memory → Memory → Memory
loaded_memory efi elf machine file m =
    efi.read file (header_of elf file).e_phoff (table_size elf file)
      (load_psf1_font efi machine.font m).1 (efi.allocate_pool 3 (table_size elf file))

-- The kernel is entered at its entry point less its virtual address, with its image in memory and no RSDP or a valid
-- one.
abbrev pub Starts : Services → Elf → Machine → Memory → Memory → Type 0
Starts efi elf machine m file =
    (m' : Memory) × (rsdp : ℕ) × (efi_main efi elf machine m
      ≡ starts (sub64 (header_of elf file).e_entry kernel_virtual)
          (load_psf1_font efi machine.font m).0 rsdp m')
    × ((j : ℕ)
        → m' j ≡ image elf file (segments_of elf file) (loaded_memory efi elf machine file m) j)
    × ((rsdp ≡ 0) ⊎ IsRsdp m' rsdp)

module _ (efi : Services) (laws : Documented efi) (elf : Elf) (machine : Machine) (m file : Memory)
    (ok : Bootable efi elf machine file) where
  abbrev pool_address : ℕ
  pool_address = efi.allocate_pool 3 (table_size elf file)
