-- ===== src/Bootloader/Tests.antt =====
-- A boot of a kernel of one segment, with a table of one entry.
use eterna.Base.{
  ℕ, none, List, [], ◌∷◌, ◌+◌, ◌-◌, ◌≡◌, refl, true, ◌&&◌, none, some, [], ◌∷◌, leb, ltb, ◌==◌,
  if◌then◌else◌,
}
use eterna.Bootloader.{
  Memory, Services, Elf, Machine, find_rsdp, check_entry, table_at, strcmp_loop, sum_bytes,
  rsdp_signature, kernel_virtual,
}

abbrev test_services : Services
test_services = record {
  set_mem = λ m p n v j. if leb p j && ltb j (p + n) then v else m j;
  read = λ file at n m p j. if leb p j && ltb j (p + n) then file (at + (j - p)) else m j;
  allocate_pool = λ call size. 4096;
}

-- Headers in bytes of their own: the counts and the position of the table, and five numbers of a byte each.
abbrev test_elf : Elf
test_elf = record {
  elfmag = λ i. 127 + i;
  elfclass64 = 2;
  elfdata2lsb = 1;
  et_exec = 2;
  em_x86_64 = 62;
  ev_current = 1;
  pt_load = 1;
  ehdr_at = λ file. record {
    e_ident = file;
    ei_class = file 4;
    ei_data = file 5;
    e_type = file 6;
    e_machine = file 7;
    e_version = file 8;
    e_entry = kernel_virtual + file 9;
    e_phoff = file 10;
    e_phnum = file 11;
    e_phentsize = file 12;
  };
  phdr_at = λ bytes. record {
    p_type = bytes 0;
    p_offset = bytes 1;
    p_paddr = bytes 2;
    p_filesz = bytes 3;
    p_memsz = bytes 4;
  };
}

abbrev byte_of : List ℕ → Memory
byte_of [] i = 0
byte_of (b ∷ bs) i = if i == 0 then b else byte_of bs (i - 1)

-- A header, and behind it the program headers of a segment at 100 and of a note.
abbrev test_file : Memory
test_file = byte_of (
    127 ∷ 128 ∷ 129 ∷ 130 ∷ 2 ∷ 1 ∷ 2 ∷ 62 ∷ 1 ∷ 64 ∷ 16 ∷ 2 ∷ 5 ∷ 0 ∷ 0 ∷ 0 ∷ 1 ∷ 0 ∷ 100 ∷ 2 ∷ 3
    ∷ 4 ∷ 0 ∷ 50 ∷ 0 ∷ 9 ∷ [])

-- Behind the signature, one byte that makes the sum a multiple of 256.
abbrev test_memory : Memory
test_memory j =
    if leb 1000 j && ltb j 1008
    then rsdp_signature (j - 1000)
    else if j == 1008
    then 225
    else if j == 99
    then 7
    else 0

abbrev test_machine : Machine
test_machine = record {
  directory = true;
  kernel = some test_file;
  font = none;
  has_framebuffer = true;
  config = λ i. record { is_acpi = true; vendor_table = 1000 };
  number_of_table_entries = 1;
}

-- The table at 1000 is found.
test_rsdp : find_rsdp test_memory test_machine.config 1 0 0 ≡ 1000
unfolding find_rsdp check_entry table_at strcmp_loop sum_bytes
test_rsdp = refl
