-- ===== src/Vmm.antt =====
-- The virtual memory manager, kernel/memory/virtual_memory_manager.cc: page tables in memory, mapped and
-- unmapped. The messages of `ShowDebug::Yes` are left out, and `cr3` holds the active page map.
pub mod Flags
pub mod Level
pub mod Map
pub mod Unmap
mod Tests
use eterna.Base.{
  ℕ, zero, suc, ◌+◌, ◌-◌, ◌*◌, ◌/◌, ◌%◌, ◌^◌, Bool, true, false, not, Option, none, some, ◌==◌, ltb,
  if◌then◌else◌, add64, sub64, ◌<<<◌, ◌>>>◌,
}
use eterna.Pmm.{Pmm, page_size, pointer, request_page, total_ram}
use eterna.Paging.{
  PageTableFlag, present, read_write, user_super, write_through, cache_disabled, accessed, dirty,
  larger_pages, global, nx, PageMapIndexer, page_map_indexer, address, set_address, flag, set_flag,
}

-- The entries of the table at an address, the physical memory manager, `ActivePageMap` and `cr3`.
pub record Vmm : Type 0 where
  pub tables : ℕ → ℕ → ℕ
  pub pmm : Pmm
  pub active_page_map : ℕ
  pub cr3 : ℕ

-- `memset(table, 0, PAGE_SIZE)` and `table->entries[index] = PDE`.
unfoldable pub zero_table : (ℕ → ℕ → ℕ) → ℕ → ℕ → ℕ → ℕ
zero_table m table t i = if t == table then 0 else m t i

unfoldable pub write_entry : (ℕ → ℕ → ℕ) → ℕ → ℕ → ℕ → ℕ → ℕ → ℕ
write_entry m table index value t i =
    if t == table then (if i == index then value else m t i) else m t i

-- The ten calls of `set_flag` that each level makes; the last is on `Global` again.
unfoldable pub set_flags : ℕ → ℕ → ℕ
set_flags value mapping_flags =
    let v₀ = set_flag value present (flag mapping_flags present) in
    let v₁ = set_flag v₀ read_write (flag mapping_flags read_write) in
    let v₂ = set_flag v₁ user_super (flag mapping_flags user_super) in
    let v₃ = set_flag v₂ write_through (flag mapping_flags write_through) in
    let v₄ = set_flag v₃ cache_disabled (flag mapping_flags cache_disabled) in
    let v₅ = set_flag v₄ accessed (flag mapping_flags accessed) in
    let v₆ = set_flag v₅ dirty (flag mapping_flags dirty) in
    let v₇ = set_flag v₆ larger_pages (flag mapping_flags larger_pages) in
    let v₈ = set_flag v₇ global (flag mapping_flags global) in
    set_flag v₈ global (flag mapping_flags nx)

-- One of the three upper levels of `map`: the new state and the address of the next table.
unfoldable pub level : Vmm → ℕ → ℕ → ℕ → Vmm × ℕ
level s table index mapping_flags =
    let value = s.tables table index in
    let (request, pmm) = request_page s.pmm in
    let page = pointer request in
    let (s₁, v₁) =
      if not (flag value present)
      then (
        record s { tables = zero_table s.tables page; pmm = pmm },
        set_address value (page >>> 12),
      )
      else (s, value) in
    let v₂ = set_flags v₁ mapping_flags in
    (record s₁ { tables = write_entry s₁.tables table index v₂ }, address v₂ <<< 12)

-- The last level: the entry of the page itself.
unfoldable pub map_page : Vmm → ℕ → ℕ → ℕ → ℕ → Vmm
map_page s table index physical_address mapping_flags =
    let value = set_address (s.tables table index) (physical_address >>> 12) in
    record s { tables = write_entry s.tables table index (set_flags value mapping_flags) }

unfoldable pub map : Vmm → ℕ → ℕ → ℕ → ℕ → Vmm
map s page_map_level_four virtual_address physical_address mapping_flags =
    let indexer = page_map_indexer virtual_address in
    let (s₁, pdp) = level s page_map_level_four indexer.page_directory_pointer mapping_flags in
    let (s₂, pd) = level s₁ pdp indexer.page_directory mapping_flags in
    let (s₃, pt) = level s₂ pd indexer.page_table mapping_flags in
    if page_map_level_four == 0
    then s
    else map_page s₃ pt indexer.page physical_address mapping_flags

-- The table that an entry points at, present or not.
unfoldable pub next_table : (ℕ → ℕ → ℕ) → ℕ → ℕ → ℕ
next_table m table index = address (m table index) <<< 12

unfoldable pub unmap : Vmm → ℕ → ℕ → Vmm
unmap s page_map_level_four virtual_address =
    let indexer = page_map_indexer virtual_address in
    let pdp = next_table s.tables page_map_level_four indexer.page_directory_pointer in
    let pd = next_table s.tables pdp indexer.page_directory in
    let pt = next_table s.tables pd indexer.page_table in
    record s {
      tables =
          write_entry s.tables pt indexer.page (set_flag (s.tables pt indexer.page) present false);
    }

unfoldable pub flush_page_map : Vmm → ℕ → Vmm
flush_page_map s page_map_level_four = record s {
  cr3 = page_map_level_four;
  active_page_map = page_map_level_four;
}

unfoldable pub active_page_map : Vmm → Vmm × ℕ
active_page_map s =
    if s.active_page_map == 0
    then (record s { active_page_map = s.cr3 }, s.cr3)
    else (s, s.active_page_map)

-- The walk of the processor: the physical address of a virtual one, where it is mapped. In an entry of the first table bit
-- 7 is reserved, and the processor faults if it is set. In the next two, it makes the entry that of a large page of 1 GiB
-- or 2 MiB, which ends the walk. In the last it is no part of the walk.
abbrev pub large_page : ℕ → ℕ → ℕ → ℕ
large_page value size virtual_address =
    (address value <<< 12) / size * size + virtual_address % size

unfoldable pub translate : (ℕ → ℕ → ℕ) → ℕ → ℕ → Option ℕ
translate m page_map_level_four virtual_address =
    let indexer = page_map_indexer virtual_address in
    let first = m page_map_level_four indexer.page_directory_pointer in
    let pdp = next_table m page_map_level_four indexer.page_directory_pointer in
    let second = m pdp indexer.page_directory in
    let pd = next_table m pdp indexer.page_directory in
    let third = m pd indexer.page_table in
    let pt = next_table m pd indexer.page_table in
    if not (flag first present)
    then none
    else if flag first larger_pages
    then none
    else if not (flag second present)
    then none
    else if flag second larger_pages
    then some (large_page second (2 ^ 30) virtual_address)
    else if not (flag third present)
    then none
    else if flag third larger_pages
    then some (large_page third (2 ^ 21) virtual_address)
    else if not (flag (m pt indexer.page) present)
    then none
    else some (next_table m pt indexer.page + virtual_address % page_size)
