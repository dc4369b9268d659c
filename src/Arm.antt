-- ===== src/Arm.antt =====
-- system/kernel/arch/arm/virt_mem/paging.cpp: the two-level tables of ARM. The state is that of the
-- i386 manager, and so are `isMapped`, `free_from_here` and `find_free_virtmem`, which are the same
-- code: `page_directory` is `first_level_table_system`, by the number of the section, and `page_tables`
-- is the memory of the second-level descriptors, by address. The fields of a descriptor share no bit, so
-- an `|` of them is a sum. The second-level descriptors are a memory of their own: so they are for the
-- sections below 4081, whose tables lie in `second_level_table_system`. The tables of the sections from 4081 on
-- lie behind that array: what a write to them does to the rest of the state, by its address and its value, is
-- up to the linker, and the parameter `behind`. `invlpg` and `enable_paging` have no state here.
pub mod Bootstrap
pub mod Regions
pub mod Boot
pub mod Range
pub mod Tables
pub mod Mapping
use feline_os.Base.{
  ℕ, zero, suc, ◌+◌, ◌-◌, ◌*◌, ◌/◌, ◌%◌, Bool, true, false, not, ◌&&◌, ◌||◌, ltb, leb, ◌==◌,
  if◌then◌else◌, wrap32, u32_mod,
}
use feline_os.Run.{Cmd, done, aborted, stuck, pure, ◌>>=◌, ◌>>◌, abort, get, modify}
use feline_os.Paging.{
  Paging, MapResults, map_success, map_already_mapped, map_notmapped, searchable_page_table_offset,
  set_bit, is_mapped, update, va_offset,
}

-- `page_table`, the bit of a first-level descriptor that points to a table.
abbrev pub page_table : ℕ
page_table = 1

unfoldable pub section_table_offset : ℕ → ℕ
section_table_offset addr = addr / 1_048_576

-- `page_table_offset(addr).second_level`
unfoldable pub second_level_offset : ℕ → ℕ
second_level_offset addr = addr / 4_096 * 4_096 % 1_048_576 / 4_096

-- `(first_level & ~0x3ff) + VA_OFFSET`
unfoldable pub table_of : ℕ → ℕ
table_of first_level = wrap32 (first_level / 1_024 * 1_024 + va_offset)

unfoldable pub first_level_descriptor : ℕ → ℕ → ℕ
unfolding set_bit
first_level_descriptor table offset =
    set_bit (wrap32 (table + 4 * offset + u32_mod - va_offset)) page_table

-- `default_opts | attributes`, by `opts & MAP_DEVICE`.
unfoldable pub descriptor_bits : ℕ → ℕ
descriptor_bits opts = 2_098 + (if opts / 4 % 2 == 1 then 4 else 76)

-- What a write of a value at an address behind `second_level_table_system` does.
abbrev pub Behind : Type 0 → Type 0 → Type 0
Behind L P = ℕ → ℕ → Paging L P → Paging L P

module _ {L P : Type 0} where
  -- The address of the second-level descriptor of a page.
  unfoldable pub descriptor_of : ℕ → Paging L P → ℕ
  unfolding section_table_offset second_level_offset table_of
  descriptor_of addr s =
      table_of (s.page_directory (section_table_offset addr)) + 4 * second_level_offset addr

  unfoldable pub virt_to_phys : ℕ → Paging L P → ℕ
  unfolding descriptor_of
  virt_to_phys virt s = s.page_tables (descriptor_of virt s) / 4_096 * 4_096

  -- `second_level` is the address of the array that is handed over.
  unfoldable pub set_second_level_page_table : ℕ → ℕ → Paging L P → Paging L P
  unfolding section_table_offset first_level_descriptor
  set_second_level_page_table addr second_level s =
      let offset = section_table_offset addr in
      record s {
        page_directory =
            update s.page_directory offset (first_level_descriptor second_level offset);
      }

  -- A write to the second-level descriptor of a page.
  unfoldable pub write_descriptor : Behind L P → ℕ → ℕ → Paging L P → Paging L P
  unfolding section_table_offset descriptor_of
  write_descriptor behind virt_addr d s =
      if ltb (section_table_offset virt_addr) 4_081
      then record s { page_tables = update s.page_tables (descriptor_of virt_addr s) d }
      else behind (descriptor_of virt_addr s) d s

  unfoldable pub map_page : Behind L P → ℕ → ℕ → ℕ → Cmd (Paging L P) MapResults
  unfolding is_mapped searchable_page_table_offset section_table_offset write_descriptor
      descriptor_bits
  map_page behind phys_addr virt_addr opts s =
      if not (opts / 2 % 2 == 1) && is_mapped virt_addr s
      then done map_already_mapped s
      else if s.page_directory (section_table_offset virt_addr) % 2 == 0
      then aborted
      else done map_success (
          write_descriptor behind virt_addr (phys_addr + descriptor_bits opts) (record s {
            page_tables_searchable =
                update s.page_tables_searchable (searchable_page_table_offset virt_addr) true;
          }))

  unfoldable pub unmap_page : Behind L P → ℕ → Cmd (Paging L P) MapResults
  unfolding is_mapped searchable_page_table_offset write_descriptor
  unmap_page behind virt_addr s =
      if is_mapped virt_addr s
      then done map_success (
          write_descriptor behind virt_addr 0 (record s {
            page_tables_searchable =
                update s.page_tables_searchable (searchable_page_table_offset virt_addr) false;
          }))
      else done map_notmapped s
