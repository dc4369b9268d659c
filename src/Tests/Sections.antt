-- ===== src/Tests/Sections.antt =====
-- The theorems on ARM's tables and on the boot loader's memory map at small inputs.
use feline_os.Base.{ℕ, ◌+◌, ◌*◌, ◌≤◌, ◌≡◌, ◌∙◌, refl, Bool, false, some, List, [], ◌∷◌, arith}
use feline_os.Run.{done}
use feline_os.Paging.{Paging, map_success, is_mapped}
use feline_os.Arm.{table_of}
use feline_os.Arm.Range.{section_loop, map_loop}
use feline_os.Arm.Tables.{
  IsTables, HasTables, section_loop-HasTables, section_loop-is_mapped, section_loop-overruns,
}
use feline_os.Arm.Mapping.{AreMapped, map_loop-AreMapped}
use feline_os.PhysMem.Start.{BootloaderMemRegion}
use feline_os.Bootstrap.{
  MemoryMapEntry, find_space, initial, copy_unavailable, slice, bootstrap_regions,
}
use feline_os.Bootstrap.Copy.{available_outside, bootstrap_regions-outside}

-- The address of `second_level_table_system`.
abbrev tables : ℕ
tables = 4_027_580_416

tables-IsTables : IsTables tables
tables-IsTables = record { aligned = omega arith; above = omega arith; below = omega arith }

abbrev nothing : Paging Bool (Unit {0})
nothing = record {
  modifying_page_tables = false;
  page_directory = λ _. 0;
  page_tables = λ _. 0;
  page_tables_searchable = λ _. false;
  pmm = tt;
}

abbrev booted : Paging Bool (Unit {0})
booted = section_loop tables 4_095 0 nothing

booted-unmapped : (a : ℕ) → is_mapped a booted ≡ false
unfolding is_mapped
booted-unmapped a = section_loop-is_mapped tables 4_095 0 a nothing ∙ refl

map_loop-AreMapped_example :
    (t : Paging Bool (Unit {0})) × (map_loop
        (λ at d s. nothing)
        9
        2
        8_192
        1_048_576
        0
        1_048_576
        booted
      ≡ done map_success t)
    × AreMapped 1_048_576 8_192 2 booted t
    × HasTables tables t
map_loop-AreMapped_example =
    map_loop-AreMapped (λ at d s. nothing) tables 9 2 8_192 1_048_576 0 1_048_576 booted
      (section_loop-HasTables tables nothing tables-IsTables) (omega arith) (omega arith)
      (omega arith) (omega arith) (λ a _. booted-unmapped a)

section_loop-overruns_example :
    tables + 4_096 * 1_024 ≤ table_of ((section_loop tables 4_095 0 nothing).page_directory 4_090)
section_loop-overruns_example =
    section_loop-overruns tables 4_090 nothing tables-IsTables (omega arith) (omega arith)

-- Memory from 0 with the kernel in it, and a reserved part above.
abbrev memory_map : List MemoryMapEntry
memory_map =
    record { addr = 0; len = 134_217_728; kind = 1 }
    ∷ record { addr = 134_217_728; len = 65_536; kind = 2 }
    ∷ []

abbrev no_memory : ℕ → BootloaderMemRegion
no_memory i = record { addr = 0; len = 0 }

memory_map-space : find_space 40 2_097_152 8_388_608 8_388_656 memory_map ≡ some 0
unfolding find_space
memory_map-space = refl

bootstrap_regions-outside_example :
    (us : List BootloaderMemRegion) × (bootstrap_regions 8_388_608 48 1_048_576 2_097_152 no_memory
        memory_map
      ≡ some (us, available_outside us memory_map))
    × (let s = copy_unavailable memory_map (initial 0 40 1_048_576 2_097_152 no_memory) in
        us ≡ slice s.num_unavailable_regions 0 s.memory)
bootstrap_regions-outside_example =
    bootstrap_regions-outside 8_388_608 48 1_048_576 2_097_152 0 no_memory memory_map
      memory_map-space (omega arith)
