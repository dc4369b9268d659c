-- ===== src/Tests/Starts.antt =====
-- The theorems on `start_phys_mem_manager` at small memory maps.
use feline_os.Base.{ℕ, ◌≡◌, Bool, false, some, [], ◌∷◌, arith}
use feline_os.Run.{stuck}
use feline_os.PhysMem.{PhysMemHeader, Pmm}
use feline_os.PhysMem.Start.{
  BootloaderMemRegion, Adding, find_space_in_area, try_add_available_memory_region,
}
use feline_os.PhysMem.Start.Space.{IsSpace, find_space_in_area-IsSpace}
use feline_os.PhysMem.Start.Trim.{try_add_available_memory_region-spins}

-- Four pages from 1 MiB on, the first of them taken by the kernel.
abbrev memory : BootloaderMemRegion
memory = record { addr = 1_048_576; len = 16_384 }

abbrev kernel : BootloaderMemRegion
kernel = record { addr = 1_048_576; len = 4_000 }

abbrev low_memory : BootloaderMemRegion
low_memory = record { addr = 0; len = 655_360 }

-- The BIOS data area.
abbrev bios_data : BootloaderMemRegion
bios_data = record { addr = 1_024; len = 256 }

abbrev blank : ℕ → PhysMemHeader
blank i = record {
  next = 0;
  prev = 0;
  memory = 0;
  size = 0;
  in_use = false;
  canary0 = 0;
  canary1 = 0;
  header_in_use = false;
}

abbrev adding : Adding
adding = record { headers = blank; cur_header_offset = 0; headers_in_use = 0 }

abbrev empty_pmm : Pmm Bool (Unit {0})
empty_pmm = record {
  modifying_pmm = false;
  headers = blank;
  first_header = 0;
  num_chunks = 0;
  headers_in_use = 0;
  headers_allocated = 0;
  vmm = tt;
}

find_space_in_area-IsSpace_example :
    (p : ℕ) × (find_space_in_area 2 (kernel ∷ []) 1_048_576 1_064_960 4_096 ≡ some p)
    × IsSpace (kernel ∷ []) 1_048_576 4_096 p
find_space_in_area-IsSpace_example =
    find_space_in_area-IsSpace (kernel ∷ []) 1_064_960 4_096 (omega arith, tt) 2 1_048_576
      (omega arith) (omega arith)

try_add_available_memory_region-spins_example :
    try_add_available_memory_region 5 (bios_data ∷ []) low_memory adding ≡ stuck
try_add_available_memory_region-spins_example =
    try_add_available_memory_region-spins 5 bios_data low_memory [] adding (omega arith)
      (omega arith) (omega arith) (omega arith) (omega arith)
