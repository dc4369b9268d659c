-- ===== src/Tests/Areas.antt =====
-- The theorems on system/kernel/kernel/phys_mem.cpp at a list of two headers.
use feline_os.Base.{ℕ, ◌≡◌, refl, Bool, true, false, some, [], ◌∷◌, ◌==◌, if◌then◌else◌, arith}
use feline_os.Spinlock.{LockOps}
use feline_os.PhysMem.{PhysMemHeader, Pmm, Vmm, round_up_to_page}
use feline_os.PhysMem.Area.{get_mem_area, free_mem_area}
use feline_os.PhysMem.Chain.{IsChain}
use feline_os.PhysMem.Regions.{regions, alloc, release}
use feline_os.PhysMem.Spare.{HasSpare, Unused}
use feline_os.PhysMem.Invariant.{IsPmm}
use feline_os.PhysMem.Alloc.{Implements, get_mem_area-alloc}
use feline_os.PhysMem.Release.{Frees, free_mem_area-release}

abbrev header : ℕ → ℕ → ℕ → ℕ → Bool → Bool → PhysMemHeader
header next prev memory size in_use header_in_use = record {
  next = next;
  prev = prev;
  memory = memory;
  size = size;
  in_use = in_use;
  canary0 = 0xCD;
  canary1 = 0xEF;
  header_in_use = header_in_use;
}

-- A used area of one page, then a free one of two.
abbrev two_headers : ℕ → PhysMemHeader
two_headers i =
    if i == 1
    then header 2 0 4_096 4_096 true true
    else if i == 2
    then header 0 1 8_192 8_192 false true
    else header 0 0 0 0 false false

abbrev simple_lock : LockOps Bool
simple_lock = record {
  acquire = λ _. some true;
  try_acquire = λ _. (true, true);
  release = λ _. false;
}

abbrev no_vmm : Vmm (Unit {0})
no_vmm = record { map_range = λ phys len v. (false, v) }

abbrev pmm : Pmm Bool (Unit {0})
pmm = record {
  modifying_pmm = false;
  headers = two_headers;
  first_header = 1;
  num_chunks = 1;
  headers_in_use = 2;
  headers_allocated = 146;
  vmm = tt;
}

two_headers-IsChain : IsChain two_headers 0 1 (1 ∷ 2 ∷ [])
two_headers-IsChain = (
  refl,
  refl,
  record { ne_null = omega arith; used = refl; canary0 = refl; canary1 = refl },
  (refl, refl, record { ne_null = omega arith; used = refl; canary0 = refl; canary1 = refl }, refl),
)

pmm-IsPmm : IsPmm pmm (1 ∷ 2 ∷ [])
pmm-IsPmm = record {
  chain = two_headers-IsChain;
  distinct = ((omega arith, tt), (tt, tt));
  bounded = (omega arith, (omega arith, tt));
}

canaries :
    (p : ℕ)
    → Unused two_headers p
    → ((two_headers p).canary0 ≡ 0xCD) × ((two_headers p).canary1 ≡ 0xEF)
canaries p h = ground arith

pmm-HasSpare : HasSpare pmm
pmm-HasSpare = record { room = omega arith; slot = (2, omega arith, refl); canary = canaries }

get_mem_area-alloc_example :
    Implements pmm false
      (get_mem_area simple_lock no_vmm 3 4_000 pmm)
      (alloc (round_up_to_page 4_000) (regions two_headers (1 ∷ 2 ∷ [])))
get_mem_area-alloc_example =
    get_mem_area-alloc simple_lock no_vmm 3 4_000 pmm true (1 ∷ 2 ∷ []) refl pmm-IsPmm pmm-HasSpare
      (omega arith)

free_mem_area-release_example :
    Frees pmm false
      (free_mem_area simple_lock no_vmm 3 5_000 3_000 pmm)
      (release 5_000 8_000 [] (regions two_headers (1 ∷ 2 ∷ [])))
free_mem_area-release_example =
    free_mem_area-release simple_lock no_vmm 3 5_000 3_000 pmm true (1 ∷ 2 ∷ []) refl pmm-IsPmm
      (omega arith)
