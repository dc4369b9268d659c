-- ===== src/PhysMem.antt =====
-- system/kernel/kernel/phys_mem.cpp: the doubly linked list of memory headers, for 32-bit addresses.
-- A header is named by the number of its slot: slot `k` of chunk `c` is `c * 146 + k + 1`, and 0 is the
-- null pointer; a chunk holds (4096 - 4) / 28 = 146 headers. `memory` and `size` are the addresses of
-- `page` objects. The lock is behind `LockOps`; `map_range` of the virtual memory manager, which the
-- header chunks are mapped with, is a parameter. Log output is left out.
pub mod Headers
pub mod Area
pub mod Chain
pub mod Walk
pub mod Regions
pub mod Split
pub mod Spare
pub mod Invariant
pub mod Carve
pub mod Alloc
pub mod Merge
pub mod Stored
pub mod Join
pub mod Release
pub mod Start
use feline_os.Base.{
  ℕ, zero, suc, ◌+◌, ◌-◌, ◌*◌, ◌/◌, Bool, true, false, Option, none, some, ◌==◌, if◌then◌else◌,
  wrap32,
}
use feline_os.Page.{Page, small, add_assign, sub_assign}
use feline_os.Run.{Run, Cmd, done, aborted, stuck, pure, ◌>>=◌, ◌>>◌, abort}
use feline_os.Spinlock.{LockOps}

pub data PmmResults : Type 0 where
  pmm_success pmm_invalid pmm_nomem pmm_null : PmmResults

pub record PhysMemHeader : Type 0 where
  pub next : ℕ
  pub prev : ℕ
  pub memory : ℕ
  pub size : ℕ
  pub in_use : Bool
  pub canary0 : ℕ
  pub canary1 : ℕ
  pub header_in_use : Bool

pub record Pmm (L V : Type 0) : Type 0 where
  pub modifying_pmm : L
  pub headers : ℕ → PhysMemHeader
  pub first_header : ℕ
  pub num_chunks : ℕ
  pub headers_in_use : ℕ
  pub headers_allocated : ℕ
  -- The virtual memory manager's state.
  pub vmm : V

-- What this file calls of the virtual memory manager: map `len` bytes at a physical address, and say
-- whether that worked.
pub record Vmm (V : Type 0) : Type 0 where
  pub map_range : ℕ → ℕ → V → Bool × V

abbrev pub headers_per_chunk : ℕ
headers_per_chunk = 146

abbrev pub sizeof_header : ℕ
sizeof_header = 28

-- `sizeof(PhysMemHeaderList)`
abbrev pub sizeof_header_list : ℕ
sizeof_header_list = 4_092

abbrev pub null : ℕ
null = 0

unfoldable pub round_up_to_page : ℕ → ℕ
round_up_to_page len = wrap32 (len + 4_095) / 4_096 * 4_096

-- `page(addr).getInt()`
abbrev pub page_int : ℕ → ℕ
page_int addr = addr / 4_096 * 4_096

unfoldable pub update : (ℕ → PhysMemHeader) → ℕ → PhysMemHeader → ℕ → PhysMemHeader
update f p h q = if p == q then h else f q

module _ {L V : Type 0} where
  abbrev pub load : ℕ → Cmd (Pmm L V) PhysMemHeader
  load p s = done (s.headers p) s

  abbrev pub store : ℕ → PhysMemHeader → Cmd (Pmm L V) (Unit {0})
  store p h s = done tt (record s { headers = update s.headers p h })

  -- `a + b` and `a - b` of two pages; they abort instead of wrapping.
  abbrev pub page_add : ℕ → ℕ → Cmd (Pmm L V) ℕ
  unfolding add_assign
  page_add a b =
      elim (add_assign (record { addr = a; class = small }) (record { addr = b; class = small })) [
        | none ↦ abort
        | some p ↦ pure p.addr
      ]

  abbrev pub page_sub : ℕ → ℕ → Cmd (Pmm L V) ℕ
  unfolding sub_assign
  page_sub a b =
      elim (sub_assign (record { addr = a; class = small }) (record { addr = b; class = small })) [
        | none ↦ abort
        | some p ↦ pure p.addr
      ]

  abbrev pub acquire_lock : LockOps L → Cmd (Pmm L V) (Unit {0})
  acquire_lock ops s = elim (ops.acquire s.modifying_pmm) [
    | none ↦ stuck
    | some l ↦ done tt (record s { modifying_pmm = l })
  ]

  abbrev pub release_lock : LockOps L → Cmd (Pmm L V) (Unit {0})
  release_lock ops s = done tt (record s { modifying_pmm = ops.release s.modifying_pmm })
