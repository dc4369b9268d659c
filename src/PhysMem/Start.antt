-- ===== src/PhysMem/Start.antt =====
-- system/kernel/kernel/phys_mem.cpp: `start_phys_mem_manager`. A `PhysAddr` is its number; a sum and a
-- difference of addresses and lengths wrap around at 2 ^ 32. The lambdas of the function are definitions
-- of their own: `is_overlap` and `find_space_in_area`, and `try_add_available_memory_region` with its two
-- loops. They call themselves, on fuel. The headers behind slot 146, which the source writes to without a
-- test, are slots like the others.
pub mod Space
pub mod Trim
pub mod Slots
pub mod Fill
use feline_os.Base.{
  ℕ, zero, suc, ◌+◌, ◌-◌, ◌*◌, ◌/◌, Bool, true, false, Option, none, some, List, [], ◌∷◌, length,
  not, ◌&&◌, ◌||◌, ltb, leb, ◌==◌, if◌then◌else◌, wrap32, u32_mod,
}
use feline_os.Feline.{Range, overlap, min, max, round_up_to_alignment}
use feline_os.Page.{small, sub_assign}
use feline_os.Run.{Cmd, done, aborted, stuck, pure, ◌>>=◌, ◌>>◌, abort, get, modify}
use feline_os.Spinlock.{LockOps}
use feline_os.PhysMem.{
  PhysMemHeader, Pmm, Vmm, headers_per_chunk, sizeof_header, null, acquire_lock, release_lock,
  round_up_to_page, page_int, update,
}
use feline_os.PhysMem.Area.{get_mem_area_at}

pub record BootloaderMemRegion : Type 0 where
  pub addr : ℕ
  pub len : ℕ

-- `a - b` on words.
abbrev pub sub32 : ℕ → ℕ → ℕ
sub32 a b = wrap32 (a + u32_mod - b)

-- `r.addr + r.len`
abbrev pub end_of : BootloaderMemRegion → ℕ
end_of r = wrap32 (r.addr + r.len)

pub data FindActions : Type 0 where
  fail success after : FindActions

unfoldable pub is_overlap : ℕ → ℕ → ℕ → ℕ → ℕ → FindActions
is_overlap location size_needed end_of_available start_reserved end_reserved =
    if ltb end_reserved location || ltb (wrap32 (location + size_needed)) start_reserved
    then success
    else if ltb (wrap32 (end_reserved + size_needed)) end_of_available
    then after
    else fail

-- What the loop of `find_space_in_area` over the unavailable regions comes to: a result, or another try
-- from an address on.
pub data Tried : Type 0 where
  found retry : ℕ → Tried

unfoldable pub try_location : List BootloaderMemRegion → ℕ → ℕ → ℕ → Tried
unfolding is_overlap
try_location [] location size_needed end_of_available = found location
try_location (r ∷ rs) location size_needed end_of_available =
    elim (is_overlap location size_needed end_of_available r.addr (end_of r)) [
      | success ↦ try_location rs location size_needed end_of_available
      | fail ↦ found null
      | after ↦ retry (wrap32 (end_of r + 1))
    ]

-- None where the fuel ends.
unfoldable pub find_space_in_area : ℕ → List BootloaderMemRegion → ℕ → ℕ → ℕ → Option ℕ
unfolding try_location
find_space_in_area zero unavailable location end_of_available size_needed = none
find_space_in_area (suc fuel) unavailable location end_of_available size_needed =
    elim (round_up_to_alignment location 4_096) [
      | none ↦ none
      | some aligned ↦ elim (try_location unavailable aligned size_needed end_of_available) [
        | found result ↦ some result
        | retry next ↦ find_space_in_area fuel unavailable next end_of_available size_needed
      ]
    ]

-- The loop over the available regions: the first space that is not null.
unfoldable pub find_space : ℕ → List BootloaderMemRegion → List BootloaderMemRegion → ℕ → Option ℕ
unfolding find_space_in_area
find_space fuel unavailable [] size_needed = some null
find_space fuel unavailable (r ∷ rs) size_needed =
    let rest = find_space fuel unavailable rs size_needed in
    elim (find_space_in_area fuel unavailable r.addr (end_of r) size_needed) [
      | none ↦ none
      | some p ↦ if p == null then rest else some p
    ]

-- What `try_add_available_memory_region` works on: `first_header[k]` is slot `k + 1`.
pub record Adding : Type 0 where
  pub headers : ℕ → PhysMemHeader
  pub cur_header_offset : ℕ
  pub headers_in_use : ℕ

-- One round of the loop over the unavailable regions: none is a return, or the region as it is left. The
-- region before an unavailable one inside goes to `recursive_self`.
unfoldable pub trim_region :
    (BootloaderMemRegion → Cmd Adding (Unit {0}))
    → BootloaderMemRegion
    → BootloaderMemRegion
    → Cmd Adding (Option BootloaderMemRegion)
unfolding overlap
trim_region recursive_self unavailable available =
    let a : Range = record { start = available.addr; end = end_of available } in
    let u : Range = record { start = unavailable.addr; end = end_of unavailable } in
    if not (overlap a u)
    then pure (some available)
    else if leb u.start a.start && leb a.end u.end
    then pure none
    else if ltb a.start u.start && ltb u.end a.end
    then (do
      recursive_self (record { addr = a.start; len = sub32 (sub32 u.start a.start) 4_096 })
      pure (
          some
            (record { addr = wrap32 (u.end + 4_096); len = sub32 a.end (wrap32 (u.end + 4_096)) })))
    else if leb u.start a.start && leb a.start u.end
    then pure
        (some (record { addr = wrap32 (u.end + 4_096); len = sub32 (sub32 a.end u.end) 4_096 }))
    else if leb u.start a.end && leb a.end u.end
    then pure (some (record { addr = a.start; len = sub32 (sub32 u.end a.start) 4_096 }))
    else abort

unfoldable pub trim_loop :
    (BootloaderMemRegion → Cmd Adding (Unit {0}))
    → List BootloaderMemRegion
    → BootloaderMemRegion
    → Cmd Adding (Option BootloaderMemRegion)
trim_loop recursive_self [] available = pure (some available)
trim_loop recursive_self (u ∷ us) available = do
  left ← trim_region recursive_self u available
  elim left [ none ↦ pure none | some rest ↦ trim_loop recursive_self us rest ]

-- Whether a header overlaps the region, and the header extended by it.
unfoldable pub extends : BootloaderMemRegion → PhysMemHeader → Bool
unfolding overlap
extends r h =
    overlap (record { start = r.addr; end = end_of r })
      (record { start = h.memory; end = wrap32 (h.memory + h.size) })

-- None is the abort in `operator-` of two pages.
unfoldable pub extend : BootloaderMemRegion → PhysMemHeader → Option PhysMemHeader
unfolding min max sub_assign
extend r h =
    let memory = page_int (min r.addr h.memory) in
    let end = page_int (max (end_of r) (wrap32 (h.memory + h.size))) in
    elim (sub_assign (record { addr = end; class = small })
      (record { addr = memory; class = small })) [
        | none ↦ none
        | some size ↦ some (record h { memory = memory; size = size.addr })
      ]

-- The header that is added behind `cur_header_offset` others, and the one before it.
unfoldable pub append : BootloaderMemRegion → Adding → Adding
append r s =
    let cur = s.cur_header_offset + 1 in
    let linked =
      if s.cur_header_offset == 0
      then s.headers
      else let f = update s.headers cur (record (s.headers cur) { prev = cur - 1 }) in
        update f (cur - 1) (record (f (cur - 1)) { next = cur }) in
    record {
      headers = update linked cur (record (linked cur) {
        memory = page_int r.addr;
        size = page_int r.len;
        in_use = false;
        header_in_use = true;
      });
      cur_header_offset = cur;
      headers_in_use = s.headers_in_use + 1;
    }

-- The loop over the `n` headers from slot `i` on, and what follows it.
unfoldable pub extend_loop : ℕ → ℕ → BootloaderMemRegion → Cmd Adding (Unit {0})
unfolding extends extend append update
extend_loop zero i r = modify (append r)
extend_loop (suc n) i r = do
  s ← get
  if extends r (s.headers i)
      then elim (extend r (s.headers i)) [
        | none ↦ abort
        | some h ↦ modify (λ t. record t { headers = update t.headers i h })
      ]
      else extend_loop n (i + 1) r

unfoldable pub try_add_available_memory_region :
    ℕ → List BootloaderMemRegion → BootloaderMemRegion → Cmd Adding (Unit {0})
unfolding trim_loop extend_loop
try_add_available_memory_region zero unavailable available = λ _. stuck
try_add_available_memory_region (suc fuel) unavailable available = do
  left ← trim_loop (try_add_available_memory_region fuel unavailable) unavailable available
  elim left [ none ↦ pure tt | some rest ↦ do s ← get; extend_loop s.cur_header_offset 1 rest ]

unfoldable pub add_regions :
    ℕ → List BootloaderMemRegion → List BootloaderMemRegion → Cmd Adding (Unit {0})
unfolding try_add_available_memory_region
add_regions fuel unavailable [] = pure tt
add_regions fuel unavailable (r ∷ rs) = do
  try_add_available_memory_region fuel unavailable r
  add_regions fuel unavailable rs

-- The headers of the first chunk.
abbrev pub empty_header : PhysMemHeader
empty_header = record {
  next = null;
  prev = null;
  memory = 0;
  size = 0;
  in_use = false;
  canary0 = 0xCD;
  canary1 = 0xEF;
  header_in_use = false;
}

abbrev pub clear_chunk : (ℕ → PhysMemHeader) → ℕ → PhysMemHeader
clear_chunk headers p = if leb 1 p && leb p headers_per_chunk then empty_header else headers p

module _ {L V : Type 0} where
  -- The loop over the available regions, on the state.
  unfoldable pub fill_headers :
      ℕ → List BootloaderMemRegion → List BootloaderMemRegion → Cmd (Pmm L V) (Unit {0})
  unfolding add_regions
  fill_headers fuel unavailable available s =
      elim (add_regions fuel unavailable available (record {
        headers = s.headers;
        cur_header_offset = 0;
        headers_in_use = s.headers_in_use;
      })) [
        | done _ t ↦ done tt (record s { headers = t.headers; headers_in_use = t.headers_in_use })
        | aborted ↦ aborted
        | stuck ↦ stuck
      ]

  module _ (ops : LockOps L) (vmm : Vmm V) where
    unfoldable pub start_phys_mem_manager :
        ℕ → List BootloaderMemRegion → List BootloaderMemRegion → Cmd (Pmm L V) (Unit {0})
    unfolding find_space fill_headers
    start_phys_mem_manager fuel unavailable available = do
      acquire_lock ops
      let size = round_up_to_page (wrap32 ((length available + 3) * sizeof_header))
      s ← get
      elim (find_space fuel unavailable available size) [
        | none ↦ λ _. stuck
        | some location ↦ if location == null then abort else do
          let (mapped, v) = vmm.map_range location size s.vmm
          if not mapped then abort else do
            modify (λ t. record t {
              vmm = v;
              headers = clear_chunk t.headers;
              headers_allocated = t.headers_allocated + headers_per_chunk;
              first_header = 1;
              num_chunks = 1;
            })
            fill_headers fuel unavailable available
            modify (λ t. record t {
              first_header = 1;
              headers = update t.headers 1 (record (t.headers 1) { prev = null });
            })
            release_lock ops
            _ ← get_mem_area_at ops vmm fuel location size
            pure tt
      ]
