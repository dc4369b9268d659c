-- ===== src/Arm/Bootstrap.antt =====
-- system/kernel/arch/arm/mem/phys_mem.cpp: `bootstrap_phys_mem_manager`, from the device tree to the regions
-- for `start_phys_mem_manager`. The lambdas of the functions are definitions of their own. The array of
-- regions is two lists, the unavailable regions and the available ones behind them. A `PhysAddr` is its
-- number, and sums of 64 bits are cut to 32. `map_range` and `start_phys_mem_manager` are parameters.
use feline_os.Base.{
  ℕ, zero, suc, ◌+◌, ◌*◌, ◌/◌, Option, none, some, List, [], ◌∷◌, ◌++◌, map, length, ◌&&◌, ltb,
  ◌==◌, if◌then◌else◌, wrap32, u32_mod, uintptr_max,
}
use feline_os.Run.{Run, Cmd, done, aborted, stuck, pure, ◌>>=◌, ◌>>◌, abort}
use feline_os.Feline.{overlap, round_up_to_alignment}
use feline_os.Strings.{Bytes}
use feline_os.Paging.{MapResults, map_success}
use feline_os.PhysMem.Start.{
  BootloaderMemRegion, FindActions, fail, success, after, Tried, found, retry, sub32,
}
use feline_os.DeviceTree.{
  DeviceTree, DevicetreeCellSize, big_endian, prop_value, is_named, for_each_prop_in_node,
}

-- `fdt_reserve_entry`, and a `big_endian<uint64_t>`.
pub record FdtReserveEntry : Type 0 where
  pub address : ℕ
  pub size : ℕ

unfoldable pub big_endian64 : Bytes → ℕ → ℕ
big_endian64 m p = big_endian m p * u32_mod + big_endian m (p + 4)

-- Where the kernel and the device tree are, and what the walks look for: the addresses of "reg" and "memory".
pub record Setting : Type 0 where
  pub tree : DeviceTree
  pub phys_kernel_start : ℕ
  pub phys_kernel_end : ℕ
  pub phys_devicetree_header : ℕ
  pub devicetree_header : ℕ
  pub reg : ℕ
  pub memory : ℕ

-- `devicetree_header->totalsize`
abbrev pub totalsize : Setting → ℕ
totalsize c = big_endian c.tree.memory (c.devicetree_header + 4)

-- The entries from `p` on, to the one of zeros.
unfoldable pub reserved_mem : ℕ → Bytes → ℕ → Option (List FdtReserveEntry)
unfolding big_endian64
reserved_mem zero m p = none
reserved_mem (suc fuel) m p =
    let rest = reserved_mem fuel m (p + 16) in
    let entry : FdtReserveEntry = record {
      address = big_endian64 m p;
      size = big_endian64 m (p + 8);
    } in
    if entry.address == 0 && entry.size == 0
    then some []
    else elim rest [ none ↦ none | some entries ↦ some (entry ∷ entries) ]

-- `devicetree_header + devicetree_header->off_mem_rsvmap / sizeof(fdt_header)`, a sum of pointers.
unfoldable pub reserved_start : Bytes → ℕ → ℕ
reserved_start m devicetree_header =
    wrap32 (devicetree_header + big_endian m (devicetree_header + 16) / 40 * 40)

unfoldable pub is_overlap : ℕ → ℕ → ℕ → ℕ → ℕ → FindActions
is_overlap location size_needed end_of_available start_reserved end_reserved =
    if overlap (record { start = location; end = wrap32 (location + size_needed) })
      (record { start = start_reserved; end = end_reserved })
    then if ltb end_of_available (wrap32 (end_reserved + size_needed)) then fail else after
    else success

-- What `find_space_in_area` stays clear of: a range, and where it tries behind it.
pub record Obstacle : Type 0 where
  pub start : ℕ
  pub end : ℕ
  pub next : ℕ

unfoldable pub reserved_obstacle : FdtReserveEntry → Obstacle
reserved_obstacle r = record {
  start = wrap32 r.address;
  end = wrap32 (r.address + r.size);
  next = wrap32 (r.address + r.size + 1);
}

unfoldable pub kernel_obstacle : Setting → Obstacle
kernel_obstacle c = record {
  start = c.phys_kernel_start;
  end = c.phys_kernel_end;
  next = wrap32 (c.phys_kernel_end + 1);
}

-- One more than a pointer to the header is the length of a header further on.
unfoldable pub devicetree_obstacle : Setting → Obstacle
devicetree_obstacle c =
    let end = wrap32 (c.phys_devicetree_header + totalsize c / 40 * 40) in
    record { start = c.phys_devicetree_header; end = end; next = wrap32 (end + 40) }

unfoldable pub obstacles : Setting → List FdtReserveEntry → List Obstacle
unfolding reserved_obstacle kernel_obstacle devicetree_obstacle
obstacles c reserved =
    map reserved_obstacle reserved ++ (kernel_obstacle c ∷ devicetree_obstacle c ∷ [])

-- The tests of `find_space_in_area`, one after another. The lambda `is_overlap` holds a copy of `location`
-- from before it is rounded up, `unaligned`.
unfoldable pub try_location : List Obstacle → ℕ → ℕ → ℕ → ℕ → ℕ → Tried
unfolding is_overlap
try_location [] unaligned location size_needed end_of_available invalid_location = found location
try_location (o ∷ os) unaligned location size_needed end_of_available invalid_location =
    elim (is_overlap unaligned size_needed end_of_available o.start o.end) [
      | success ↦ try_location os unaligned location size_needed end_of_available invalid_location
      | fail ↦ found invalid_location
      | after ↦ retry o.next
    ]

-- None where the fuel ends, or the alignment is zero.
unfoldable pub find_space_in_area : ℕ → List Obstacle → ℕ → ℕ → ℕ → ℕ → ℕ → Option ℕ
unfolding try_location
find_space_in_area zero os location end_of_available size_needed alignment_needed invalid_location =
    none
find_space_in_area (suc fuel) os location end_of_available size_needed alignment_needed
      invalid_location =
    elim (round_up_to_alignment location alignment_needed) [
      | none ↦ none
      | some aligned ↦
          elim (try_location os location aligned size_needed end_of_available invalid_location) [
            | found result ↦ some result
            | retry next ↦
                find_space_in_area fuel os next end_of_available size_needed alignment_needed
                  invalid_location
          ]
    ]

-- `print_available_memory`, which counts.
unfoldable pub count_available : Setting → ℕ → DevicetreeCellSize → Cmd ℕ (Unit {0})
count_available c entry sizes state =
    if is_named c.tree c.reg entry then done tt (state + 1) else done tt state

-- `placement_details`; `place` is `where`.
pub record PlacementDetails : Type 0 where
  pub len_needed : ℕ
  pub place : ℕ

-- What the callbacks take the value of "reg" for.
unfoldable pub region_at : Setting → ℕ → BootloaderMemRegion
region_at c entry = record {
  addr = prop_value c.tree.memory entry 0;
  len = prop_value c.tree.memory entry 1;
}

unfoldable pub can_contain_memory_map :
    ℕ → Setting → List Obstacle → ℕ → DevicetreeCellSize → Cmd PlacementDetails (Unit {0})
unfolding region_at
can_contain_memory_map fuel c os entry sizes state =
    let r = region_at c entry in
    if is_named c.tree c.reg entry && (state.place == c.phys_kernel_start)
    then elim (find_space_in_area fuel os r.addr (wrap32 (r.addr + r.len)) state.len_needed 4
        c.phys_kernel_start) [
          | none ↦ stuck
          | some place ↦ done tt (record state { place = place })
        ]
    else done tt state

unfoldable pub add_available_memory_region :
    Setting → ℕ → DevicetreeCellSize → Cmd (List BootloaderMemRegion) (Unit {0})
unfolding region_at
add_available_memory_region c entry sizes state =
    if is_named c.tree c.reg entry
    then done tt (state ++ (region_at c entry ∷ []))
    else done tt state

-- The bytes of the array, a `size_t`.
unfoldable pub sorted_length : ℕ → ℕ → ℕ
sorted_length num_reserved_entries num_available_entries =
    wrap32 ((num_reserved_entries * 2 + num_available_entries + 3) * 8)

unfoldable pub reserved_region : FdtReserveEntry → BootloaderMemRegion
reserved_region r = record {
  addr = wrap32 r.address;
  len = if ltb uintptr_max r.size then uintptr_max else r.size;
}

-- The regions of the kernel, of the device tree, and of the array itself.
abbrev pub kernel_regions : Setting → PlacementDetails → List BootloaderMemRegion
kernel_regions c d =
    record { addr = c.phys_kernel_start; len = sub32 c.phys_kernel_end c.phys_kernel_start }
    ∷ record { addr = c.phys_devicetree_header; len = totalsize c }
    ∷ record { addr = d.place; len = d.len_needed }
    ∷ []

unfoldable pub unavailable_regions :
    Setting → List FdtReserveEntry → PlacementDetails → List BootloaderMemRegion
unfolding reserved_region
unavailable_regions c reserved d = map reserved_region reserved ++ kernel_regions c d

module _ {S : Type 0} where
  -- A walk whose callback has a state of its own.
  abbrev pub with_state : {T : Type 0} → Run T (Unit {0}) → Cmd S T
  with_state (done a t) = pure t
  with_state aborted = abort
  with_state stuck = λ s. stuck

  abbrev pub read_option : {T : Type 0} → Option T → Cmd S T
  read_option none = λ s. stuck
  read_option (some a) = pure a

  -- Behind `init_devicetree`.
  unfoldable pub bootstrap_phys_mem_manager :
      (ℕ → ℕ → ℕ → Cmd S (MapResults × ℕ))
      → (List BootloaderMemRegion → List BootloaderMemRegion → Cmd S ℕ)
      → ℕ
      → Setting
      → Cmd S ℕ
  bootstrap_phys_mem_manager map_range start_phys_mem_manager fuel c = do
    reserved ←
        read_option
          (reserved_mem fuel c.tree.memory (reserved_start c.tree.memory c.devicetree_header))
    num_available_entries ←
        with_state (for_each_prop_in_node c.tree c.memory (count_available c) fuel 0)
    d ← with_state (
        for_each_prop_in_node c.tree c.memory (can_contain_memory_map fuel c (obstacles c reserved))
          fuel
          (record {
            len_needed = sorted_length (length reserved) num_available_entries;
            place = c.phys_kernel_start;
          }))
    if d.place == c.phys_kernel_start then abort else pure tt
    (mapping, array) ← map_range d.place d.len_needed 0
    elim mapping [ map_success ↦ pure tt | _ ↦ abort ]
    available ←
        with_state (for_each_prop_in_node c.tree c.memory (add_available_memory_region c) fuel [])
    start_phys_mem_manager (unavailable_regions c reserved d) available
