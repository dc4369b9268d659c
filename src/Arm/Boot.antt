-- ===== src/Arm/Boot.antt =====
-- `bootstrap_phys_mem_manager` as a whole.
use feline_os.Base.{
  ℕ, suc, ◌+◌, ◌*◌, ◌≤◌, ◌<◌, ◌≡◌, refl, ap, ◌∙◌, false, some, List, [], ◌∷◌, map, length,
  length-append, ◌==◌, u32_mod, arith,
}
use feline_os.Run.{Run, Cmd, done, aborted, stuck, pure, ◌>>◌, abort}
use feline_os.Paging.{MapResults, map_success}
use feline_os.PhysMem.Start.{BootloaderMemRegion}
use feline_os.DeviceTree.{for_each_prop_in_node}
use feline_os.DeviceTree.Entry.{IsString}
use feline_os.DeviceTree.Layout.{Items, IsFlattened, rounds, all_calls}
use feline_os.DeviceTree.Walk.{for_each_prop_in_node-all_calls}
use feline_os.Arm.Bootstrap.{
  Setting, FdtReserveEntry, PlacementDetails, reserved_mem, reserved_start, obstacles,
  count_available, can_contain_memory_map, add_available_memory_region, region_at, sorted_length,
  reserved_region, kernel_regions, unavailable_regions, bootstrap_phys_mem_manager,
}
use feline_os.Arm.Regions.{
  regs, placed, first_space, count_available-regs, add_available-regs, can_contain-first_space,
}

length-map {ℓ κ} :
    {A : Type ℓ} {B : Type κ} (f : A → B) (xs : List A) → length (map f xs) ≡ length xs
length-map f [] = refl
length-map f (x ∷ xs) = ap suc (length-map f xs)

-- The entries of memory nodes that are named "reg".
abbrev pub memory_regs : Setting → ℕ → ℕ → Items → List ℕ
memory_regs c plen n body = regs c (all_calls c.tree c.memory plen n body)

module _ (c : Setting) (k n plen fuel : ℕ) (body : Items) (flat : IsFlattened k n body c.tree)
    (str : IsString c.tree.memory c.memory plen) (short : plen < k)
    (enough : rounds body + k + 1 ≤ fuel) where
  counted :
      for_each_prop_in_node c.tree c.memory (count_available c) fuel 0
      ≡ done tt (length (memory_regs c plen n body))
  counted =
      for_each_prop_in_node-all_calls c.tree c.memory (count_available c) k n plen fuel body 0 flat
        str short enough
      ∙ count_available-regs c (all_calls c.tree c.memory plen n body) 0
      ∙ ap (λ m. done tt m) (omega arith)

  added :
      for_each_prop_in_node c.tree c.memory (add_available_memory_region c) fuel []
      ≡ done tt (map (region_at c) (memory_regs c plen n body))
  added =
      for_each_prop_in_node-all_calls c.tree c.memory (add_available_memory_region c) k n plen fuel
        body [] flat str short enough
      ∙ add_available-regs c (all_calls c.tree c.memory plen n body) []

  found_place :
      (reserved : List FdtReserveEntry) (len place : ℕ)
      → first_space fuel c (obstacles c reserved) len (memory_regs c plen n body) ≡ some place
      → for_each_prop_in_node c.tree c.memory
          (can_contain_memory_map fuel c (obstacles c reserved))
          fuel
          (record { len_needed = len; place = c.phys_kernel_start })
        ≡ done tt (record { len_needed = len; place = place })
  found_place reserved len place first =
      for_each_prop_in_node-all_calls c.tree c.memory
        (can_contain_memory_map fuel c (obstacles c reserved)) k n plen fuel body
        (record { len_needed = len; place = c.phys_kernel_start }) flat str short enough
      ∙ can_contain-first_space fuel c (obstacles c reserved)
          (all_calls c.tree c.memory plen n body) len
      ∙ ap (placed len) first

-- The array at a place.
abbrev pub array_at : Setting → List FdtReserveEntry → ℕ → List ℕ → PlacementDetails
array_at c reserved place rs = record {
  len_needed = sorted_length (length reserved) (length rs);
  place = place;
}

room :
    (c : Setting) (reserved : List FdtReserveEntry) (d : PlacementDetails) (rs : List ℕ)
    → (length reserved * 2 + length rs + 3) * 8 < u32_mod
    → (length (unavailable_regions c reserved d) + length (map (region_at c) rs)) * 8
      ≤ sorted_length (length reserved) (length rs)
unfolding unavailable_regions sorted_length
room c reserved d rs small = omega (
  arith,
  length-append (map reserved_region reserved) (kernel_regions c d),
  length-map reserved_region reserved,
  length-map (region_at c) rs,
)

-- What `bootstrap_phys_mem_manager` does with the result of `map_range`.
abbrev then_start :
    {S : Type 0}
    → Setting
    → (List BootloaderMemRegion → List BootloaderMemRegion → Cmd S ℕ)
    → List FdtReserveEntry
    → ℕ
    → List ℕ
    → Run S (MapResults × ℕ)
    → Run S ℕ
then_start {S} c start reserved place rs r = elim r as (λ v. Run S ℕ) [
  | done m t ↦
      ((elim m.0 as (λ v. Cmd S (Unit {0})) [ map_success ↦ pure tt | _ ↦ abort ])
          >> start (unavailable_regions c reserved (array_at c reserved place rs))
              (map (region_at c) rs))
        t
  | aborted ↦ aborted
  | stuck ↦ stuck
]

-- For a device tree that is laid out in memory, where the bytes of the array for its entries are below 2 ^ 32,
-- and a place for it is found and mapped,
-- `bootstrap_phys_mem_manager` ends as `start_phys_mem_manager` does on the unavailable regions and on
-- one available region for each "reg" of a node whose name begins with "memory", in their order; an
-- available region is the first two cells of its value, whatever the sizes of cells are. All these
-- regions fit in the array.
pub bootstrap_phys_mem_manager-regions :
    {S : Type 0} (map_range : ℕ → ℕ → ℕ → Cmd S (MapResults × ℕ))
    (start_phys_mem_manager : List BootloaderMemRegion → List BootloaderMemRegion → Cmd S ℕ)
    (c : Setting) (k n plen fuel : ℕ) (body : Items) (reserved : List FdtReserveEntry)
    (place array : ℕ) (s t : S)
    → IsFlattened k n body c.tree
    → IsString c.tree.memory c.memory plen
    → plen < k
    → rounds body + k + 1 ≤ fuel
    → (length reserved * 2 + length (memory_regs c plen n body) + 3) * 8 < u32_mod
    → reserved_mem fuel c.tree.memory (reserved_start c.tree.memory c.devicetree_header)
      ≡ some reserved
    → first_space fuel c
        (obstacles c reserved)
        (sorted_length (length reserved) (length (memory_regs c plen n body)))
        (memory_regs c plen n body)
      ≡ some place
    → (place == c.phys_kernel_start) ≡ false
    → map_range place (sorted_length (length reserved) (length (memory_regs c plen n body))) 0 s
      ≡ done (map_success, array) t
    → (bootstrap_phys_mem_manager map_range start_phys_mem_manager fuel c s
        ≡ start_phys_mem_manager
            (unavailable_regions c reserved (array_at c reserved place (memory_regs c plen n body)))
            (map (region_at c) (memory_regs c plen n body))
            t)
      × ((length (
                unavailable_regions c reserved
                  (array_at c reserved place (memory_regs c plen n body)))
              + length (map (region_at c) (memory_regs c plen n body)))
            * 8
          ≤ sorted_length (length reserved) (length (memory_regs c plen n body)))
unfolding bootstrap_phys_mem_manager
bootstrap_phys_mem_manager-regions map_range start c k n plen fuel body reserved place array s t
      flat str short enough small read first other mapped =
    (
      simp read (
          simp (counted c k n plen fuel body flat str short enough) (
            simp
              (found_place c k n plen fuel body flat str short enough reserved
                (sorted_length (length reserved) (length (memory_regs c plen n body))) place first)
              (simp (other, added c k n plen fuel body flat str short enough)
                (ap (then_start c start reserved place (memory_regs c plen n body)) mapped)))),
      room c reserved (array_at c reserved place (memory_regs c plen n body))
          (memory_regs c plen n body) small,
    )
