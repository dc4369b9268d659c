-- ===== src/Bootstrap.antt =====
-- system/kernel/arch/i386/mem/phys_mem.cpp: `bootstrap_phys_mem_manager`, from the boot loader's memory map
-- to the regions for `start_phys_mem_manager`. The map is the list of its entries; addresses and lengths
-- in it have 64 bits. The array of regions that is filled in is a function from indices. Mapping the map
-- and the array is left to parameters of the other components, and is not part of the model.
pub mod Copy
use feline_os.Base.{
  ℕ, zero, suc, ◌+◌, ◌-◌, ◌*◌, ◌/◌, ◌%◌, Bool, true, false, Option, none, some, List, [], ◌∷◌, not,
  ◌&&◌, ◌||◌, ltb, leb, ◌==◌, if◌then◌else◌, wrap32, u32_mod,
}
use feline_os.Feline.{min, max}
use feline_os.Numbers.{u64_mod}
use feline_os.PhysMem.Start.{BootloaderMemRegion, sub32, end_of}

-- A `multiboot_memory_map_t`; `kind` is its `type`.
pub record MemoryMapEntry : Type 0 where
  pub addr : ℕ
  pub len : ℕ
  pub kind : ℕ

abbrev pub memory_available : ℕ
memory_available = 1

abbrev pub wrap64 : ℕ → ℕ
wrap64 n = n % u64_mod

-- `addr + len` of an entry.
abbrev pub entry_end : MemoryMapEntry → ℕ
entry_end e = wrap64 (e.addr + e.len)

unfoldable pub avoiding_kernel : ℕ → MemoryMapEntry → Bool
avoiding_kernel kernel_end e = ltb kernel_end e.addr || ltb (entry_end e) kernel_end

-- The map itself is at `map_start` to `map_end`.
unfoldable pub avoiding_grub_memmap : ℕ → ℕ → MemoryMapEntry → Bool
avoiding_grub_memmap map_start map_end e =
    ltb map_end (wrap32 e.addr) || ltb (wrap32 (e.addr + e.len)) map_start

-- Whether the array of `sorted_length` bytes goes to an entry.
unfoldable pub can_use : ℕ → ℕ → ℕ → ℕ → MemoryMapEntry → Bool
unfolding avoiding_kernel avoiding_grub_memmap
can_use sorted_length kernel_end map_start map_end e =
    let overlapping_data =
      avoiding_kernel kernel_end e && avoiding_grub_memmap map_start map_end e in
    (e.kind == memory_available)
    && (leb sorted_length e.len
        && (ltb (wrap64 (e.addr + sorted_length)) 4_294_967_295 && not overlapping_data))

-- The loop over the map: the first entry that can be used.
unfoldable pub find_space : ℕ → ℕ → ℕ → ℕ → List MemoryMapEntry → Option ℕ
unfolding can_use
find_space sorted_length kernel_end map_start map_end [] = none
find_space sorted_length kernel_end map_start map_end (e ∷ es) =
    if can_use sorted_length kernel_end map_start map_end e
    then some (wrap32 e.addr)
    else find_space sorted_length kernel_end map_start map_end es

-- The array, the number of unavailable regions, and the index of `new_memory`.
pub record Sorting : Type 0 where
  pub memory : ℕ → BootloaderMemRegion
  pub num_unavailable_regions : ℕ
  pub new_memory : ℕ

unfoldable pub write : (ℕ → BootloaderMemRegion) → ℕ → BootloaderMemRegion → ℕ → BootloaderMemRegion
write f p r q = if p == q then r else f q

-- Whether an entry and a region meet, and the region with the entry. The new length is taken with the new
-- start and the old length.
unfoldable pub can_merge : MemoryMapEntry → BootloaderMemRegion → Bool
can_merge e r = leb e.addr (end_of r) && leb r.addr (entry_end e)

unfoldable pub merge : MemoryMapEntry → BootloaderMemRegion → BootloaderMemRegion
unfolding min max
merge e r =
    let addr = min (wrap32 e.addr) r.addr in
    record { addr = addr; len = sub32 (max (wrap32 (e.addr + e.len)) (wrap32 (addr + r.len))) addr }

-- The loop over the `n` regions from index `i` on; none where nothing is merged.
unfoldable pub merge_loop :
    ℕ → ℕ → MemoryMapEntry → (ℕ → BootloaderMemRegion) → Option (ℕ → BootloaderMemRegion)
unfolding can_merge merge write
merge_loop zero i e memory = none
merge_loop (suc n) i e memory =
    if can_merge e (memory i)
    then some (write memory i (merge e (memory i)))
    else merge_loop n (i + 1) e memory

-- Every region from index `i` to `last` one index further.
unfoldable pub move_back : ℕ → ℕ → (ℕ → BootloaderMemRegion) → ℕ → BootloaderMemRegion
move_back i last memory q = if ltb i q && leb q last then memory (q - 1) else memory q

-- The loop that puts a region before the first one that starts lower; none where there is no such.
unfoldable pub insert_loop : ℕ → ℕ → MemoryMapEntry → Sorting → Option Sorting
unfolding move_back write
insert_loop zero i e s = none
insert_loop (suc n) i e s =
    if ltb (s.memory i).addr e.addr
    then some (record s {
      memory =
          write (move_back i s.num_unavailable_regions s.memory) i
            (record { addr = wrap32 e.addr; len = wrap32 e.len });
      num_unavailable_regions = s.num_unavailable_regions + 1;
    })
    else insert_loop n (i + 1) e s

-- An unavailable entry; `new_memory` goes on in any case.
unfoldable pub add_unavailable : MemoryMapEntry → Sorting → Sorting
unfolding merge_loop insert_loop min write
add_unavailable e s =
    let added =
      if ltb 0 s.new_memory && ltb e.addr (end_of (s.memory (s.new_memory - 1)))
      then elim (merge_loop s.num_unavailable_regions 0 e s.memory) [
        | some memory ↦ record s { memory = memory }
        | none ↦ elim (insert_loop s.num_unavailable_regions 0 e s) [ some t ↦ t | none ↦ s ]
      ]
      else if ltb e.addr u32_mod
      then record s {
        memory =
            write s.memory s.new_memory
              (record { addr = e.addr; len = wrap32 (min e.len (u32_mod - e.addr)) });
        num_unavailable_regions = s.num_unavailable_regions + 1;
      }
      else s in
    record added { new_memory = s.new_memory + 1 }

unfoldable pub copy_unavailable : List MemoryMapEntry → Sorting → Sorting
unfolding add_unavailable
copy_unavailable [] s = s
copy_unavailable (e ∷ es) s =
    copy_unavailable es (if e.kind == memory_available then s else add_unavailable e s)

-- Whether one of the `n` regions from index `i` on holds all of an entry and more on both sides.
unfoldable pub should_drop : ℕ → ℕ → MemoryMapEntry → (ℕ → BootloaderMemRegion) → Bool
should_drop zero i e memory = false
should_drop (suc n) i e memory =
    (ltb (memory i).addr e.addr && ltb (entry_end e) (end_of (memory i)))
    || should_drop n (i + 1) e memory

-- The loop over the available entries: the state, and how many were added.
unfoldable pub copy_available : List MemoryMapEntry → ℕ → Sorting → Sorting × ℕ
unfolding should_drop write
copy_available [] num_available s = (s, num_available)
copy_available (e ∷ es) num_available s =
    if (e.kind == memory_available) && not (should_drop s.num_unavailable_regions 0 e s.memory)
    then copy_available es (num_available + 1) (record s {
      memory = write s.memory s.new_memory (record { addr = wrap32 e.addr; len = wrap32 e.len });
      new_memory = s.new_memory + 1;
    })
    else copy_available es num_available s

-- The regions that the array begins with.
unfoldable pub initial : ℕ → ℕ → ℕ → ℕ → (ℕ → BootloaderMemRegion) → Sorting
unfolding write
initial found_space sorted_length kernel_start kernel_end memory = record {
  memory =
      write
        (write (write memory 0 (record { addr = found_space; len = sorted_length })) 1
          (record { addr = kernel_start; len = sub32 kernel_end kernel_start }))
        2 (record { addr = 0xA_0000; len = 0x6_0000 });
  num_unavailable_regions = 3;
  new_memory = 3;
}

-- The `n` regions from index `i` on.
unfoldable pub slice : ℕ → ℕ → (ℕ → BootloaderMemRegion) → List BootloaderMemRegion
slice zero i memory = []
slice (suc n) i memory = memory i ∷ slice n (i + 1) memory

-- The unavailable and the available regions for `start_phys_mem_manager`; none where no space is found.
-- The map has `map_length` bytes, 24 for an entry, and a region takes 8.
unfoldable pub bootstrap_regions :
    ℕ
    → ℕ
    → ℕ
    → ℕ
    → (ℕ → BootloaderMemRegion)
    → List MemoryMapEntry
    → Option (List BootloaderMemRegion × List BootloaderMemRegion)
unfolding find_space initial copy_unavailable copy_available slice
bootstrap_regions map_start map_length kernel_start kernel_end memory entries =
    let sorted_length = wrap32 ((map_length / 24 + 3) * 8) in
    elim (find_space sorted_length kernel_end map_start (map_start + map_length / 24 * 24)
      entries) [
        | none ↦ none
        | some found ↦
            if found == kernel_start
            then none
            else let s =
                copy_unavailable entries
                  (initial found sorted_length kernel_start kernel_end memory) in
              let (t, num_available) = copy_available entries 0 s in
              some (
                slice t.num_unavailable_regions 0 t.memory,
                slice num_available s.new_memory t.memory,
              )
      ]
