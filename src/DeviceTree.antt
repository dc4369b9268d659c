-- ===== src/DeviceTree.antt =====
-- system/kernel/arch/arm/devicetree/devicetree.cpp and system/kernel/include/kernel/devicetree.h: the walk
-- over the flattened device tree. Memory is a function from addresses to bytes, and an entry is its
-- address; the processor is little-endian. A string of the code, such as a prefix, is an address too. The
-- callback is a command on the caller's state. `read_pmem` and `map_range` are parameters.
pub mod Entry
pub mod Layout
pub mod Walk
use feline_os.Base.{
  ℕ, zero, suc, ◌+◌, ◌-◌, ◌*◌, ◌%◌, Bool, true, false, Option, none, some, ◌||◌, ◌==◌,
  if◌then◌else◌, wrap32,
}
use feline_os.Run.{Run, Cmd, done, aborted, stuck, pure, ◌>>=◌, ◌>>◌, abort, get}
use feline_os.Feline.{reverse_endian32}
use feline_os.Strings.{Bytes, Order, equal, strlen, strcmp, strncmp}
use feline_os.Paging.{
  MapResults, map_success, map_already_mapped, map_notmapped, map_no_virtmem, map_invalid_option,
  map_no_physmem, map_no_perm, map_err_kernel_space, map_invalid_align,
}

-- A 32-bit load, and `big_endian<uint32_t>`.
unfoldable pub load32 : Bytes → ℕ → ℕ
load32 m p = m p + m (p + 1) * 256 + m (p + 2) * 65_536 + m (p + 3) * 16_777_216

unfoldable pub big_endian : Bytes → ℕ → ℕ
unfolding load32 reverse_endian32
big_endian m p = reverse_endian32 (load32 m p)

-- `fdt_node_type`
abbrev pub fdt_begin_node : ℕ
fdt_begin_node = 1

abbrev pub fdt_end_node : ℕ
fdt_end_node = 2

abbrev pub fdt_prop : ℕ
fdt_prop = 3

abbrev pub fdt_nop : ℕ
fdt_nop = 4

abbrev pub fdt_end : ℕ
fdt_end = 9

-- The fields of an entry: `node_type`, and `len`, `nameoff` and `value[i]` of its `prop`.
abbrev pub node_type : Bytes → ℕ → ℕ
node_type m entry = big_endian m entry

abbrev pub prop_len : Bytes → ℕ → ℕ
prop_len m entry = big_endian m (entry + 4)

abbrev pub prop_nameoff : Bytes → ℕ → ℕ
prop_nameoff m entry = big_endian m (entry + 8)

abbrev pub prop_value : Bytes → ℕ → ℕ → ℕ
prop_value m entry i = big_endian m (entry + 12 + i * 4)

pub record DevicetreeCellSize : Type 0 where
  pub address_cells : ℕ
  pub size_cells : ℕ

-- What the code starts from where a node says nothing.
abbrev pub default_cells : DevicetreeCellSize
default_cells = record { address_cells = 2; size_cells = 1 }

-- The memory, the globals `strings` and `structs`, and the two names that the walk compares with.
pub record DeviceTree : Type 0 where
  pub memory : Bytes
  pub strings : ℕ
  pub structs : ℕ
  pub address_cells_name : ℕ
  pub size_cells_name : ℕ

unfoldable pub pad_len : ℕ → ℕ
pad_len len = if len % 4 == 0 then len else wrap32 (len + (4 - len % 4))

module _ {S : Type 0} where
  unfoldable pub increment_fdt_struct : ℕ → Bytes → ℕ → Cmd S ℕ
  unfolding pad_len
  increment_fdt_struct fuel m entry =
      if node_type m entry == fdt_begin_node
      then elim (strlen fuel (entry + 4) m) [
        | none ↦ λ s. stuck
        | some len ↦ pure (wrap32 (entry + 4 + pad_len (wrap32 (len + 1))))
      ]
      else if node_type m entry == fdt_prop
      then pure (wrap32 (entry + 12 + pad_len (prop_len m entry)))
      else if node_type m entry == fdt_end_node || node_type m entry == fdt_nop
      then pure (wrap32 (entry + 4))
      else abort

-- `strncmp(prefix, name, strlen(prefix)) == 0` for the name of a node.
unfoldable pub has_prefix : ℕ → Bytes → ℕ → ℕ → Option Bool
has_prefix fuel m prefix entry = elim (strlen fuel prefix m) [
  | none ↦ none
  | some len ↦ some (elim (strncmp prefix (entry + 4) len m) [ equal ↦ true | _ ↦ false ])
]

-- Whether a property has a name.
unfoldable pub is_named : DeviceTree → ℕ → ℕ → Bool
is_named t name entry =
    elim (strcmp name (wrap32 (t.strings + prop_nameoff t.memory entry)) t.memory) [
      | equal ↦ true
      | _ ↦ false
    ]

-- `next_cell_size` behind a property.
unfoldable pub read_cells : DeviceTree → ℕ → DevicetreeCellSize → DevicetreeCellSize
read_cells t entry next =
    if is_named t t.address_cells_name entry
    then record next { address_cells = prop_value t.memory entry 0 }
    else if is_named t t.size_cells_name entry
    then record next { size_cells = prop_value t.memory entry 0 }
    else next

module _ {S : Type 0} (t : DeviceTree) (prefix : ℕ)
    (callback : ℕ → DevicetreeCellSize → Cmd S (Unit {0})) where
  -- The `while` of the walk, from the entry `node` on; the result is the entry behind.
  unfoldable pub node_loop : ℕ → Bool → DevicetreeCellSize → DevicetreeCellSize → ℕ → Cmd S ℕ
  node_loop zero usecallback curr next node = λ s. stuck
  node_loop (suc fuel) usecallback curr next node =
      let kind = node_type t.memory node in
      if kind == fdt_begin_node
      then elim (has_prefix fuel t.memory prefix node) [
        | none ↦ λ s. stuck
        | some matches ↦ do
          inner ← increment_fdt_struct fuel t.memory node
          behind ← node_loop fuel matches next default_cells inner
          node_loop fuel usecallback curr next behind
      ]
      else if kind == fdt_prop
      then (do
        if usecallback then callback node curr else pure tt
        behind ← increment_fdt_struct fuel t.memory node
        node_loop fuel usecallback curr (read_cells t node next) behind)
      else if kind == fdt_nop
      then (do
        behind ← increment_fdt_struct fuel t.memory node
        node_loop fuel usecallback curr next behind)
      else if kind == fdt_end_node
      then increment_fdt_struct fuel t.memory node
      else if kind == fdt_end
      then pure node
      else abort

  unfoldable pub for_each_prop_in_node : ℕ → Cmd S (Unit {0})
  unfolding node_loop
  for_each_prop_in_node fuel = do
    node_loop fuel false default_cells default_cells t.structs >>= λ _. pure tt

unfoldable pub fdt_magic : ℕ
fdt_magic = 0xd00dfeed

module _ {S : Type 0} (read_pmem : ℕ → Cmd S Bytes)
    (map_range : ℕ → ℕ → ℕ → Cmd S (MapResults × ℕ)) where
  -- Behind the mapping; `memory` reads what is mapped. The last two arguments are the names for the walk.
  unfoldable pub open_devicetree : Cmd S Bytes → ℕ → ℕ → ℕ → Cmd S DeviceTree
  unfolding fdt_magic
  open_devicetree memory devicetree address_cells_name size_cells_name = do
    m ← memory
    if big_endian m devicetree == fdt_magic
        then pure (record {
          memory = m;
          strings = wrap32 (devicetree + big_endian m (devicetree + 12));
          structs = wrap32 (devicetree + big_endian m (devicetree + 8));
          address_cells_name = address_cells_name;
          size_cells_name = size_cells_name;
        })
        else abort

  unfoldable pub init_devicetree : Cmd S Bytes → ℕ → ℕ → ℕ → Cmd S (ℕ × DeviceTree)
  unfolding open_devicetree
  init_devicetree memory header address_cells_name size_cells_name = do
    dt_header ← read_pmem header
    (dt_mapping, devicetree) ← map_range header (big_endian dt_header 4) 0
    elim dt_mapping [
      | map_success ↦ do
        t ← open_devicetree memory devicetree address_cells_name size_cells_name
        pure (devicetree, t)
      | _ ↦ abort
    ]
