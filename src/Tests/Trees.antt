-- ===== src/Tests/Trees.antt =====
-- The theorems on the device tree, and on what ARM's start makes of it.
use feline_os.Base.{
  ℕ, ◌+◌, ◌*◌, ◌<◌, ◌≤◌, ◌≡◌, ◌≢◌, refl, ap, ◌∙◌, List, [], ◌∷◌, map, length, ◌||◌, ◌==◌,
  if◌then◌else◌, arith,
}
use feline_os.Run.{Cmd, done}
use feline_os.Run.Sequence.{run_all}
use feline_os.Strings.{Bytes, strcmp}
use feline_os.Paging.{MapResults, map_success}
use feline_os.PhysMem.Start.{BootloaderMemRegion}
use feline_os.Feline.{round_up_to_alignment, overlap}
use feline_os.DeviceTree.{
  DeviceTree, DevicetreeCellSize, big_endian, is_named, for_each_prop_in_node,
}
use feline_os.DeviceTree.Entry.{IsString}
use feline_os.DeviceTree.Layout.{Items, end, prop, node, IsFlattened, all_calls}
use feline_os.DeviceTree.Walk.{for_each_prop_in_node-all_calls}
use feline_os.Arm.Bootstrap.{
  Setting, find_space_in_area, reserved_mem, reserved_start, obstacles, region_at, sorted_length,
  unavailable_regions, bootstrap_phys_mem_manager,
}
use feline_os.Arm.Boot.{memory_regs, array_at, bootstrap_phys_mem_manager-regions}

-- At 100 a root with an empty name, in it a node "m" with the property "reg", 65,536 and 1,048,576; at 200 the
-- string "m", at 300 and 500 "reg", and at 600 a header with the list of reserved memory at 640.
abbrev tree_bytes : Bytes
tree_bytes q =
    if q == 103 || q == 111 || q == 129
    then 1
    else if q == 112 || q == 200
    then 109
    else if q == 119
    then 3
    else if q == 123
    then 8
    else if q == 133
    then 16
    else if q == 139 || q == 143
    then 2
    else if q == 147
    then 9
    else if q == 300 || q == 500
    then 114
    else if q == 301 || q == 501
    then 101
    else if q == 302 || q == 502
    then 103
    else if q == 619
    then 40
    else 0

abbrev tree : DeviceTree
tree = record {
  memory = tree_bytes;
  strings = 300;
  structs = 100;
  address_cells_name = 400;
  size_cells_name = 400;
}

abbrev tree_items : Items
tree_items = node 1 (prop 8 end) end

abbrev count_calls : ℕ → DevicetreeCellSize → Cmd ℕ (Unit {0})
count_calls entry sizes s = done tt (s + 1)

same : (n j : ℕ) → j < 1 → n ≡ n + j
same n j lt = omega arith

tree-IsString :
    (str : ℕ) → tree_bytes (str + 1) ≡ 0 → tree_bytes str ≢ 0 → IsString tree_bytes str 1
tree-IsString str ends first = record {
  ends = ends;
  before = λ j lt e. first (ap tree_bytes (same str j lt) ∙ e);
}

tree-IsFlattened : IsFlattened 2 0 tree_items tree
unfolding big_endian
tree-IsFlattened = record {
  bytes = λ q. ground arith;
  root = refl;
  name = record { ends = refl; before = λ j lt. absurd (omega arith) };
  short = omega arith;
  items = (refl, tree-IsString 112 refl (λ e. omega arith), omega arith, (refl, refl, refl), refl);
  behind = refl;
  fits = omega arith;
}

for_each_prop_in_node-all_calls_example :
    for_each_prop_in_node tree 200 count_calls 7 0
    ≡ run_all
        (λ (e : ℕ × DevicetreeCellSize). count_calls e.0 e.1)
        (all_calls tree 200 1 0 tree_items)
        0
for_each_prop_in_node-all_calls_example =
    for_each_prop_in_node-all_calls tree 200 count_calls 2 0 1 7 tree_items 0 tree-IsFlattened
      (tree-IsString 200 refl (λ e. omega arith)) (omega arith) (omega arith)

abbrev setting : Setting
setting = record {
  tree = tree;
  phys_kernel_start = 2_097_152;
  phys_kernel_end = 2_097_252;
  phys_devicetree_header = 4_194_304;
  devicetree_header = 600;
  reg = 500;
  memory = 200;
}

abbrev map_it : ℕ → ℕ → ℕ → Cmd ℕ (MapResults × ℕ)
map_it phys len opts s = done (map_success, 3_000) (s + 1)

abbrev start_it : List BootloaderMemRegion → List BootloaderMemRegion → Cmd ℕ ℕ
start_it unavailable available s = done (length unavailable + length available) s

tree_regs : memory_regs setting 1 0 tree_items ≡ 116 ∷ []
unfolding big_endian is_named strcmp
tree_regs = refl

bootstrap_phys_mem_manager-regions_example :
    (bootstrap_phys_mem_manager map_it start_it 7 setting 0
      ≡ start_it
          (unavailable_regions setting []
            (array_at setting [] 65_536 (memory_regs setting 1 0 tree_items)))
          (map (region_at setting) (memory_regs setting 1 0 tree_items))
          1)
    × ((length (
              unavailable_regions setting []
                (array_at setting [] 65_536 (memory_regs setting 1 0 tree_items)))
            + length (map (region_at setting) (memory_regs setting 1 0 tree_items)))
          * 8
        ≤ sorted_length 0 (length (memory_regs setting 1 0 tree_items)))
unfolding big_endian is_named strcmp find_space_in_area reserved_mem reserved_start obstacles
    region_at sorted_length round_up_to_alignment overlap
bootstrap_phys_mem_manager-regions_example =
    bootstrap_phys_mem_manager-regions map_it start_it setting 2 0 1 7 tree_items [] 65_536 3_000 0
      1 tree-IsFlattened (tree-IsString 200 refl (λ e. omega arith)) (omega arith) (omega arith)
      (omega (arith, ap length tree_regs)) refl refl refl refl
