-- ===== src/Arm/Range.antt =====
-- system/kernel/arch/arm/virt_mem/paging.cpp: mapping and unmapping ranges, and `setup_paging`. What these
-- functions call of the physical memory manager is the parameter `PmmOps`.
use feline_os.Base.{
  ℕ, zero, suc, ◌+◌, ◌-◌, ◌*◌, ◌/◌, ◌%◌, true, false, none, some, not, ltb, ◌==◌, if◌then◌else◌,
  wrap32, u32_mod,
}
use feline_os.Page.{bytes_to_pages}
use feline_os.PhysMem.{PmmResults, pmm_invalid, pmm_nomem, pmm_null}
use feline_os.Run.{Cmd, done, aborted, stuck, pure, ◌>>=◌, ◌>>◌, abort, get, modify, assert}
use feline_os.Spinlock.{LockOps}
use feline_os.Paging.{
  Paging, MapResults, map_success, map_already_mapped, map_notmapped, map_no_virtmem,
  map_invalid_option, map_no_physmem, map_invalid_align, page_offset, next_page, previous_page,
  is_mapped, acquire_lock, release_lock,
}
use feline_os.Paging.Find.{free_from_here, find_free_virtmem}
use feline_os.Paging.Range.{is_success, all_mapped}
use feline_os.Arm.{Behind, map_page, unmap_page, virt_to_phys, set_second_level_page_table}

-- `get_mem_area` here is the one that reserves at an address.
pub record PmmOps (P : Type 0) : Type 0 where
  pub get_mem_area : ℕ → ℕ → Cmd P PmmResults
  pub free_mem_area : ℕ → ℕ → Cmd P PmmResults

module _ {L P : Type 0} where
  abbrev pub with_pmm : {A : Type 0} → Cmd P A → Cmd (Paging L P) A
  with_pmm m s = elim (m s.pmm) [
    | done a p ↦ done a (record s { pmm = p })
    | aborted ↦ aborted
    | stuck ↦ stuck
  ]

  unfoldable pub undo_loop : Behind L P → ℕ → ℕ → ℕ → Cmd (Paging L P) (Unit {0})
  unfolding previous_page unmap_page
  undo_loop behind zero virt_to_map virt_addr = λ _. stuck
  undo_loop behind (suc fuel) virt_to_map virt_addr =
      if ltb virt_addr virt_to_map
      then (do
        r ← unmap_page behind (previous_page virt_to_map)
        if is_success r then undo_loop behind fuel (previous_page virt_to_map) virt_addr else abort)
      else pure tt

  -- `n` is the number of pages left.
  unfoldable pub map_loop : Behind L P → ℕ → ℕ → ℕ → ℕ → ℕ → ℕ → Cmd (Paging L P) MapResults
  unfolding map_page undo_loop next_page
  map_loop behind fuel zero phys virt opts virt_addr = pure map_success
  map_loop behind fuel (suc n) phys virt opts virt_addr = do
    attempt ← map_page behind phys virt opts
    if is_success attempt
        then map_loop behind fuel n (next_page phys) (next_page virt) opts virt_addr
        else (do undo_loop behind fuel virt virt_addr; pure attempt)

  unfoldable pub internal_map_range : Behind L P → ℕ → ℕ → ℕ → ℕ → ℕ → Cmd (Paging L P) MapResults
  unfolding page_offset free_from_here map_loop bytes_to_pages
  internal_map_range behind fuel phys_addr len virt_addr opts =
      if not (page_offset phys_addr == page_offset virt_addr) then pure map_invalid_align else do
        s ← get
        let virt = virt_addr / 4_096 * 4_096
        let phys = phys_addr / 4_096 * 4_096
        let mapping = map_loop behind fuel (bytes_to_pages len) phys virt opts virt_addr
        if opts / 2 % 2 == 1 then mapping else elim (free_from_here s fuel virt len) [
          | none ↦ λ _. stuck
          | some (true, _) ↦ mapping
          | some (false, _) ↦ pure map_already_mapped
        ]

  -- Where no virtual memory is left the lock stays taken.
  unfoldable pub map_range :
      Behind L P → LockOps L → ℕ → ℕ → ℕ → ℕ → Cmd (Paging L P) (MapResults × ℕ)
  unfolding find_free_virtmem internal_map_range
  map_range behind ops fuel phys_addr len opts = do
    acquire_lock ops
    s ← get
    let len' = wrap32 (len + page_offset phys_addr)
    elim (find_free_virtmem s fuel len') [
      | none ↦ λ _. stuck
      | some base ↦ if base == 0 then pure (map_no_virtmem, 0) else do
        let virt_addr = wrap32 (base + page_offset phys_addr)
        r ← internal_map_range behind fuel phys_addr len' virt_addr opts
        release_lock ops
        pure (r, virt_addr)
    ]

  -- The physical address is null, and the pages are mapped at the address of the caller's variable.
  unfoldable pub map_range_anywhere :
      Behind L P → LockOps L → PmmOps P → ℕ → ℕ → ℕ → ℕ → Cmd (Paging L P) (MapResults × ℕ)
  unfolding find_free_virtmem internal_map_range
  map_range_anywhere behind ops pmm fuel variable len opts = do
    acquire_lock ops
    s ← get
    elim (find_free_virtmem s fuel len) [
      | none ↦ λ _. stuck
      | some base ↦ if base == 0 then pure (map_no_virtmem, 0) else do
        attempt ← with_pmm (pmm.get_mem_area 0 len)
        elim attempt [
          | pmm_nomem ↦ do release_lock ops; pure (map_no_physmem, base)
          | _ ↦ do
            r ← internal_map_range behind fuel 0 len variable opts
            release_lock ops
            pure (r, base)
        ]
    ]

  unfoldable pub unmap_loop : Behind L P → ℕ → ℕ → Cmd (Paging L P) (Unit {0})
  unfolding unmap_page next_page
  unmap_loop behind zero to_unmap = pure tt
  unmap_loop behind (suc n) to_unmap = do
    _ ← unmap_page behind to_unmap
    unmap_loop behind n (next_page to_unmap)

  -- Where the physical memory cannot be freed the lock stays taken.
  unfoldable pub unmap_range :
      Behind L P → LockOps L → PmmOps P → ℕ → ℕ → ℕ → Cmd (Paging L P) MapResults
  unfolding all_mapped unmap_loop virt_to_phys bytes_to_pages
  unmap_range behind ops pmm virt_addr len opts = do
    acquire_lock ops
    s ← get
    let start = virt_addr / 4_096 * 4_096
    let unmapping : Cmd (Paging L P) MapResults = do
      unmap_loop behind (bytes_to_pages len) start
      release_lock ops
      pure map_success
    if not (all_mapped (bytes_to_pages len) start s)
        then (do release_lock ops; pure map_notmapped)
        else if opts % 2 == 1
        then (do
          attempt ← with_pmm (pmm.free_mem_area (virt_to_phys virt_addr s) len)
          elim attempt [
            | pmm_invalid ↦ pure map_invalid_option
            | pmm_null ↦ pure map_invalid_option
            | _ ↦ unmapping
          ])
        else unmapping

  -- The loop over the sections from number `i` on, `n` of them: the array is row `i` of
  -- `second_level_table_system`, which begins at `tables`.
  unfoldable pub section_loop : ℕ → ℕ → ℕ → Paging L P → Paging L P
  unfolding set_second_level_page_table
  section_loop tables zero i s = s
  section_loop tables (suc n) i s =
      section_loop tables n (i + 1)
        (set_second_level_page_table (1_048_576 * i) (tables + 1_024 * i) s)

  -- For the kernel from `phys_start` to `phys_end` at `kernel_start`.
  unfoldable pub setup_paging :
      Behind L P → LockOps L → ℕ → ℕ → ℕ → ℕ → ℕ → ℕ → Cmd (Paging L P) (Unit {0})
  unfolding section_loop internal_map_range is_mapped
  setup_paging behind ops fuel tables phys_start phys_end kernel_start kernel_end = do
    acquire_lock ops
    modify (section_loop tables 4_095 0)
    r ←
        internal_map_range behind fuel phys_start (wrap32 (phys_end + u32_mod - phys_start))
          kernel_start 2
    if is_success r then pure tt else abort
    s ← get
    assert (is_mapped kernel_start s)
    assert (is_mapped kernel_end s)
    release_lock ops
