-- ===== src/Paging/Range.antt =====
-- system/kernel/arch/i386/virt_mem/paging.cpp: mapping and unmapping ranges. What these functions call
-- of the physical memory manager is the parameter `PmmOps`.
use feline_os.Base.{
  ℕ, zero, suc, ◌+◌, ◌*◌, ◌/◌, ◌%◌, Bool, true, false, Option, none, some, not, ◌&&◌, ltb, ◌==◌,
  if◌then◌else◌, wrap32,
}
use feline_os.Page.{bytes_to_pages}
use feline_os.PhysMem.{PmmResults, pmm_invalid, pmm_nomem, pmm_null}
use feline_os.Run.{Cmd, done, aborted, stuck, pure, ◌>>=◌, ◌>>◌, abort, get, modify}
use feline_os.Spinlock.{LockOps}
use feline_os.Paging.{
  Paging, MapResults, map_success, map_already_mapped, map_notmapped, map_no_virtmem,
  map_invalid_option, map_no_physmem, map_invalid_align, page_offset, addr, entry_of, next_page,
  previous_page, is_mapped, map_page, unmap_page, acquire_lock, release_lock, update,
  searchable_page_table_offset,
}
use feline_os.Paging.Find.{free_from_here, find_free_virtmem}

pub record PmmOps (P : Type 0) : Type 0 where
  pub get_mem_area : ℕ → Cmd P (PmmResults × ℕ)
  pub free_mem_area : ℕ → ℕ → Cmd P PmmResults

abbrev pub is_success : MapResults → Bool
is_success map_success = true
is_success _ = false

module _ {L P : Type 0} where
  -- A call of the physical memory manager.
  abbrev pub with_pmm : {A : Type 0} → Cmd P A → Cmd (Paging L P) A
  with_pmm m s = elim (m s.pmm) [
    | done a p ↦ done a (record s { pmm = p })
    | aborted ↦ aborted
    | stuck ↦ stuck
  ]

  -- `while (virt_to_map > virt_addr)`: take back what was mapped.
  unfoldable pub undo_loop : ℕ → ℕ → ℕ → Cmd (Paging L P) (Unit {0})
  unfolding previous_page unmap_page
  undo_loop zero virt_to_map virt_addr = λ _. stuck
  undo_loop (suc fuel) virt_to_map virt_addr =
      if ltb virt_addr virt_to_map
      then (do
        r ← unmap_page (previous_page virt_to_map)
        if is_success r then undo_loop fuel (previous_page virt_to_map) virt_addr else abort)
      else pure tt

  -- `n` is the number of pages left; `fuel` is for the loop that takes them back.
  unfoldable pub map_loop : (ℕ → ℕ) → ℕ → ℕ → ℕ → ℕ → ℕ → ℕ → Cmd (Paging L P) MapResults
  unfolding map_page undo_loop next_page
  map_loop tables fuel zero phys virt opts virt_addr = pure map_success
  map_loop tables fuel (suc n) phys virt opts virt_addr = do
    attempt ← map_page tables phys virt opts
    if is_success attempt
        then map_loop tables fuel n (next_page phys) (next_page virt) opts virt_addr
        else (do undo_loop fuel virt virt_addr; pure attempt)

  unfoldable pub internal_map_range : (ℕ → ℕ) → ℕ → ℕ → ℕ → ℕ → ℕ → Cmd (Paging L P) MapResults
  unfolding page_offset free_from_here map_loop bytes_to_pages
  internal_map_range tables fuel phys_addr len virt_addr opts =
      if not (page_offset phys_addr == page_offset virt_addr) then pure map_invalid_align else do
        s ← get
        let virt = virt_addr / 4_096 * 4_096
        let phys = phys_addr / 4_096 * 4_096
        let mapping = map_loop tables fuel (bytes_to_pages len) phys virt opts virt_addr
        if opts / 2 % 2 == 1 then mapping else elim (free_from_here s fuel virt len) [
          | none ↦ λ _. stuck
          | some (true, _) ↦ mapping
          | some (false, _) ↦ pure map_already_mapped
        ]

  -- The rest of `map_range` after the search, by its result.
  unfoldable pub map_found :
      LockOps L → (ℕ → ℕ) → ℕ → ℕ → ℕ → ℕ → Option ℕ → Cmd (Paging L P) (MapResults × ℕ)
  map_found ops tables fuel phys_addr len opts none = λ _. stuck
  map_found ops tables fuel phys_addr len opts (some base) =
      if base == 0 then pure (map_no_virtmem, 0) else do
        let virt_addr = wrap32 (base + page_offset phys_addr)
        r ← internal_map_range tables fuel phys_addr len virt_addr opts
        release_lock ops
        pure (r, virt_addr)

  -- `map_range(phys_addr, len, &virt_addr, opts)`: the result, and the new value of `*virt_addr`.
  unfoldable pub map_range : LockOps L → (ℕ → ℕ) → ℕ → ℕ → ℕ → ℕ → Cmd (Paging L P) (MapResults × ℕ)
  map_range ops tables fuel phys_addr len opts = do
    acquire_lock ops
    s ← get
    let len' = wrap32 (len + page_offset phys_addr)
    map_found ops tables fuel phys_addr len' opts (find_free_virtmem s fuel len')

  -- `map_range(len, &virt_addr, opts)`. The pages are mapped at the address of the caller's variable,
  -- `variable`, which is what the source hands on.
  unfoldable pub map_range_anywhere :
      LockOps L → PmmOps P → (ℕ → ℕ) → ℕ → ℕ → ℕ → ℕ → Cmd (Paging L P) (MapResults × ℕ)
  unfolding find_free_virtmem internal_map_range
  map_range_anywhere ops pmm tables fuel variable len opts = do
    acquire_lock ops
    s ← get
    elim (find_free_virtmem s fuel len) [
      | none ↦ λ _. stuck
      | some base ↦ if base == 0 then (do release_lock ops; pure (map_no_virtmem, 0)) else do
        (attempt, phys_addr) ← with_pmm (pmm.get_mem_area len)
        elim attempt [
          | pmm_nomem ↦ do release_lock ops; pure (map_no_physmem, base)
          | _ ↦ do
            r ← internal_map_range tables fuel phys_addr len variable opts
            release_lock ops
            pure (r, base)
        ]
    ]

  -- The first loop of `unmap_range`: whether all `n` pages from `to_unmap` on are mapped.
  unfoldable pub all_mapped : ℕ → ℕ → Paging L P → Bool
  unfolding is_mapped next_page
  all_mapped zero to_unmap s = true
  all_mapped (suc n) to_unmap s = is_mapped to_unmap s && all_mapped n (next_page to_unmap) s

  -- The second loop; `offset` is `searchable_offset + count`.
  unfoldable pub unmap_loop : ℕ → ℕ → ℕ → Cmd (Paging L P) (Unit {0})
  unfolding unmap_page next_page
  unmap_loop zero to_unmap offset = pure tt
  unmap_loop (suc n) to_unmap offset = do
    _ ← unmap_page to_unmap
    modify (λ s. record s { page_tables_searchable = update s.page_tables_searchable offset false })
    unmap_loop n (next_page to_unmap) (offset + 1)

  unfoldable pub virt_to_phys : ℕ → Paging L P → ℕ
  unfolding addr entry_of
  virt_to_phys virt_addr s = addr (s.page_tables (entry_of virt_addr))

  -- The rest of `unmap_range` once the physical memory is dealt with.
  abbrev pub unmap_all : LockOps L → ℕ → ℕ → Cmd (Paging L P) MapResults
  unmap_all ops virt_addr len = do
    unmap_loop (bytes_to_pages len) (virt_addr / 4_096 * 4_096)
        (searchable_page_table_offset virt_addr)
    release_lock ops
    pure map_success

  unfoldable pub unmap_range : LockOps L → PmmOps P → ℕ → ℕ → ℕ → Cmd (Paging L P) MapResults
  unmap_range ops pmm virt_addr len opts = do
    acquire_lock ops
    s ← get
    let start = virt_addr / 4_096 * 4_096
    let unmapping = unmap_all ops virt_addr len
    if not (all_mapped (bytes_to_pages len) start s)
        then (do release_lock ops; pure map_notmapped)
        else if opts % 2 == 1
        then (do
          attempt ← with_pmm (pmm.free_mem_area (virt_to_phys virt_addr s) len)
          elim attempt [
            | pmm_invalid ↦ do release_lock ops; pure map_invalid_option
            | pmm_null ↦ do release_lock ops; pure map_invalid_option
            | _ ↦ unmapping
          ])
        else unmapping
