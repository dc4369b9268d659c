-- ===== src/Memory.antt =====
-- system/kernel/kernel/mem.cpp: memory for the rest of the kernel, from the physical and the virtual
-- memory manager. `MemOps` is what it calls of them, and `paging_ops` fills it with the functions of
-- system/kernel/arch/i386/virt_mem/paging.cpp. The result of a function that takes `new_virt_addr` comes
-- with the value that is written there.
pub mod Get
use feline_os.Base.{ℕ, ◌%◌, Bool, true, false, ◌==◌, if◌then◌else◌}
use feline_os.Run.{Run, Cmd, done, aborted, stuck, pure, ◌>>=◌, ◌>>◌, abort}
use feline_os.PhysMem.{PmmResults, pmm_success, pmm_invalid, pmm_nomem, pmm_null}
use feline_os.Spinlock.{LockOps}
use feline_os.Paging.{
  Paging, MapResults, map_success, map_already_mapped, map_notmapped, map_no_virtmem,
  map_invalid_option, map_no_physmem, map_no_perm, map_err_kernel_space, map_invalid_align,
}
use feline_os.Paging.Range.{PmmOps, with_pmm, map_range, unmap_range}

pub data MemResults : Type 0 where
  mem_success mem_perm_denied mem_invalid mem_no_virtmem mem_no_physmem : MemResults

pub record MemOps (S : Type 0) : Type 0 where
  pub get_mem_area : ℕ → Cmd S (PmmResults × ℕ)
  pub get_mem_area_at : ℕ → ℕ → Cmd S PmmResults
  pub map_range : ℕ → ℕ → ℕ → Cmd S (MapResults × ℕ)
  pub unmap_range : ℕ → ℕ → ℕ → Cmd S MapResults
  -- `std::fill_n`
  pub fill_n : ℕ → ℕ → ℕ → Cmd S (Unit {0})

unfoldable pub offset : ℕ → ℕ
offset addr = addr % 4_096

module _ {S : Type 0} (ops : MemOps S) where
  -- The second `switch` of `get_mem_from`.
  pub switch_mapped_from : MapResults → ℕ → Cmd S (MemResults × ℕ)
  switch_mapped_from map_success new = pure (mem_success, new)
  switch_mapped_from map_no_virtmem new = pure (mem_no_virtmem, new)
  switch_mapped_from map_no_perm new = abort
  switch_mapped_from map_already_mapped new = abort
  switch_mapped_from map_notmapped new = abort
  switch_mapped_from map_err_kernel_space new = abort
  switch_mapped_from map_no_physmem new = abort
  switch_mapped_from map_invalid_align new = abort
  switch_mapped_from map_invalid_option new = abort

  unfoldable pub get_mem_from : ℕ → ℕ → ℕ → Cmd S (MemResults × ℕ)
  unfolding switch_mapped_from
  get_mem_from phys_addr new_virt_addr len = do
    phys_mem_results ← ops.get_mem_area_at phys_addr len
    elim phys_mem_results [
      | pmm_success ↦ do
        (virt_mem_results, new) ← ops.map_range phys_addr len 0
        switch_mapped_from virt_mem_results new
      | pmm_nomem ↦ pure (mem_no_physmem, new_virt_addr)
      | pmm_null ↦ pure (mem_invalid, new_virt_addr)
      | pmm_invalid ↦ pure (mem_invalid, new_virt_addr)
    ]

  -- The second `switch` of `get_mem`, and the memory filled.
  unfoldable pub switch_mapped : MapResults → ℕ → Cmd S (MemResults × ℕ)
  switch_mapped map_success new = do ops.fill_n new 4_096 0xCC; pure (mem_success, new)
  switch_mapped map_no_perm new = pure (mem_perm_denied, new)
  switch_mapped map_err_kernel_space new = pure (mem_perm_denied, new)
  switch_mapped map_no_virtmem new = pure (mem_no_virtmem, new)
  switch_mapped map_already_mapped new = abort
  switch_mapped map_notmapped new = abort
  switch_mapped map_no_physmem new = abort
  switch_mapped map_invalid_align new = abort
  switch_mapped map_invalid_option new = abort

  unfoldable pub get_mem : ℕ → ℕ → Cmd S (MemResults × ℕ)
  unfolding switch_mapped
  get_mem new_virt_addr len = do
    (phys_mem_results, phys_addr) ← ops.get_mem_area len
    elim phys_mem_results [
      | pmm_success ↦ do
        (virt_mem_results, new) ← ops.map_range phys_addr len 0
        switch_mapped virt_mem_results new
      | pmm_nomem ↦ pure (mem_no_physmem, new_virt_addr)
      | pmm_null ↦ abort
      | pmm_invalid ↦ abort
    ]

  pub switch_unmapped : MapResults → Cmd S MemResults
  switch_unmapped map_success = pure mem_success
  switch_unmapped map_no_perm = pure mem_perm_denied
  switch_unmapped map_err_kernel_space = pure mem_perm_denied
  switch_unmapped map_invalid_align = abort
  switch_unmapped map_already_mapped = abort
  switch_unmapped map_no_physmem = abort
  switch_unmapped map_no_virtmem = abort
  switch_unmapped map_invalid_option = abort
  switch_unmapped map_notmapped = pure mem_invalid

  unfoldable pub free_mem : ℕ → ℕ → Cmd S MemResults
  unfolding switch_unmapped
  free_mem addr len =
      if addr == 0
      then pure mem_invalid
      else do virt_mem_results ← ops.unmap_range addr len 1; switch_unmapped virt_mem_results

module _ {L P : Type 0} where
  -- The managers that the kernel links: the physical one is a parameter, the virtual one is i386's.
  abbrev pub paging_ops :
      LockOps L
      → (ℕ → ℕ)
      → ℕ
      → PmmOps P
      → (ℕ → ℕ → Cmd P PmmResults)
      → (ℕ → ℕ → ℕ → Cmd (Paging L P) (Unit {0}))
      → MemOps (Paging L P)
  paging_ops lock tables fuel pmm get_mem_area_at fill_n = record {
    get_mem_area = λ len. with_pmm (pmm.get_mem_area len);
    get_mem_area_at = λ addr len. with_pmm (get_mem_area_at addr len);
    map_range = map_range lock tables fuel;
    unmap_range = unmap_range lock pmm;
    fill_n = fill_n;
  }
