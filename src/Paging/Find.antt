-- ===== src/Paging/Find.antt =====
-- system/kernel/arch/i386/virt_mem/paging.cpp: the search for free virtual memory.
use feline_os.Base.{
  ℕ, zero, suc, ◌+◌, ◌-◌, ◌*◌, ◌/◌, Bool, true, false, Option, none, some, not, ◌&&◌, ltb, leb,
  ◌==◌, if◌then◌else◌, wrap32,
}
use feline_os.Paging.{Paging, max_virt_mem, page_offset, next_page, is_mapped}

module _ {L P : Type 0} (s : Paging L P) where
  -- The loop of `free_from_here` from `base` to `last`, ends included: none when the fuel ends,
  -- `some none` when every page is free, or else the first that is mapped.
  unfoldable pub mapped_from : ℕ → ℕ → ℕ → Option (Option ℕ)
  unfolding next_page
  mapped_from zero base last_page = none
  mapped_from (suc fuel) base last_page =
      let rest = mapped_from fuel (next_page base) last_page in
      if leb base last_page then if is_mapped base s then some (some base) else rest else some none

  -- Whether the pages are free, and the new value of `virt_addr_base`.
  unfoldable pub free_from_here : ℕ → ℕ → ℕ → Option (Bool × ℕ)
  unfolding mapped_from next_page page_offset
  free_from_here fuel virt_addr_base needed =
      if ltb (max_virt_mem - needed) virt_addr_base
      then some (false, 0)
      else let last_page = wrap32 (virt_addr_base + needed) / 4_096 * 4_096 in
        let last_page_needed = if page_offset needed == 0 then last_page else next_page last_page in
        elim (mapped_from fuel virt_addr_base last_page_needed) [
          | none ↦ none
          | some (none) ↦ some (true, virt_addr_base)
          | some (some base) ↦ some (false, base / 4_096 * 4_096)
        ]

  -- The loop of `find_free_virtmem`. The result 0 is the null pointer.
  unfoldable pub find_loop : ℕ → ℕ → ℕ → ℕ → Option ℕ
  unfolding free_from_here next_page
  find_loop pages zero base len = none
  find_loop pages (suc fuel) base len =
      if ltb base (max_virt_mem - 4_096) && not (base == 0)
      then elim (free_from_here pages base len) [
        | none ↦ none
        | some (true, base') ↦ some base'
        | some (false, base') ↦ elim (base' == 0) [
          | true ↦ some 0
          | false ↦ find_loop pages fuel (next_page base') len
        ]
      ]
      else some 0

  unfoldable pub find_free_virtmem : ℕ → ℕ → Option ℕ
  unfolding find_loop
  find_free_virtmem fuel len = find_loop fuel fuel 4_096 len
