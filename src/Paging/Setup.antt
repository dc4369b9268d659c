-- ===== src/Paging/Setup.antt =====
-- system/kernel/arch/i386/virt_mem/paging.cpp: `setup_paging`. `enable_paging` and the new value of the
-- pointer `page_directory`, by which the same directory is reached, have no state here.
use feline_os.Base.{
  ℕ, zero, suc, ◌+◌, ◌-◌, ◌*◌, ◌/◌, ◌%◌, true, ◌&&◌, ltb, leb, ◌==◌, if◌then◌else◌, wrap32, u32_mod,
}
use feline_os.Run.{Cmd, stuck, pure, ◌>>=◌, ◌>>◌, get, modify, assert}
use feline_os.Spinlock.{LockOps}
use feline_os.Paging.{
  Paging, global_bit, pat_bit, mb_page_bit, written_bit, read_bit, cache_disable_bit,
  write_through_bit, user_bit, writeable_bit, present_bit, va_offset, set_bit, unset_bit, set_addr,
  fresh_pte, entry_of, searchable_page_table_offset, next_page, is_mapped, acquire_lock,
  release_lock, update,
}

-- The entry of a table in the directory, by the loop over the directory.
unfoldable pub boot_pde : ℕ → ℕ → ℕ
unfolding set_addr set_bit unset_bit
boot_pde old table =
    let e = set_addr old (wrap32 (table + u32_mod - va_offset)) in
    let e = unset_bit e mb_page_bit in
    let e = unset_bit e written_bit in
    let e = unset_bit e read_bit in
    let e = unset_bit e cache_disable_bit in
    let e = unset_bit e write_through_bit in
    let e = unset_bit e user_bit in let e = set_bit e writeable_bit in set_bit e present_bit

-- The entry of the directory in itself.
unfoldable pub recursive_pde : ℕ → ℕ → ℕ
unfolding set_addr set_bit unset_bit
recursive_pde old directory =
    let e = set_addr old (wrap32 (directory + u32_mod - va_offset)) in
    let e = unset_bit e global_bit in
    let e = unset_bit e pat_bit in
    let e = unset_bit e global_bit in
    let e = unset_bit e written_bit in
    let e = unset_bit e read_bit in
    let e = unset_bit e cache_disable_bit in
    let e = unset_bit e write_through_bit in
    let e = unset_bit e user_bit in let e = set_bit e writeable_bit in set_bit e present_bit

-- The loop over the directory from `pdindex` on, with `n` entries to go.
unfoldable pub directory_loop : (ℕ → ℕ) → ℕ → ℕ → (ℕ → ℕ) → ℕ → ℕ
unfolding boot_pde
directory_loop tables zero pdindex d = d
directory_loop tables (suc n) pdindex d =
    directory_loop tables n (pdindex + 1) (update d pdindex (boot_pde (d pdindex) (tables pdindex)))

module _ {L P : Type 0} where
  unfoldable pub map_kernel_page : ℕ → Paging L P → Paging L P
  unfolding fresh_pte entry_of searchable_page_table_offset
  map_kernel_page where' s =
      let phys_where = wrap32 (where' + u32_mod - va_offset) / 4_096 * 4_096 in
      let entry = entry_of where' in
      record s {
        page_tables = update s.page_tables entry (fresh_pte (s.page_tables entry) phys_where);
        page_tables_searchable =
            update s.page_tables_searchable (searchable_page_table_offset where') true;
      }

  -- The loop over the pages of the kernel.
  unfoldable pub kernel_loop : ℕ → ℕ → ℕ → Cmd (Paging L P) (Unit {0})
  kernel_loop zero where' kernel_end = λ _. stuck
  kernel_loop (suc fuel) where' kernel_end =
      if leb where' kernel_end
      then (do
        modify (map_kernel_page where')
        s ← get
        assert (is_mapped where' s)
        kernel_loop fuel (next_page where') kernel_end)
      else pure tt

  -- What follows the loop over the kernel: the recursive mapping, of which the last 1024 pages are marked.
  unfoldable pub map_recursive : ℕ → Paging L P → Paging L P
  unfolding recursive_pde
  map_recursive bootstrap_page_directory s = record s {
    page_directory =
        update s.page_directory 1_023
          (recursive_pde (s.page_directory 1_023) bootstrap_page_directory);
    page_tables_searchable =
        λ q. if leb 0xF_FC00 q && ltb q 0x10_0000 then true else s.page_tables_searchable q;
  }

  unfoldable pub setup_paging : LockOps L → (ℕ → ℕ) → ℕ → ℕ → ℕ → ℕ → Cmd (Paging L P) ℕ
  setup_paging ops tables bootstrap_page_directory fuel kernel_start kernel_end = do
    let cr3 = wrap32 (bootstrap_page_directory + u32_mod - va_offset)
    assert (cr3 % 4_096 == 0)
    modify (λ s. record s { page_directory = directory_loop tables 1_024 0 s.page_directory })
    acquire_lock ops
    kernel_loop fuel (kernel_start / 4_096 * 4_096) kernel_end
    modify (map_recursive bootstrap_page_directory)
    s ← get
    assert (is_mapped (kernel_start / 4_096 * 4_096) s)
    assert (is_mapped (kernel_end / 4_096 * 4_096) s)
    release_lock ops
    pure 0
