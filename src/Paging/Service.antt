-- ===== src/Paging/Service.antt =====
-- What `internal_map_range`, `map_range` and `unmap_range` promise their callers.
use feline_os.Base.{
  ℕ, zero, suc, ◌+◌, ◌*◌, ◌/◌, ◌%◌, ◌<◌, ◌≡◌, ◌⊎◌, inl, inr, refl, ap, ◌∙◌, subst, true, false,
  none, some, arith, ◌==◌, ◌&&◌, Bool-cases, u32_mod,
}
use feline_os.Run.{done, stuck, bind-done, ◌>>◌, pure}
use feline_os.Page.{bytes_to_pages}
use feline_os.Spinlock.{LockOps}
use feline_os.Paging.{
  Paging, map_success, map_notmapped, is_mapped, next_page, searchable_page_table_offset,
  acquire_lock, release_lock,
}
use feline_os.Paging.Range.{PmmOps, all_mapped, unmap_loop, unmap_range}
use feline_os.Paging.Mapping.{AreUnmapped, unmap_loop-AreUnmapped}

searchable_page : (a : ℕ) → a / 4_096 * 4_096 / 4_096 ≡ searchable_page_table_offset a
unfolding searchable_page_table_offset
searchable_page a = omega arith

module _ {L P : Type 0} where
  pub acquire_lock-done :
      (ops : LockOps L) (s : Paging L P) (l : L)
      → ops.acquire s.modifying_page_tables ≡ some l
      → acquire_lock ops s ≡ done tt (record s { modifying_page_tables = l })
  acquire_lock-done ops s l got =
      ap (λ o. elim o [ none ↦ stuck | some x ↦ done tt (record s { modifying_page_tables = x }) ])
        got

  all_mapped_lock :
      (n virt : ℕ) (s : Paging L P) (l : L)
      → all_mapped n virt s ≡ all_mapped n virt (record s { modifying_page_tables = l })
  unfolding all_mapped is_mapped
  all_mapped_lock zero virt s l = refl
  all_mapped_lock (suc n) virt s l =
      ap (λ b. is_mapped virt s && b) (all_mapped_lock n (next_page virt) s l)

  -- `unmap_range` without `PHYS_ADDR_AUTO`, when it gets the lock and the last of the pages ends below 2 ^ 32,
  -- does all or nothing, and releases the lock. If one of the pages is not mapped, it says so and changes nothing else. Otherwise it succeeds:
  -- none of those pages is mapped then, and every other page is mapped as before.
  pub unmap_range-AreUnmapped :
      (ops : LockOps L) (pmm : PmmOps P) (virt_addr len opts : ℕ) (s : Paging L P) (l : L)
      → ops.acquire s.modifying_page_tables ≡ some l
      → (opts % 2 == 1) ≡ false
      → virt_addr / 4_096 * 4_096 + bytes_to_pages len * 4_096 < u32_mod
      → ((all_mapped (bytes_to_pages len) (virt_addr / 4_096 * 4_096) s ≡ false)
          × (unmap_range ops pmm virt_addr len opts s
              ≡ done map_notmapped (record s { modifying_page_tables = ops.release l })))
        ⊎ ((t : Paging L P) × (all_mapped (bytes_to_pages len) (virt_addr / 4_096 * 4_096) s ≡ true)
            × (unmap_range ops pmm virt_addr len opts s
                ≡ done map_success
                    (record t { modifying_page_tables = ops.release t.modifying_page_tables }))
            × AreUnmapped
                (virt_addr / 4_096 * 4_096)
                (bytes_to_pages len)
                (record s { modifying_page_tables = l })
                t)
  unfolding unmap_range
  unmap_range-AreUnmapped ops pmm virt_addr len opts s l got manual bound =
      let s' = record s { modifying_page_tables = l } in
      let n = bytes_to_pages len in
      let start = virt_addr / 4_096 * 4_096 in
      let locked = bind-done (acquire_lock ops) _ s s' tt (acquire_lock-done ops s l got) in
      elim (Bool-cases (all_mapped n start s')) [
        | inr e ↦ inl (all_mapped_lock n start s l ∙ e, locked ∙ simp e refl)
        | inl e ↦
            let (t, run, u) = unmap_loop-AreUnmapped n start s' (omega arith) bound e in
            let offset = searchable_page virt_addr in
            let run' = subst (λ o. unmap_loop n start o s' ≡ done tt t) offset run in
            let rest =
              bind-done (unmap_loop n start (searchable_page_table_offset virt_addr))
                (λ _. release_lock ops >> pure map_success) s' t tt run' in
            inr (t, all_mapped_lock n start s l ∙ e, locked ∙ simp (e, manual) rest, u)
      ]
