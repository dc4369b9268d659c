-- ===== src/Paging/Boot.antt =====
-- The state that `setup_paging` leaves.
use feline_os.Base.{
  ℕ, zero, suc, ◌+◌, ◌-◌, ◌*◌, ◌/◌, ◌%◌, ◌≤◌, ◌<◌, ◌≡◌, ◌≢◌, inl, inr, refl, ap, ◌∙◌, true, false,
  some, ◌&&◌, leb, ◌==◌, arith, Bool-cases, wrap32, u32_mod,
}
use feline_os.Run.{Cmd, done, pure, ◌>>◌, assert, bind-done}
use feline_os.Spinlock.{LockOps}
use feline_os.Paging.{
  Paging, va_offset, entry_of, searchable_page_table_offset, next_page, is_mapped, acquire_lock,
  release_lock, addr,
}
use feline_os.Paging.Range.{virt_to_phys}
use feline_os.Paging.Entry.{fresh_pte-fields, entry_of_page}
use feline_os.Paging.Mapping.{next_page-exact}
use feline_os.Paging.Service.{acquire_lock-done}
use feline_os.Paging.Setup.{
  map_kernel_page, kernel_loop, map_recursive, setup_paging, directory_loop,
}

module _ {L P : Type 0} where
  -- `t` is `s` but that the pages from that of `start` to that of `end` are mapped `va_offset` lower.
  pub record IsKernelMapped (start end : ℕ) (s t : Paging L P) : Type 0 where
    pub mapped :
        (a : ℕ) → start / 4_096 ≤ a / 4_096 → a / 4_096 ≤ end / 4_096 → is_mapped a t ≡ true
    pub address :
        (a : ℕ)
        → start / 4_096 ≤ a / 4_096
        → a / 4_096 ≤ end / 4_096
        → virt_to_phys a t ≡ a / 4_096 * 4_096 - va_offset
    pub others :
        (a : ℕ)
        → (leb (start / 4_096) (a / 4_096) && leb (a / 4_096) (end / 4_096)) ≡ false
        → (is_mapped a t ≡ is_mapped a s) × (virt_to_phys a t ≡ virt_to_phys a s)
    pub lock : t.modifying_page_tables ≡ s.modifying_page_tables

  map_kernel_page-others :
      (start a : ℕ) (s : Paging L P)
      → a / 4_096 ≢ start / 4_096
      → (is_mapped a (map_kernel_page start s) ≡ is_mapped a s)
        × (virt_to_phys a (map_kernel_page start s) ≡ virt_to_phys a s)
  unfolding map_kernel_page is_mapped virt_to_phys searchable_page_table_offset addr
  map_kernel_page-others start a s ne =
      (ground arith, ground (arith, entry_of_page a, entry_of_page start))

  map_kernel_page-same :
      (start a : ℕ) (s : Paging L P)
      → a / 4_096 ≡ start / 4_096
      → va_offset ≤ start
      → start < u32_mod
      → (is_mapped a (map_kernel_page start s) ≡ true)
        × (virt_to_phys a (map_kernel_page start s) ≡ a / 4_096 * 4_096 - va_offset)
  unfolding map_kernel_page is_mapped virt_to_phys searchable_page_table_offset addr
  map_kernel_page-same start a s e lo hi =
      let phys = wrap32 (start + u32_mod - va_offset) / 4_096 * 4_096 in
      (
        ground arith,
        ground (
          arith,
          entry_of_page a,
          entry_of_page start,
          fresh_pte-fields (s.page_tables (entry_of start)) phys,
        ),
      )

  kernel_loop-step :
      (fuel start end : ℕ) (s : Paging L P)
      → leb start end ≡ true
      → is_mapped start (map_kernel_page start s) ≡ true
      → start + 4_096 < u32_mod
      → kernel_loop (suc fuel) start end s
        ≡ kernel_loop fuel (start + 4_096) end (map_kernel_page start s)
  unfolding kernel_loop
  kernel_loop-step fuel start end s e mapped lt =
      let s' = map_kernel_page start s in
      let next : next_page start ≡ start + 4_096 = next_page-exact start lt in
      simp e (
        ap (λ b. (assert b >> kernel_loop fuel (next_page start) end) s') mapped
        ∙ ap (λ a. kernel_loop fuel a end s') next)

  IsKernelMapped-cons :
      (start end : ℕ) (s t : Paging L P)
      → start % 4_096 ≡ 0
      → va_offset ≤ start
      → start < u32_mod
      → start ≤ end
      → t.modifying_page_tables ≡ (map_kernel_page start s).modifying_page_tables
      → IsKernelMapped (start + 4_096) end (map_kernel_page start s) t
      → IsKernelMapped start end s t
  unfolding map_kernel_page
  IsKernelMapped-cons start end s t al lo hi le lock rest = record {
    mapped = λ a h k. elim (Bool-cases (a / 4_096 == start / 4_096)) [
      | inl e ↦
          let (m, v) = map_kernel_page-same start a s (ground arith) lo hi in
          let (m', v') = rest.others a (ground arith) in m' ∙ m
      | inr e ↦ rest.mapped a (ground arith) k
    ];
    address = λ a h k. elim (Bool-cases (a / 4_096 == start / 4_096)) [
      | inl e ↦
          let (m, v) = map_kernel_page-same start a s (ground arith) lo hi in
          let (m', v') = rest.others a (ground arith) in v' ∙ v
      | inr e ↦ rest.address a (ground arith) k
    ];
    others = λ a out.
        let (m, v) = map_kernel_page-others start a s (ground arith) in
        let (m', v') = rest.others a (ground arith) in (m' ∙ m, v' ∙ v);
    lock = lock;
  }

  kernel_loop-IsKernelMapped :
      (fuel start end : ℕ) (s : Paging L P)
      → start % 4_096 ≡ 0
      → va_offset ≤ start
      → end < 0xFFC0_0000
      → 0 < fuel
      → end / 4_096 + 1 < start / 4_096 + fuel
      → (t : Paging L P) × (kernel_loop fuel start end s ≡ done tt t) × IsKernelMapped start end s t
  unfolding kernel_loop map_kernel_page
  kernel_loop-IsKernelMapped zero start end s al lo hi some' enough = absurd (omega arith)
  kernel_loop-IsKernelMapped (suc fuel) start end s al lo hi some' enough =
      elim (Bool-cases (leb start end)) [
        | inr e ↦ (
          s,
          simp e refl,
          record {
            mapped = λ a h k. absurd (ground arith);
            address = λ a h k. absurd (ground arith);
            others = λ a out. (refl, refl);
            lock = refl;
          },
        )
        | inl e ↦
            let s' = map_kernel_page start s in
            let (m, _) = map_kernel_page-same start start s refl lo (ground arith) in
            let (t, run, rest) =
              kernel_loop-IsKernelMapped fuel (start + 4_096) end s' (omega arith) (omega arith) hi
                (ground arith) (ground arith) in
            (
              t,
              kernel_loop-step fuel start end s e m (ground arith) ∙ run,
              IsKernelMapped-cons start end s t al lo (ground arith) (ground arith) rest.lock rest,
            )
      ]

  -- The state after `setup_paging`: the kernel is mapped `va_offset` above where it lies in memory, the
  -- tables themselves (the last 4 MiB of addresses) are marked as mapped, and no other page is.
  pub record IsBooted (kernel_start kernel_end : ℕ) (s t : Paging L P) : Type 0 where
    pub kernel :
        (a : ℕ)
        → kernel_start / 4_096 ≤ a / 4_096
        → a / 4_096 ≤ kernel_end / 4_096
        → (is_mapped a t ≡ true) × (virt_to_phys a t ≡ a / 4_096 * 4_096 - va_offset)
    pub tables : (a : ℕ) → 0xFFC0_0000 ≤ a → a < u32_mod → is_mapped a t ≡ true
    pub others :
        (a : ℕ)
        → a < 0xFFC0_0000
        → (leb (kernel_start / 4_096) (a / 4_096) && leb (a / 4_096) (kernel_end / 4_096)) ≡ false
        → is_mapped a t ≡ is_mapped a s

  map_recursive-IsBooted :
      (directory kernel_start kernel_end : ℕ) (s t : Paging L P)
      → kernel_end < 0xFFC0_0000
      → IsKernelMapped kernel_start kernel_end s t
      → IsBooted kernel_start kernel_end s (map_recursive directory t)
  unfolding map_recursive is_mapped searchable_page_table_offset virt_to_phys
  map_recursive-IsBooted directory kernel_start kernel_end s t hi k = record {
    kernel = λ a h h'. (ground (arith, k.mapped a h h'), k.address a h h');
    tables = λ a lo lt. ground arith;
    others = λ a lt out. let (m, v) = k.others a out in ground arith;
  }

  setup_paging-steps :
      (ops : LockOps L) (tables : ℕ → ℕ) (directory fuel kernel_start kernel_end : ℕ)
      (s s2 t0 : Paging L P) (l : L)
      → (wrap32 (directory + u32_mod - va_offset) % 4_096 == 0) ≡ true
      → acquire_lock ops
          (record s { page_directory = directory_loop tables 1_024 0 s.page_directory })
        ≡ done tt s2
      → kernel_loop fuel (kernel_start / 4_096 * 4_096) kernel_end s2 ≡ done tt t0
      → is_mapped (kernel_start / 4_096 * 4_096) (map_recursive directory t0) ≡ true
      → is_mapped (kernel_end / 4_096 * 4_096) (map_recursive directory t0) ≡ true
      → t0.modifying_page_tables ≡ l
      → setup_paging ops tables directory fuel kernel_start kernel_end s
        ≡ done 0 (record (map_recursive directory t0) { modifying_page_tables = ops.release l })
  unfolding setup_paging map_recursive
  setup_paging-steps ops tables directory fuel kernel_start kernel_end s s2 t0 l cr3 locked run m1
        m2 same =
      let t = map_recursive directory t0 in
      let s1 = record s { page_directory = directory_loop tables 1_024 0 s.page_directory } in
      let finish : Cmd (Paging L P) ℕ = release_lock ops >> pure 0 in
      let last = assert (is_mapped (kernel_end / 4_096 * 4_096) t) >> finish in
      simp cr3 (
        bind-done (acquire_lock ops) _ s1 s2 tt locked
        ∙ bind-done (kernel_loop fuel (kernel_start / 4_096 * 4_096) kernel_end) _ s2 t0 tt run
        ∙ ap (λ b. (assert b >> last) t) m1
        ∙ ap (λ b. (assert b >> finish) t) m2
        ∙ ap (λ x. done 0 (record t { modifying_page_tables = ops.release x })) same)

  -- When it gets the lock, the directory is aligned, and the kernel lies from `va_offset` on and below the
  -- tables, `setup_paging` returns, none of its assertions fails, and the lock is released.
  pub setup_paging-IsBooted :
      (ops : LockOps L) (tables : ℕ → ℕ) (directory fuel kernel_start kernel_end : ℕ)
      (s : Paging L P) (l : L)
      → wrap32 (directory + u32_mod - va_offset) % 4_096 ≡ 0
      → ops.acquire s.modifying_page_tables ≡ some l
      → va_offset ≤ kernel_start
      → kernel_start ≤ kernel_end
      → kernel_end < 0xFFC0_0000
      → 1_048_576 ≤ fuel
      → (t : Paging L P) × (setup_paging ops tables directory fuel kernel_start kernel_end s
          ≡ done 0 (record t { modifying_page_tables = ops.release l }))
        × IsBooted (kernel_start / 4_096 * 4_096) kernel_end s t
  unfolding setup_paging map_recursive is_mapped
  setup_paging-IsBooted ops tables directory fuel kernel_start kernel_end s l aligned got lo le hi
        enough =
      let start = kernel_start / 4_096 * 4_096 in
      let last = kernel_end / 4_096 * 4_096 in
      let s1 = record s { page_directory = directory_loop tables 1_024 0 s.page_directory } in
      let s2 = record s1 { modifying_page_tables = l } in
      let cr3 : (wrap32 (directory + u32_mod - va_offset) % 4_096 == 0) ≡ true = ground arith in
      let (t0, run, k) =
        kernel_loop-IsKernelMapped fuel start kernel_end s2 (omega arith) (omega arith) hi
          (omega arith) (omega arith) in
      let t = map_recursive directory t0 in
      let booted = map_recursive-IsBooted directory start kernel_end s2 t0 hi k in
      let (m1, _) = booted.kernel start (omega arith) (omega arith) in
      let (m2, _) = booted.kernel last (omega arith) (omega arith) in
      (
        t,
        setup_paging-steps ops tables directory fuel kernel_start kernel_end s s2 t0 l cr3
            (acquire_lock-done ops s1 l got) run m1 m2 k.lock,
        record { kernel = booted.kernel; tables = booted.tables; others = booted.others },
      )
