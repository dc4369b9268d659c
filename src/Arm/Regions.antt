-- ===== src/Arm/Regions.antt =====
-- The regions that `bootstrap_phys_mem_manager` hands on.
use feline_os.Base.{
  ℕ, ◌+◌, ◌≡◌, refl, sym, ap, ◌∙◌, true, false, Option, none, some, List, [], ◌∷◌, ◌++◌, map,
  length, ◌==◌, if◌then◌else◌, arith, Bool-cases, inl, inr, wrap32,
}
use mathlib.Core.List.{append-nil, append_assoc}
use feline_os.Run.{Run, Cmd, done, stuck, ◌>>◌}
use feline_os.Run.Sequence.{run_all, run_all-step}
use feline_os.PhysMem.Start.{BootloaderMemRegion}
use feline_os.DeviceTree.{DevicetreeCellSize, is_named}
use feline_os.Arm.Bootstrap.{
  Setting, Obstacle, PlacementDetails, find_space_in_area, count_available, can_contain_memory_map,
  add_available_memory_region, region_at,
}

-- The entries with the name "reg" among those that a walk calls back with.
abbrev pub regs : Setting → List (ℕ × DevicetreeCellSize) → List ℕ
regs c [] = []
regs c ((entry, sizes) ∷ es) = if is_named c.tree c.reg entry then entry ∷ regs c es else regs c es

self_equal : (n : ℕ) → (n == n) ≡ true
self_equal n = ground arith

regs-named :
    (c : Setting) (entry : ℕ) (sizes : DevicetreeCellSize) (es : List (ℕ × DevicetreeCellSize))
    → is_named c.tree c.reg entry ≡ true
    → regs c ((entry, sizes) ∷ es) ≡ entry ∷ regs c es
regs-named c entry sizes es named = simp named refl

regs-other :
    (c : Setting) (entry : ℕ) (sizes : DevicetreeCellSize) (es : List (ℕ × DevicetreeCellSize))
    → is_named c.tree c.reg entry ≡ false
    → regs c ((entry, sizes) ∷ es) ≡ regs c es
regs-other c entry sizes es other = simp other refl

abbrev pub count_each : Setting → ℕ × DevicetreeCellSize → Cmd ℕ (Unit {0})
count_each c e = count_available c e.0 e.1

abbrev pub add_each : Setting → ℕ × DevicetreeCellSize → Cmd (List BootloaderMemRegion) (Unit {0})
add_each c e = add_available_memory_region c e.0 e.1

abbrev pub place_each :
    ℕ → Setting → List Obstacle → ℕ × DevicetreeCellSize → Cmd PlacementDetails (Unit {0})
place_each fuel c os e = can_contain_memory_map fuel c os e.0 e.1

pub count_available-regs :
    (c : Setting) (es : List (ℕ × DevicetreeCellSize)) (s : ℕ)
    → run_all (count_each c) es s ≡ done tt (s + length (regs c es))
unfolding count_available
count_available-regs c [] s = ground arith
count_available-regs c ((entry, sizes) ∷ es) s = elim (Bool-cases (is_named c.tree c.reg entry)) [
  | inl named ↦
      run_all-step (count_each c) (entry, sizes) es s (s + 1) (simp named refl)
      ∙ count_available-regs c es (s + 1)
      ∙ ap (λ n. done tt n) (omega (arith, ap length (regs-named c entry sizes es named)))
  | inr other ↦
      run_all-step (count_each c) (entry, sizes) es s s (simp other refl)
      ∙ count_available-regs c es s
      ∙ ap (λ (l : List ℕ). done tt (s + length l)) (sym (regs-other c entry sizes es other))
]

pub add_available-regs :
    (c : Setting) (es : List (ℕ × DevicetreeCellSize)) (s : List BootloaderMemRegion)
    → run_all (add_each c) es s ≡ done tt (s ++ map (region_at c) (regs c es))
unfolding add_available_memory_region
add_available-regs c [] s = ap (λ l. done tt l) (sym (append-nil s))
add_available-regs c ((entry, sizes) ∷ es) s = elim (Bool-cases (is_named c.tree c.reg entry)) [
  | inl named ↦
      run_all-step (add_each c) (entry, sizes) es s (s ++ (region_at c entry ∷ []))
        (simp named refl)
      ∙ add_available-regs c es (s ++ (region_at c entry ∷ []))
      ∙ ap (λ l. done tt l)
          (append_assoc s (region_at c entry ∷ []) (map (region_at c) (regs c es)))
      ∙ ap (λ (l : List ℕ). done tt (s ++ map (region_at c) l))
          (sym (regs-named c entry sizes es named))
  | inr other ↦
      run_all-step (add_each c) (entry, sizes) es s s (simp other refl)
      ∙ add_available-regs c es s
      ∙ ap (λ (l : List ℕ). done tt (s ++ map (region_at c) l))
          (sym (regs-other c entry sizes es other))
]

-- The place for the array of `len` bytes: that of the first region of which `find_space_in_area` gives
-- another address than `phys_kernel_start`. None where a search does not end.
abbrev pub first_space : ℕ → Setting → List Obstacle → ℕ → List ℕ → Option ℕ
first_space fuel c os len [] = some c.phys_kernel_start
first_space fuel c os len (entry ∷ rest) =
    let r = region_at c entry in
    elim (find_space_in_area fuel os r.addr (wrap32 (r.addr + r.len)) len 4 c.phys_kernel_start) [
      | none ↦ none
      | some place ↦
          if place == c.phys_kernel_start then first_space fuel c os len rest else some place
    ]

abbrev pub placed : ℕ → Option ℕ → Run PlacementDetails (Unit {0})
placed len none = stuck
placed len (some place) = done tt (record { len_needed = len; place = place })

-- Once there is a place, it is kept.
can_contain-keeps :
    (fuel : ℕ) (c : Setting) (os : List Obstacle) (es : List (ℕ × DevicetreeCellSize))
    (len place : ℕ)
    → (place == c.phys_kernel_start) ≡ false
    → run_all (place_each fuel c os) es (record { len_needed = len; place = place })
      ≡ done tt (record { len_needed = len; place = place })
unfolding can_contain_memory_map
can_contain-keeps fuel c os [] len place other = refl
can_contain-keeps fuel c os ((entry, sizes) ∷ es) len place other =
    elim (Bool-cases (is_named c.tree c.reg entry)) [
      | inl named ↦
          run_all-step (place_each fuel c os) (entry, sizes) es
            (record { len_needed = len; place = place })
            (record { len_needed = len; place = place }) (simp (named, other) refl)
          ∙ can_contain-keeps fuel c os es len place other
      | inr no_reg ↦
          run_all-step (place_each fuel c os) (entry, sizes) es
            (record { len_needed = len; place = place })
            (record { len_needed = len; place = place }) (simp no_reg refl)
          ∙ can_contain-keeps fuel c os es len place other
    ]

abbrev or_later : ℕ → Setting → List Obstacle → ℕ → List ℕ → ℕ → Option ℕ
or_later fuel c os len rest place =
    if place == c.phys_kernel_start then first_space fuel c os len rest else some place

-- What a search gives, and what the later regions give where it fails.
place-first_space :
    (fuel : ℕ) (c : Setting) (os : List Obstacle) (es : List (ℕ × DevicetreeCellSize)) (len : ℕ)
    (o : Option ℕ)
    → run_all (place_each fuel c os) es (record { len_needed = len; place = c.phys_kernel_start })
      ≡ placed len (first_space fuel c os len (regs c es))
    → ((λ (s : PlacementDetails). placed len o) >> run_all (place_each fuel c os) es)
        (record { len_needed = len; place = c.phys_kernel_start })
      ≡ placed len (elim o [ none ↦ none | some place ↦ or_later fuel c os len (regs c es) place ])
place-first_space fuel c os es len none later = refl
place-first_space fuel c os es len (some place) later =
    elim (Bool-cases (place == c.phys_kernel_start)) [
      | inl same ↦
          ap (λ q. run_all (place_each fuel c os) es (record { len_needed = len; place = q }))
            (ground (arith, same))
          ∙ later
          ∙ simp same refl
      | inr other ↦ can_contain-keeps fuel c os es len place other ∙ simp other refl
    ]

search_named :
    (fuel : ℕ) (c : Setting) (os : List Obstacle) (entry len : ℕ) (sizes : DevicetreeCellSize)
    → is_named c.tree c.reg entry ≡ true
    → can_contain_memory_map fuel c os entry sizes
        (record { len_needed = len; place = c.phys_kernel_start })
      ≡ placed len (
          find_space_in_area fuel os
            (region_at c entry).addr
            (wrap32 ((region_at c entry).addr + (region_at c entry).len))
            len
            4
            c.phys_kernel_start)
unfolding can_contain_memory_map
search_named fuel c os entry len sizes named = simp (named, self_equal c.phys_kernel_start) refl

pub can_contain-first_space :
    (fuel : ℕ) (c : Setting) (os : List Obstacle) (es : List (ℕ × DevicetreeCellSize)) (len : ℕ)
    → run_all (place_each fuel c os) es (record { len_needed = len; place = c.phys_kernel_start })
      ≡ placed len (first_space fuel c os len (regs c es))
unfolding can_contain_memory_map
can_contain-first_space fuel c os [] len = refl
can_contain-first_space fuel c os ((entry, sizes) ∷ es) len =
    elim (Bool-cases (is_named c.tree c.reg entry)) [
      | inl named ↦
          ap
            (λ u.
              ((λ (s : PlacementDetails). u) >> run_all (place_each fuel c os) es)
                (record { len_needed = len; place = c.phys_kernel_start }))
            (search_named fuel c os entry len sizes named)
          ∙ place-first_space fuel c os es len
              (find_space_in_area fuel os (region_at c entry).addr
                (wrap32 ((region_at c entry).addr + (region_at c entry).len)) len 4
                c.phys_kernel_start)
              (can_contain-first_space fuel c os es len)
          ∙ ap (λ l. placed len (first_space fuel c os len l))
              (sym (regs-named c entry sizes es named))
      | inr other ↦
          run_all-step (place_each fuel c os) (entry, sizes) es
            (record { len_needed = len; place = c.phys_kernel_start })
            (record { len_needed = len; place = c.phys_kernel_start }) (simp other refl)
          ∙ can_contain-first_space fuel c os es len
          ∙ ap (λ l. placed len (first_space fuel c os len l))
              (sym (regs-other c entry sizes es other))
    ]
