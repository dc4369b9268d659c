-- ===== src/Arm/Mapping.antt =====
-- Mapping ranges of pages in the tables of ARM.
use feline_os.Base.{
  ℕ, zero, suc, ◌+◌, ◌*◌, ◌/◌, ◌%◌, ◌<◌, ◌≡◌, refl, ap₂, ◌∙◌, subst, true, false, ◌==◌, not, ◌&&◌,
  arith, u32_mod,
}
use feline_os.Run.{done, bind-done}
use feline_os.Paging.{Paging, map_success, is_mapped}
use feline_os.Paging.Mapping.{in_range, next_page-exact}
use feline_os.Arm.{Behind, map_page, virt_to_phys}
use feline_os.Arm.Range.{map_loop}
use feline_os.Arm.Tables.{HasTables, IsMappedTo, map_page-IsMappedTo}

module _ {L P : Type 0} where
  -- `t` is `s` with the `n` pages from `virt` on mapped to those from `phys` on, in order; of the others
  -- those below section 4081 count, whose tables lie in the array that `setup_paging` takes them from.
  pub record AreMapped (virt phys n : ℕ) (s t : Paging L P) : Type 0 where
    pub inside :
        (i : ℕ)
        → i < n
        → (is_mapped (virt + i * 4_096) t ≡ true)
          × (virt_to_phys (virt + i * 4_096) t ≡ phys + i * 4_096)
    pub outside :
        (a : ℕ)
        → a < 4_279_238_656
        → in_range virt n a ≡ false
        → (is_mapped a t ≡ is_mapped a s) × (virt_to_phys a t ≡ virt_to_phys a s)

  AreMapped-inside :
      (virt phys n : ℕ) (s t u : Paging L P)
      → virt < 4_279_238_656
      → IsMappedTo virt phys s t
      → AreMapped (virt + 4_096) (phys + 4_096) n t u
      → (i : ℕ) → i < suc n
      → (is_mapped (virt + i * 4_096) u ≡ true)
        × (virt_to_phys (virt + i * 4_096) u ≡ phys + i * 4_096)
  AreMapped-inside virt phys n s t u small first rest zero lt =
      let (m, v) = rest.outside virt small (ground arith) in
      (
        subst (λ a. is_mapped a u ≡ true) (omega arith) (m ∙ first.mapped),
        subst (λ a. virt_to_phys a u ≡ phys + 0) (omega arith) (v ∙ first.address ∙ omega arith),
      )
  AreMapped-inside virt phys n s t u small first rest (suc i) lt =
      let (m, v) = rest.inside i (omega arith) in
      let same : virt + 4_096 + i * 4_096 ≡ virt + suc i * 4_096 = omega arith in
      (
        subst (λ a. is_mapped a u ≡ true) same m,
        subst (λ a. virt_to_phys a u ≡ phys + suc i * 4_096) same (v ∙ omega arith),
      )

  -- In tables such as `setup_paging` makes, pages from an aligned address on that are not mapped, below
  -- section 4081, are mapped one after the other to those from an aligned physical address on that ends
  -- below 2 ^ 32. The loop succeeds, the other pages below section 4081 are as they were, and the tables
  -- are kept, whatever a write behind the array of the tables does.
  pub map_loop-AreMapped :
      (behind : Behind L P) (tables fuel n phys virt opts virt_addr : ℕ) (s : Paging L P)
      → HasTables tables s
      → virt % 4_096 ≡ 0
      → phys % 4_096 ≡ 0
      → virt + n * 4_096 < 4_279_238_656
      → phys + n * 4_096 < u32_mod
      → ((a : ℕ) → in_range virt n a ≡ true → is_mapped a s ≡ false)
      → (t : Paging L P) × (map_loop behind fuel n phys virt opts virt_addr s ≡ done map_success t)
        × AreMapped virt phys n s t
        × HasTables tables t
  unfolding map_loop
  map_loop-AreMapped behind tables fuel zero phys virt opts virt_addr s ts av ap' hv hp free = (
    s,
    refl,
    record { inside = λ i lt. absurd (omega arith); outside = λ a la out. (refl, refl) },
    ts,
  )
  map_loop-AreMapped behind tables fuel (suc n) phys virt opts virt_addr s ts av ap' hv hp free =
      let here : is_mapped virt s ≡ false = free virt (ground arith) in
      let allowed : (not (opts / 2 % 2 == 1) && is_mapped virt s) ≡ false = ground arith in
      let (t, e, first, ts') =
        map_page-IsMappedTo behind tables phys virt opts s ts (omega arith) ap' allowed in
      let free' : (a : ℕ) → in_range (virt + 4_096) n a ≡ true → is_mapped a t ≡ false = λ a inside.
        let (m, _) = first.others a (ground arith) (ground arith) in m ∙ free a (ground arith) in
      let (u, e', rest, ts'') =
        map_loop-AreMapped behind tables fuel n (phys + 4_096) (virt + 4_096) opts virt_addr t ts'
          (omega arith) (omega arith) (omega arith) (omega arith) free' in
      (
        u,
        bind-done (map_page behind phys virt opts) _ s t map_success e
            ∙ ap₂ (λ p v. map_loop behind fuel n p v opts virt_addr t)
                (next_page-exact phys (omega arith)) (next_page-exact virt (omega arith))
            ∙ e',
        record {
          inside = AreMapped-inside virt phys n s t u (omega arith) first rest;
          outside = λ a la out.
              let (m, v) = rest.outside a la (ground arith) in
              let (m', v') = first.others a (omega arith) (ground arith) in (m ∙ m', v ∙ v');
        },
        ts'',
      )
