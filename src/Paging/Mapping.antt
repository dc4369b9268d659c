-- ===== src/Paging/Mapping.antt =====
-- Mapping and unmapping ranges of pages, and the lock.
use feline_os.Base.{
  ℕ, zero, suc, ◌+◌, ◌*◌, ◌/◌, ◌%◌, ◌<◌, ◌≡◌, inl, inr, refl, ap, ◌∙◌, subst, ap₂, Bool, true,
  false, arith, ltb, leb, ◌==◌, not, ◌&&◌, Bool-cases, u32_mod,
}
use feline_os.Run.{done, bind-done}
use feline_os.Page.{pre_increment}
use feline_os.Paging.{
  Paging, map_success, next_page, is_mapped, map_page, unmap_page, searchable_page_table_offset,
  update,
}
use feline_os.Paging.Range.{map_loop, all_mapped, unmap_loop, virt_to_phys}
use feline_os.Paging.Search.{is_mapped_page}
use feline_os.Paging.Entry.{IsMappedTo, IsUnmapped, map_page-IsMappedTo, unmap_page-IsUnmapped}

pub next_page-exact : (a : ℕ) → a + 4_096 < u32_mod → next_page a ≡ a + 4_096
unfolding next_page pre_increment
next_page-exact a h = ground arith

-- Whether the address is in one of the `n` pages from that of `virt` on.
abbrev pub in_range : ℕ → ℕ → ℕ → Bool
in_range virt n a = leb (virt / 4_096) (a / 4_096) && ltb (a / 4_096) (virt / 4_096 + n)

module _ {L P : Type 0} where
  -- `t` is `s` with the `n` pages from `virt` on mapped to those from `phys` on, in order.
  pub record AreMapped (virt phys n : ℕ) (s t : Paging L P) : Type 0 where
    pub inside :
        (i : ℕ)
        → i < n
        → (is_mapped (virt + i * 4_096) t ≡ true)
          × (virt_to_phys (virt + i * 4_096) t ≡ phys + i * 4_096)
    pub outside :
        (a : ℕ)
        → in_range virt n a ≡ false
        → (is_mapped a t ≡ is_mapped a s) × (virt_to_phys a t ≡ virt_to_phys a s)

  AreMapped-inside :
      (virt phys n : ℕ) (s t u : Paging L P)
      → phys % 4_096 ≡ 0
      → IsMappedTo virt phys s t
      → AreMapped (virt + 4_096) (phys + 4_096) n t u
      → (i : ℕ) → i < suc n
      → (is_mapped (virt + i * 4_096) u ≡ true)
        × (virt_to_phys (virt + i * 4_096) u ≡ phys + i * 4_096)
  AreMapped-inside virt phys n s t u ap' first rest zero lt =
      let (m, v) = rest.outside virt (ground arith) in
      (
        subst (λ a. is_mapped a u ≡ true) (omega arith) (m ∙ first.mapped),
        subst (λ a. virt_to_phys a u ≡ phys + 0) (omega arith) (v ∙ first.address ∙ omega arith),
      )
  AreMapped-inside virt phys n s t u ap' first rest (suc i) lt =
      let (m, v) = rest.inside i (omega arith) in
      let same : virt + 4_096 + i * 4_096 ≡ virt + suc i * 4_096 = omega arith in
      (
        subst (λ a. is_mapped a u ≡ true) same m,
        subst (λ a. virt_to_phys a u ≡ phys + suc i * 4_096) same (v ∙ omega arith),
      )

  AreMapped-cons :
      (virt phys n : ℕ) (s t u : Paging L P)
      → phys % 4_096 ≡ 0
      → IsMappedTo virt phys s t
      → AreMapped (virt + 4_096) (phys + 4_096) n t u
      → AreMapped virt phys (suc n) s u
  AreMapped-cons virt phys n s t u ap' first rest = record {
    inside = AreMapped-inside virt phys n s t u ap' first rest;
    outside = λ a out.
        let (m, v) = rest.outside a (ground arith) in
        let (m', v') = first.others a (ground arith) in (m ∙ m', v ∙ v');
  }

  -- Pages that may be mapped are mapped one after the other.
  pub map_loop-AreMapped :
      (tables : ℕ → ℕ) (fuel n phys virt opts virt_addr : ℕ) (s : Paging L P)
      → virt % 4_096 ≡ 0
      → phys % 4_096 ≡ 0
      → virt + n * 4_096 < u32_mod
      → phys + n * 4_096 < u32_mod
      → ((a : ℕ) → in_range virt n a ≡ true → is_mapped a s ≡ false)
      → (t : Paging L P) × (map_loop tables fuel n phys virt opts virt_addr s ≡ done map_success t)
        × AreMapped virt phys n s t
  unfolding map_loop
  map_loop-AreMapped tables fuel zero phys virt opts virt_addr s av ap' hv hp free =
      (s, refl, record { inside = λ i lt. absurd (omega arith); outside = λ a out. (refl, refl) })
  map_loop-AreMapped tables fuel (suc n) phys virt opts virt_addr s av ap' hv hp free =
      let here : is_mapped virt s ≡ false = free virt (ground arith) in
      let allowed : (not (opts / 2 % 2 == 1) && is_mapped virt s) ≡ false = ground arith in
      let (t, e, first) = map_page-IsMappedTo tables phys virt opts s allowed in
      let free' : (a : ℕ) → in_range (virt + 4_096) n a ≡ true → is_mapped a t ≡ false =
        λ a inside. let (m, _) = first.others a (ground arith) in m ∙ free a (ground arith) in
      let (u, e', rest) =
        map_loop-AreMapped tables fuel n (phys + 4_096) (virt + 4_096) opts virt_addr t
          (omega arith) (omega arith) (omega arith) (omega arith) free' in
      (
        u,
        bind-done (map_page tables phys virt opts) _ s t map_success e
            ∙ ap₂ (λ p v. map_loop tables fuel n p v opts virt_addr t)
                (next_page-exact phys (omega arith)) (next_page-exact virt (omega arith))
            ∙ e',
        AreMapped-cons virt phys n s t u ap' first rest,
      )

  -- `t` is `s` with the `n` pages from `virt` on not mapped.
  pub record AreUnmapped (virt n : ℕ) (s t : Paging L P) : Type 0 where
    pub inside : (a : ℕ) → in_range virt n a ≡ true → is_mapped a t ≡ false
    pub outside : (a : ℕ) → in_range virt n a ≡ false → is_mapped a t ≡ is_mapped a s

  all_mapped-inside :
      (n virt : ℕ) (s : Paging L P)
      → virt % 4_096 ≡ 0
      → virt + n * 4_096 < u32_mod
      → all_mapped n virt s ≡ true
      → (a : ℕ) → in_range virt n a ≡ true
      → is_mapped a s ≡ true
  unfolding all_mapped
  all_mapped-inside zero virt s al lt h a inside = absurd (ground arith)
  all_mapped-inside (suc n) virt s al lt h a inside =
      let next = next_page-exact virt (omega arith) in
      elim (Bool-cases (a / 4_096 == virt / 4_096)) [
        | inl e ↦ is_mapped_page a virt s (ground arith) ∙ ground arith
        | inr e ↦
            let rest : all_mapped n (virt + 4_096) s ≡ true =
              subst (λ v. all_mapped n v s ≡ true) next (ground arith) in
            all_mapped-inside n (virt + 4_096) s (omega arith) (omega arith) rest a (ground arith)
      ]

  all_mapped-of :
      (n virt : ℕ) (s : Paging L P)
      → virt % 4_096 ≡ 0
      → virt + n * 4_096 < u32_mod
      → ((a : ℕ) → in_range virt n a ≡ true → is_mapped a s ≡ true)
      → all_mapped n virt s ≡ true
  unfolding all_mapped
  all_mapped-of zero virt s al lt h = refl
  all_mapped-of (suc n) virt s al lt h =
      let rest =
        all_mapped-of n (virt + 4_096) s (omega arith) (omega arith)
          (λ a inside. h a (ground arith)) in
      simp (h virt (ground arith), next_page-exact virt (omega arith)) rest

  AreUnmapped-cons :
      (virt n : ℕ) (s t u : Paging L P)
      → IsUnmapped virt s t
      → AreUnmapped (virt + 4_096) n t u
      → AreUnmapped virt (suc n) s u
  AreUnmapped-cons virt n s t u first rest = record {
    inside = λ a i. elim (Bool-cases (a / 4_096 == virt / 4_096)) [
      | inl e ↦
          rest.outside a (ground arith) ∙ is_mapped_page a virt t (ground arith) ∙ first.unmapped
      | inr e ↦ rest.inside a (ground arith)
    ];
    outside = λ a o. rest.outside a (ground arith) ∙ first.others a (ground arith);
  }

  cleared :
      (virt : ℕ) (s t : Paging L P)
      → IsUnmapped virt s t
      → IsUnmapped virt s (record t {
        page_tables_searchable = update t.page_tables_searchable (virt / 4_096) false;
      })
  unfolding is_mapped searchable_page_table_offset
  cleared virt s t h = record {
    unmapped = ground arith;
    others = λ a ne. ground (arith, h.others a ne);
  }

  pub unmap_loop-AreUnmapped :
      (n virt : ℕ) (s : Paging L P)
      → virt % 4_096 ≡ 0
      → virt + n * 4_096 < u32_mod
      → all_mapped n virt s ≡ true
      → (t : Paging L P) × (unmap_loop n virt (virt / 4_096) s ≡ done tt t) × AreUnmapped virt n s t
  unfolding unmap_loop
  unmap_loop-AreUnmapped zero virt s al lt h =
      (s, refl, record { inside = λ a i. absurd (ground arith); outside = λ a o. refl })
  unmap_loop-AreUnmapped (suc n) virt s al lt h =
      let mapped = all_mapped-inside (suc n) virt s al lt h in
      let (t, e, first) = unmap_page-IsUnmapped virt s (mapped virt (ground arith)) in
      let t' = record t {
        page_tables_searchable = update t.page_tables_searchable (virt / 4_096) false;
      } in
      let first' : IsUnmapped virt s t' = cleared virt s t first in
      let all =
        all_mapped-of n (virt + 4_096) t' (omega arith) (omega arith)
          (λ a i. first'.others a (ground arith) ∙ mapped a (ground arith)) in
      let (u, e', rest) =
        unmap_loop-AreUnmapped n (virt + 4_096) t' (omega arith) (omega arith) all in
      let offset : (virt + 4_096) / 4_096 ≡ virt / 4_096 + 1 = omega arith in
      let run = subst (λ o. unmap_loop n (virt + 4_096) o t' ≡ done tt u) offset e' in
      (
        u,
        bind-done (unmap_page virt) _ s t map_success e
            ∙ ap (λ v. unmap_loop n v (virt / 4_096 + 1) t') (next_page-exact virt (omega arith))
            ∙ run,
        AreUnmapped-cons virt n s t' u first' rest,
      )
