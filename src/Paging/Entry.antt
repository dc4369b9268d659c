-- ===== src/Paging/Entry.antt =====
-- The entries that `map_page` writes, and mapping and unmapping one page.
use feline_os.Base.{
  ℕ, ◌+◌, ◌*◌, ◌/◌, ◌%◌, ◌<◌, ◌≡◌, ◌≢◌, inl, inr, ◌∙◌, true, false, arith, ◌==◌, not, ◌&&◌,
  Bool-cases,
}
use feline_os.Run.{done}
use feline_os.Paging.{
  Paging, map_success, present_bit, set_bit, unset_bit, set_addr, fresh_pte, entry_of, pde_offset,
  pte_offset, searchable_page_table_offset, is_mapped, map_page, unmap_page, update, with_pde, addr,
}
use feline_os.Paging.Range.{virt_to_phys}

-- Clearing bit `b` of an entry whose low nine bits lie below `2 * b` leaves them below `b`.
pub Below : ℕ → ℕ → ℕ → Type 0
Below p b high = (p / 512 ≡ high) × (p % 512 < b)

unset-128 : (p q : ℕ) → Below p 256 q → Below (unset_bit p 128) 128 q
unfolding unset_bit Below
unset-128 p q (h, k) = (omega arith, omega arith)

unset-64 : (p q : ℕ) → Below p 128 q → Below (unset_bit p 64) 64 q
unfolding unset_bit Below
unset-64 p q (h, k) = (omega arith, omega arith)

unset-32 : (p q : ℕ) → Below p 64 q → Below (unset_bit p 32) 32 q
unfolding unset_bit Below
unset-32 p q (h, k) = (omega arith, omega arith)

unset-16 : (p q : ℕ) → Below p 32 q → Below (unset_bit p 16) 16 q
unfolding unset_bit Below
unset-16 p q (h, k) = (omega arith, omega arith)

unset-8 : (p q : ℕ) → Below p 16 q → Below (unset_bit p 8) 8 q
unfolding unset_bit Below
unset-8 p q (h, k) = (omega arith, omega arith)

unset-4 : (p q : ℕ) → Below p 8 q → Below (unset_bit p 4) 4 q
unfolding unset_bit Below
unset-4 p q (h, k) = (omega arith, omega arith)

unset-256 : (p : ℕ) → Below (unset_bit p 256) 256 (p / 512)
unfolding unset_bit Below
unset-256 p = (omega arith, omega arith)

set-3 : (p q : ℕ) → Below p 4 q → set_bit (set_bit p 2) 1 ≡ q * 512 + 3
unfolding set_bit Below
set-3 p q (h, k) = omega arith

-- The entry that `map_page` writes has the page of the physical address, the three bits that the
-- processor ignores as they were, and of the others only present_bit and `writeable_bit`.
pub fresh_pte-fields :
    (old phys_addr : ℕ)
    → fresh_pte old phys_addr ≡ phys_addr / 4_096 * 4_096 + old % 4_096 / 512 * 512 + 3
unfolding fresh_pte set_addr
fresh_pte-fields old phys_addr =
    let e0 = old % 4_096 + phys_addr / 4_096 * 4_096 in
    let q = e0 / 512 in
    let e1 = unset_bit e0 256 in
    let e2 = unset_bit e1 128 in
    let e3 = unset_bit e2 64 in
    let e4 = unset_bit e3 32 in
    let e5 = unset_bit e4 16 in
    let e6 = unset_bit e5 8 in
    let e7 = unset_bit e6 4 in
    let last : Below e7 4 q = unset-4 e6 q (
      unset-8 e5 q
        (unset-16 e4 q (unset-32 e3 q (unset-64 e2 q (unset-128 e1 q (unset-256 e0)))))) in
    let fields : e0 / 512 * 512 + 3 ≡ phys_addr / 4_096 * 4_096 + old % 4_096 / 512 * 512 + 3 =
      omega arith in
    set-3 e7 q last ∙ fields

pub entry_of_page : (a : ℕ) → entry_of a ≡ a / 4_096
unfolding entry_of pde_offset pte_offset
entry_of_page a = omega arith

module _ {L P : Type 0} where
  -- The state `t` is `s` but for the page of `virt`, which is mapped to the page of `phys`.
  pub record IsMappedTo (virt phys : ℕ) (s t : Paging L P) : Type 0 where
    pub mapped : is_mapped virt t ≡ true
    pub address : virt_to_phys virt t ≡ phys / 4_096 * 4_096
    pub others :
        (a : ℕ)
        → a / 4_096 ≢ virt / 4_096
        → (is_mapped a t ≡ is_mapped a s) × (virt_to_phys a t ≡ virt_to_phys a s)

  -- `map_page` refuses a page that is mapped, unless `MAP_OVERWRITE` is given. Otherwise it succeeds:
  -- the page is mapped to the page of the physical address, and no other page changes.
  pub map_page-IsMappedTo :
      (tables : ℕ → ℕ) (phys virt opts : ℕ) (s : Paging L P)
      → (not (opts / 2 % 2 == 1) && is_mapped virt s) ≡ false
      → (t : Paging L P) × (map_page tables phys virt opts s ≡ done map_success t)
        × IsMappedTo virt phys s t
  unfolding map_page is_mapped virt_to_phys searchable_page_table_offset addr
  map_page-IsMappedTo tables phys virt opts s h =
      let t = record s {
        page_directory = with_pde tables (pde_offset virt) s;
        page_tables =
            update s.page_tables (entry_of virt) (fresh_pte (s.page_tables (entry_of virt)) phys);
        page_tables_searchable = update s.page_tables_searchable (virt / 4_096) true;
      } in
      (
        t,
        simp h,
        record {
          mapped = ground arith;
          address = ground (arith, fresh_pte-fields (s.page_tables (entry_of virt)) phys);
          others = λ a ne. (ground arith, ground (arith, entry_of_page a, entry_of_page virt));
        },
      )

  -- The state `t` is `s` but for the page of `virt`, which is not mapped.
  pub record IsUnmapped (virt : ℕ) (s t : Paging L P) : Type 0 where
    pub unmapped : is_mapped virt t ≡ false
    pub others : (a : ℕ) → a / 4_096 ≢ virt / 4_096 → is_mapped a t ≡ is_mapped a s

  pub unmap_page-IsUnmapped :
      (virt : ℕ) (s : Paging L P)
      → is_mapped virt s ≡ true
      → (t : Paging L P) × (unmap_page virt s ≡ done map_success t) × IsUnmapped virt s t
  unfolding unmap_page is_mapped searchable_page_table_offset
  unmap_page-IsUnmapped virt s h =
      let entry = entry_of virt in
      let t = record s {
        page_tables = update s.page_tables entry (unset_bit (s.page_tables entry) present_bit);
        page_tables_searchable = update s.page_tables_searchable (virt / 4_096) false;
      } in
      (t, simp h, record { unmapped = ground arith; others = λ a ne. ground arith })

  restored :
      (virt phys : ℕ) (s t u : Paging L P)
      → is_mapped virt s ≡ false
      → IsMappedTo virt phys s t
      → IsUnmapped virt t u
      → (a : ℕ) → is_mapped a u ≡ is_mapped a s
  unfolding is_mapped searchable_page_table_offset
  restored virt phys s t u free m n a = elim (Bool-cases (a / 4_096 == virt / 4_096)) [
    | inl e ↦ ground (arith, n.unmapped)
    | inr e ↦
        let ne : a / 4_096 ≢ virt / 4_096 = ground arith in
        let (same, _) = m.others a ne in n.others a ne ∙ same
  ]

  -- Mapping a free page and unmapping it again succeeds, and then the same pages are mapped as before.
  unmap_page-map_page :
      (tables : ℕ → ℕ) (phys virt opts : ℕ) (s : Paging L P)
      → is_mapped virt s ≡ false
      → (t u : Paging L P) × (map_page tables phys virt opts s ≡ done map_success t)
        × (unmap_page virt t ≡ done map_success u)
        × ((a : ℕ) → is_mapped a u ≡ is_mapped a s)
  unmap_page-map_page tables phys virt opts s free =
      let allowed : (not (opts / 2 % 2 == 1) && is_mapped virt s) ≡ false = ground arith in
      let (t, maps, m) = map_page-IsMappedTo tables phys virt opts s allowed in
      let (u, unmaps, n) = unmap_page-IsUnmapped virt t m.mapped in
      (t, u, maps, unmaps, λ a. restored virt phys s t u free m n a)
