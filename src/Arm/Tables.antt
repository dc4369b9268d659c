-- ===== src/Arm/Tables.antt =====
-- The tables that `setup_paging` of ARM makes, and mapping a page in them.
use feline_os.Base.{
  ℕ, zero, suc, ◌+◌, ◌*◌, ◌/◌, ◌%◌, ◌≤◌, ◌<◌, ◌≡◌, ◌≢◌, refl, sym, ap, ◌∙◌, inl, inr, true, false,
  not, ◌&&◌, arith, ltb, ◌==◌, Bool-cases, u32_mod,
}
use feline_os.Run.{done}
use feline_os.Paging.{
  Paging, map_success, is_mapped, searchable_page_table_offset, set_bit, update, va_offset,
}
use feline_os.Arm.{
  Behind, write_descriptor, section_table_offset, second_level_offset, table_of,
  first_level_descriptor, descriptor_bits, descriptor_of, virt_to_phys, set_second_level_page_table,
  map_page,
}
use feline_os.Arm.Range.{section_loop}

-- `tables` is an aligned address in the kernel, with room for the rows behind it.
pub record IsTables (tables : ℕ) : Type 0 where
  pub aligned : tables % 16_384 ≡ 0
  pub above : va_offset ≤ tables
  pub below : tables + 8_388_608 < u32_mod

-- The row that a section uses.
abbrev pub row : ℕ → ℕ
row i = i + i / 256

update_self : (f : ℕ → ℕ) (p v : ℕ) → update f p v p ≡ v
update_self f p v = ground arith

update_ne : (f : ℕ → ℕ) (p q v : ℕ) → p ≢ q → update f p v q ≡ f q
update_ne f p q v ne = ground arith

-- The bits of a descriptor that are not its address.
masked : (phys opts : ℕ) → phys % 4_096 ≡ 0 → (phys + descriptor_bits opts) / 4_096 * 4_096 ≡ phys
unfolding descriptor_bits
masked phys opts al = ground arith

row_injective : (i j : ℕ) → row i ≡ row j → i ≡ j
row_injective i j e = omega arith

slots_apart :
    (r t j k : ℕ) → j < 256 → k < 256 → 1_024 * r + 4 * j ≡ 1_024 * t + 4 * k → (r ≡ t) × (j ≡ k)
slots_apart r t j k lj lk e = (omega arith, omega arith)

descriptor-table :
    (tables i : ℕ)
    → IsTables tables
    → i < 4_096
    → (table_of (first_level_descriptor (tables + 1_024 * i) i) ≡ tables + 1_024 * row i)
      × (first_level_descriptor (tables + 1_024 * i) i % 2 ≡ 1)
unfolding table_of first_level_descriptor set_bit
descriptor-table tables i v lt =
    (omega (arith, v.aligned, v.above, v.below), omega (arith, v.aligned, v.above, v.below))

module _ {L P : Type 0} where
  set_at :
      (i table k : ℕ) (s : Paging L P)
      → (set_second_level_page_table (1_048_576 * i) table s).page_directory k
        ≡ update s.page_directory i (first_level_descriptor table i) k
  unfolding set_second_level_page_table section_table_offset
  set_at i table k s =
      let number : 1_048_576 * i / 1_048_576 ≡ i = omega arith in
      ap (λ o. update s.page_directory o (first_level_descriptor table o) k) number

  section_loop-before :
      (tables n i k : ℕ) (s : Paging L P)
      → k < i
      → (section_loop tables n i s).page_directory k ≡ s.page_directory k
  unfolding section_loop
  section_loop-before tables zero i k s lt = refl
  section_loop-before tables (suc n) i k s lt =
      let t = set_second_level_page_table (1_048_576 * i) (tables + 1_024 * i) s in
      section_loop-before tables n (i + 1) k t (omega arith)
      ∙ set_at i (tables + 1_024 * i) k s
      ∙ ground arith

  section_loop-inside :
      (tables n i k : ℕ) (s : Paging L P)
      → i ≤ k
      → k < i + n
      → (section_loop tables n i s).page_directory k ≡ first_level_descriptor (tables + 1_024 * k) k
  unfolding section_loop
  section_loop-inside tables zero i k s le lt = absurd (omega arith)
  section_loop-inside tables (suc n) i k s le lt =
      let t = set_second_level_page_table (1_048_576 * i) (tables + 1_024 * i) s in
      elim (Bool-cases (i == k)) [
        | inl e ↦
            section_loop-before tables n (i + 1) k t (ground arith)
            ∙ set_at i (tables + 1_024 * i) k s
            ∙ here i k s (ground arith)
        | inr e ↦ section_loop-inside tables n (i + 1) k t (ground arith) (omega arith)
      ]
    where
      here :
          (i k : ℕ) (s : Paging L P)
          → i ≡ k
          → update s.page_directory i (first_level_descriptor (tables + 1_024 * i) i) k
            ≡ first_level_descriptor (tables + 1_024 * k) k
      here i k s e = ground arith

  -- Each section but the last has a table: the row `row` of its number.
  pub record HasTables (tables : ℕ) (s : Paging L P) : Type 0 where
    pub table : (i : ℕ) → i < 4_095 → table_of (s.page_directory i) ≡ tables + 1_024 * row i
    pub present : (i : ℕ) → i < 4_095 → s.page_directory i % 2 ≡ 1

  -- The loop of `setup_paging` gives every section but the last one a table. The table of section `i` is
  -- row `i + i / 256` of `second_level_table_system`, not row `i`.
  pub section_loop-HasTables :
      (tables : ℕ) (s : Paging L P)
      → IsTables tables
      → HasTables tables (section_loop tables 4_095 0 s)
  section_loop-HasTables tables s v = record {
    table = λ i lt.
        ap table_of (section_loop-inside tables 4_095 0 i s (omega arith) (omega arith))
        ∙ (descriptor-table tables i v (omega arith)).0;
    present = λ i lt.
        ap (λ d. d % 2) (section_loop-inside tables 4_095 0 i s (omega arith) (omega arith))
        ∙ (descriptor-table tables i v (omega arith)).1;
  }

  -- The loop maps no page.
  pub section_loop-is_mapped :
      (tables n i a : ℕ) (s : Paging L P) → is_mapped a (section_loop tables n i s) ≡ is_mapped a s
  unfolding section_loop is_mapped set_second_level_page_table
  section_loop-is_mapped tables zero i a s = refl
  section_loop-is_mapped tables (suc n) i a s =
      section_loop-is_mapped tables n (i + 1) a
        (set_second_level_page_table (1_048_576 * i) (tables + 1_024 * i) s)

  -- The tables of the sections from 4081 to 4094 begin at the end of `second_level_table_system`, which
  -- has 4096 rows of 1024 bytes, or behind it.
  pub section_loop-overruns :
      (tables i : ℕ) (s : Paging L P)
      → IsTables tables
      → 4_081 ≤ i
      → i < 4_095
      → tables + 4_096 * 1_024 ≤ table_of ((section_loop tables 4_095 0 s).page_directory i)
  section_loop-overruns tables i s v le lt =
      omega (arith, (section_loop-HasTables tables s v).table i lt)

  -- Different pages of sections with tables have different descriptors.
  descriptor-apart :
      (tables a b : ℕ) (s : Paging L P)
      → HasTables tables s
      → a < 4_293_918_720
      → b < 4_293_918_720
      → a / 4_096 ≢ b / 4_096
      → descriptor_of a s ≢ descriptor_of b s
  unfolding descriptor_of section_table_offset second_level_offset
  descriptor-apart tables a b s v la lb ne e =
      let p = v.table (a / 1_048_576) (omega arith) in
      let q = v.table (b / 1_048_576) (omega arith) in
      let at : tables + 1_024 * row (a / 1_048_576) + 4 * (a / 4_096 * 4_096 % 1_048_576 / 4_096)
          ≡ tables + 1_024 * row (b / 1_048_576) + 4 * (b / 4_096 * 4_096 % 1_048_576 / 4_096) =
        ap (λ t. t + 4 * (a / 4_096 * 4_096 % 1_048_576 / 4_096)) (sym p)
        ∙ e
        ∙ ap (λ t. t + 4 * (b / 4_096 * 4_096 % 1_048_576 / 4_096)) q in
      let offset_a : a / 4_096 * 4_096 % 1_048_576 / 4_096 ≡ a / 4_096 % 256 = omega arith in
      let offset_b : b / 4_096 * 4_096 % 1_048_576 / 4_096 ≡ b / 4_096 % 256 = omega arith in
      let (rows, offsets) =
        slots_apart (row (a / 1_048_576)) (row (b / 1_048_576)) (a / 4_096 % 256) (b / 4_096 % 256)
          (omega arith) (omega arith) (omega (arith, at, offset_a, offset_b)) in
      let sections : a / 1_048_576 ≡ b / 1_048_576 =
        row_injective (a / 1_048_576) (b / 1_048_576) rows in
      ne (omega (arith, sections, offsets))

  -- `t` is `s` with the page of `virt` mapped to `phys`.
  pub record IsMappedTo (virt phys : ℕ) (s t : Paging L P) : Type 0 where
    pub mapped : is_mapped virt t ≡ true
    pub address : virt_to_phys virt t ≡ phys
    pub others :
        (a : ℕ)
        → a < 4_293_918_720
        → a / 4_096 ≢ virt / 4_096
        → (is_mapped a t ≡ is_mapped a s) × (virt_to_phys a t ≡ virt_to_phys a s)

  -- With such tables, `map_page` of a page below section 4081, which is not mapped or may be overwritten,
  -- succeeds. The page is then mapped to the physical page, whatever the other options, each
  -- other page below the last section is as it was, and the tables are kept.
  pub map_page-IsMappedTo :
      (behind : Behind L P) (tables phys virt opts : ℕ) (s : Paging L P)
      → HasTables tables s
      → virt < 4_279_238_656
      → phys % 4_096 ≡ 0
      → (not (opts / 2 % 2 == 1) && is_mapped virt s) ≡ false
      → (t : Paging L P) × (map_page behind phys virt opts s ≡ done map_success t)
        × IsMappedTo virt phys s t
        × HasTables tables t
  unfolding map_page write_descriptor section_table_offset is_mapped searchable_page_table_offset
      virt_to_phys descriptor_of
  map_page-IsMappedTo behind tables phys virt opts s v lt al allowed =
      let inside : ltb (section_table_offset virt) 4_081 ≡ true = ground (arith, lt) in
      let t : Paging L P = record s {
        page_tables_searchable = update s.page_tables_searchable (virt / 4_096) true;
        page_tables = update s.page_tables (descriptor_of virt s) (phys + descriptor_bits opts);
      } in
      (
        t,
        ground (arith, v.present (virt / 1_048_576) (omega arith), allowed, inside),
        record {
          mapped = ground arith;
          address =
              ap (λ d. d / 4_096 * 4_096)
                (update_self s.page_tables (descriptor_of virt s) (phys + descriptor_bits opts))
              ∙ masked phys opts al;
          others = λ a la ne. (
            ground arith,
            ap (λ d. d / 4_096 * 4_096)
                (update_ne s.page_tables (descriptor_of virt s) (descriptor_of a s)
                  (phys + descriptor_bits opts)
                  (λ e. descriptor-apart tables a virt s v la (omega arith) ne (sym e))),
          );
        },
        record { table = v.table; present = v.present },
      )
