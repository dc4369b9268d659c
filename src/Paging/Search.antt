-- ===== src/Paging/Search.antt =====
-- The search for free virtual memory: it ends, and what it finds is free.
use feline_os.Base.{
  ℕ, zero, suc, ◌+◌, ◌-◌, ◌*◌, ◌/◌, ◌%◌, ◌≤◌, ◌<◌, ◌≡◌, ◌≢◌, ◌⊎◌, inl, inr, ap, subst, ◌∙◌, true,
  false, none, some, arith, ltb, leb, ◌==◌, if◌then◌else◌, not, ◌&&◌, Bool-cases, Option-cases,
  wrap32, u32_mod, uintptr_max,
}
use feline_os.Page.{pre_increment}
use feline_os.Paging.{
  Paging, next_page, is_mapped, searchable_page_table_offset, page_offset, max_virt_mem,
}
use feline_os.Paging.Find.{mapped_from, free_from_here, find_loop, find_free_virtmem}

next_page-le : (a : ℕ) → a < u32_mod → a ≤ next_page a
unfolding next_page pre_increment
next_page-le a h = ground arith

next_page-bounds :
    (fuel base b : ℕ)
    → b < u32_mod
    → base ≤ b
    → base < max_virt_mem - 4_096
    → 1_048_576 < suc fuel + base / 4_096
    → (next_page (b / 4_096 * 4_096) < u32_mod)
      × (1_048_576 < fuel + next_page (b / 4_096 * 4_096) / 4_096)
unfolding next_page pre_increment
next_page-bounds fuel base b lt le below enough = (ground arith, ground arith)

next_page-aligned :
    (b : ℕ) → b % 4_096 ≡ 0 → (next_page b % 4_096 ≡ 0) ⊎ (next_page b ≡ uintptr_max)
unfolding next_page pre_increment
next_page-aligned b h = elim (Bool-cases (leb b (uintptr_max - 4_096))) [
  | inl e ↦ inl (ground arith)
  | inr e ↦ inr (ground arith)
]

module _ {L P : Type 0} where
  -- `len` bytes from `base`, which is aligned, are not mapped, where they end below 2 ^ 32.
  pub record IsFree (base len : ℕ) (s : Paging L P) : Type 0 where
    pub aligned : base % 4_096 ≡ 0
    pub free : (a : ℕ) → base + len < u32_mod → base ≤ a → a < base + len → is_mapped a s ≡ false

  -- The address `a` is in the page of `b`.
  pub is_mapped_page :
      (a b : ℕ) (s : Paging L P) → a / 4_096 ≡ b / 4_096 → is_mapped a s ≡ is_mapped b s
  unfolding is_mapped searchable_page_table_offset
  is_mapped_page a b s h = ap s.page_tables_searchable h

  mapped_from-free :
      (s : Paging L P) (fuel base last_page a : ℕ)
      → base % 4_096 ≡ 0
      → mapped_from s fuel base last_page ≡ some none
      → base ≤ a
      → a / 4_096 * 4_096 ≤ last_page
      → a < u32_mod
      → is_mapped a s ≡ false
  unfolding mapped_from next_page pre_increment
  mapped_from-free s zero base last_page a al h le up lt = cc
  mapped_from-free s (suc fuel) base last_page a al h le up lt =
      elim (Bool-cases (is_mapped base s)) [
        | inl m ↦ absurd (ground arith)
        | inr m ↦ elim (Bool-cases (ltb a (base + 4_096))) [
          | inl here ↦ is_mapped_page a base s (ground arith) ∙ m
          | inr later ↦
              mapped_from-free s fuel (base + 4_096) last_page a (ground arith) (ground arith)
                (ground arith) up lt
        ]
      ]

  -- Memory that `free_from_here` calls free is free, where it ends below the top of the address space.
  pub free_from_here-free :
      (s : Paging L P) (fuel base needed base' a : ℕ)
      → base % 4_096 ≡ 0
      → free_from_here s fuel base needed ≡ some (true, base')
      → base + needed < u32_mod
      → base ≤ a
      → a < base + needed
      → is_mapped a s ≡ false
  unfolding free_from_here
  free_from_here-free s fuel base needed base' a al h top le lt =
      let last_page = wrap32 (base + needed) / 4_096 * 4_096 in
      let last_page_needed = if page_offset needed == 0 then last_page else next_page last_page in
      let inside : a / 4_096 * 4_096 ≤ last_page_needed = ground (arith, next_page-le last_page) in
      elim (Option-cases (mapped_from s fuel base last_page_needed)) [
        | inl e ↦ absurd (ground (arith, e))
        | inr (none, e) ↦
            mapped_from-free s fuel base last_page_needed a al e le inside (omega arith)
        | inr (some b, e) ↦ absurd (ground (arith, e))
      ]

  -- The search ends: its pages are tried upwards, and the last of all is mapped.
  mapped_from-ends :
      (s : Paging L P) (fuel base last_page : ℕ)
      → is_mapped uintptr_max s ≡ true
      → base < u32_mod
      → 1_048_575 < fuel + base / 4_096
      → (mapped_from s fuel base last_page ≡ some none)
        ⊎ ((b : ℕ) × (mapped_from s fuel base last_page ≡ some (some b))
            × (base ≤ b)
            × (b < u32_mod))
  unfolding mapped_from next_page pre_increment
  mapped_from-ends s zero base last_page top lt enough = absurd (omega arith)
  mapped_from-ends s (suc fuel) base last_page top lt enough =
      elim (Bool-cases (leb base last_page)) [
        | inr e ↦ inl (ground arith)
        | inl e ↦ elim (Bool-cases (is_mapped base s)) [
          | inl m ↦ inr (base, ground arith, omega arith, lt)
          | inr m ↦
              let ne : base / 4_096 ≢ 1_048_575 = λ same. absurd (
                let eq : is_mapped base s ≡ is_mapped uintptr_max s =
                  is_mapped_page base uintptr_max s (omega arith) in
                cc) in
              elim (mapped_from-ends s fuel (base + 4_096) last_page top (omega arith)
                (omega arith)) [
                  | inl r ↦ inl (ground arith)
                  | inr (b, r, le, lt') ↦ inr (b, ground arith, omega arith, lt')
                ]
        ]
      ]

  free_from_here-ends :
      (s : Paging L P) (fuel base needed : ℕ)
      → is_mapped uintptr_max s ≡ true
      → base < u32_mod
      → 1_048_576 ≤ fuel
      → (free_from_here s fuel base needed ≡ some (true, base))
        ⊎ (free_from_here s fuel base needed ≡ some (false, 0))
        ⊎ ((b : ℕ) × (free_from_here s fuel base needed ≡ some (false, b / 4_096 * 4_096))
            × (base ≤ b)
            × (b < u32_mod))
  unfolding free_from_here
  free_from_here-ends s fuel base needed top lt enough =
      let last_page = wrap32 (base + needed) / 4_096 * 4_096 in
      let last_page_needed = if page_offset needed == 0 then last_page else next_page last_page in
      elim (Bool-cases (ltb (max_virt_mem - needed) base)) [
        | inl e ↦ inr (inl (ground arith))
        | inr e ↦ elim (mapped_from-ends s fuel base last_page_needed top lt (omega arith)) [
          | inl r ↦ inl (ground (arith, r))
          | inr (b, r, le, lt') ↦ inr (inr (b, ground (arith, r), le, lt'))
        ]
      ]

  free_from_here-base :
      (s : Paging L P) (pages base len b : ℕ)
      → free_from_here s pages base len ≡ some (true, b)
      → b ≡ base
  unfolding free_from_here
  free_from_here-base s pages base len b h =
      let last_page = wrap32 (base + len) / 4_096 * 4_096 in
      let last_page_needed = if page_offset len == 0 then last_page else next_page last_page in
      elim (Option-cases (mapped_from s pages base last_page_needed)) [
        | inl e ↦ absurd (ground (arith, e))
        | inr (none, e) ↦ ground (arith, e)
        | inr (some c, e) ↦ absurd (ground (arith, e))
      ]

  free_from_here-aligned :
      (s : Paging L P) (pages base len b : ℕ)
      → free_from_here s pages base len ≡ some (false, b)
      → b % 4_096 ≡ 0
  unfolding free_from_here
  free_from_here-aligned s pages base len b h =
      let last_page = wrap32 (base + len) / 4_096 * 4_096 in
      let last_page_needed = if page_offset len == 0 then last_page else next_page last_page in
      elim (Option-cases (mapped_from s pages base last_page_needed)) [
        | inl e ↦ ground (arith, e)
        | inr (none, e) ↦ ground (arith, e)
        | inr (some c, e) ↦ ground (arith, e)
      ]

  pub free_from_here-top :
      (s : Paging L P) (pages base len b : ℕ)
      → len < u32_mod
      → free_from_here s pages base len ≡ some (true, b)
      → base + len ≤ u32_mod
  unfolding free_from_here
  free_from_here-top s pages base len b lt h = elim (Bool-cases (ltb (max_virt_mem - len) base)) [
    | inl e ↦ absurd (ground (arith, e))
    | inr e ↦ ground arith
  ]

  find_loop-ends :
      (s : Paging L P) (pages fuel base len : ℕ)
      → is_mapped uintptr_max s ≡ true
      → base < u32_mod
      → 1_048_576 ≤ pages
      → 1_048_576 < fuel + base / 4_096
      → (r : ℕ) × (find_loop s pages fuel base len ≡ some r)
  unfolding find_loop next_page pre_increment
  find_loop-ends s pages zero base len top lt enough h = absurd (omega arith)
  find_loop-ends s pages (suc fuel) base len top lt enough h =
      elim (Bool-cases (ltb base (max_virt_mem - 4_096) && not (base == 0))) [
        | inr e ↦ (0, ground (arith, e))
        | inl e ↦ elim (free_from_here-ends s pages base len top lt enough) [
          | inl r ↦ (base, ground (arith, e, r))
          | inr (inl r) ↦ (0, ground (arith, e, r))
          | inr (inr (b, r, le, lt')) ↦
              let b' = b / 4_096 * 4_096 in
              let (lt'', enough') = next_page-bounds fuel base b lt' le (ground arith) h in
              let (x, rest) =
                find_loop-ends s pages fuel (next_page b') len top lt'' enough enough' in
              elim (Bool-cases (b' == 0)) [
                | inl z ↦ (0, ground (arith, e, r))
                | inr z ↦ (x, ground (arith, e, r, rest))
              ]
        ]
      ]

  find_loop-free :
      (s : Paging L P) (pages fuel base len r : ℕ)
      → (base % 4_096 ≡ 0) ⊎ (base ≡ uintptr_max)
      → find_loop s pages fuel base len ≡ some r
      → r ≢ 0
      → (r % 4_096 ≡ 0) × (free_from_here s pages r len ≡ some (true, r))
  unfolding find_loop
  find_loop-free s pages zero base len r al h nz = absurd (ground arith)
  find_loop-free s pages (suc fuel) base len r al h nz =
      elim (Bool-cases (ltb base (max_virt_mem - 4_096) && not (base == 0))) [
        | inr e ↦ absurd (ground (arith, e))
        | inl e ↦ elim (Option-cases (free_from_here s pages base len)) [
          | inl f ↦ absurd (ground (arith, e, f))
          | inr ((true, b), f) ↦
              let same : b ≡ base = free_from_here-base s pages base len b f in
              let eq : base ≡ r = ground (arith, e, f) in
              (
                ground arith,
                subst (λ x. free_from_here s pages x len ≡ some (true, x)) eq
                    (f ∙ ap (λ x. some (true, x)) same),
              )
          | inr ((false, b), f) ↦ elim (Bool-cases (b == 0)) [
            | inl z ↦ absurd (ground (arith, e, f))
            | inr z ↦
                find_loop-free s pages fuel (next_page b) len r
                  (next_page-aligned b (free_from_here-aligned s pages base len b f))
                  (ground (arith, e, f)) nz
          ]
        ]
      ]

  -- With fuel for every page of the address space, the last one of which is always mapped by
  -- `setup_paging`, `find_free_virtmem` ends. It gives the null pointer or an aligned address, and where
  -- `len` bytes from there end below 2 ^ 32, none of them is mapped.
  pub find_free_virtmem-IsFree :
      (s : Paging L P) (fuel len : ℕ)
      → is_mapped uintptr_max s ≡ true
      → 1_048_576 ≤ fuel
      → (r : ℕ) × (find_free_virtmem s fuel len ≡ some r) × ((r ≡ 0) ⊎ IsFree r len s)
  unfolding find_free_virtmem
  find_free_virtmem-IsFree s fuel len top enough =
      let (r, e) = find_loop-ends s fuel fuel 4_096 len top (omega arith) enough (omega arith) in
      elim (Bool-cases (r == 0)) [
        | inl z ↦ (r, e, inl (ground arith))
        | inr z ↦
            let (al, f) =
              find_loop-free s fuel fuel 4_096 len r (inl (omega arith)) e (ground arith) in
            (
              r,
              e,
              inr (record {
                aligned = al;
                free = λ a end le lt. free_from_here-free s fuel r len r a al f end le lt;
              }),
            )
      ]

  pub find_free_virtmem-found :
      (s : Paging L P) (fuel len r : ℕ)
      → find_free_virtmem s fuel len ≡ some r
      → r ≢ 0
      → free_from_here s fuel r len ≡ some (true, r)
  unfolding find_free_virtmem
  find_free_virtmem-found s fuel len r e nz =
      let (al, f) = find_loop-free s fuel fuel 4_096 len r (inl (omega arith)) e nz in f

  -- A range that ends exactly at 2 ^ 32 is called free whatever is mapped in it, because the address of
  -- its last page is 0 and the loop over its pages does not run.
  free_from_here_unchecked :
      (s : Paging L P) (fuel base needed : ℕ)
      → base + needed ≡ max_virt_mem
      → needed % 4_096 ≡ 0
      → 0 < base
      → free_from_here s (suc fuel) base needed ≡ some (true, base)
  unfolding free_from_here mapped_from next_page pre_increment page_offset
  free_from_here_unchecked s fuel base needed h al pos = ground arith
