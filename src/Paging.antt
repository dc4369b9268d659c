-- ===== src/Paging.antt =====
-- system/kernel/arch/i386/virt_mem/paging.cpp: page table entries, and the state of the virtual memory
-- manager. An entry is its 32-bit number; a bit is tested, set and cleared by `/`, `%`, `+` and `-`. The
-- tables are seen through the recursive mapping that `setup_paging` installs: the entry of page number
-- `n` (its address over 4096) is entry `n % 1024` of table `n / 1024`. `invlpg` has no state here.
pub mod Find
pub mod Range
pub mod Entry
pub mod Search
pub mod Mapping
pub mod Service
pub mod Setup
pub mod Boot
use feline_os.Base.{
  ℕ, zero, suc, ◌+◌, ◌-◌, ◌*◌, ◌/◌, ◌%◌, ◌^◌, Bool, true, false, none, some, not, ◌&&◌, ltb, leb,
  ◌==◌, if◌then◌else◌, wrap32, u32_mod,
}
use feline_os.Page.{small, pre_increment, pre_decrement}
use feline_os.Run.{Run, Cmd, done, aborted, stuck, pure, ◌>>=◌, ◌>>◌, get, modify, assert}
use feline_os.Spinlock.{LockOps}

pub data MapResults : Type 0 where
  map_success map_already_mapped map_notmapped map_no_virtmem map_invalid_option map_no_physmem :
      MapResults
  map_no_perm map_err_kernel_space map_invalid_align : MapResults

pub record Paging (L P : Type 0) : Type 0 where
  pub modifying_page_tables : L
  -- By table number.
  pub page_directory : ℕ → ℕ
  -- By page number.
  pub page_tables : ℕ → ℕ
  pub page_tables_searchable : ℕ → Bool
  -- The physical memory manager's state.
  pub pmm : P

-- The bits of an entry, by position.
abbrev pub present_bit : ℕ
present_bit = 1

abbrev pub writeable_bit : ℕ
writeable_bit = 2

abbrev pub user_bit : ℕ
user_bit = 4

abbrev pub write_through_bit : ℕ
write_through_bit = 8

abbrev pub cache_disable_bit : ℕ
cache_disable_bit = 16

abbrev pub read_bit : ℕ
read_bit = 32

abbrev pub written_bit : ℕ
written_bit = 64

abbrev pub mb_page_bit : ℕ
mb_page_bit = 128

abbrev pub pat_bit : ℕ
pat_bit = 128

abbrev pub global_bit : ℕ
global_bit = 256

abbrev pub va_offset : ℕ
va_offset = 0xf000_0000

abbrev pub max_virt_mem : ℕ
max_virt_mem = 4_294_967_296

unfoldable pub page_offset : ℕ → ℕ
page_offset addr = addr % 4_096

-- `*p |= b`, `*p &= ~b` and `(p & b) != 0`, for one bit `b`.
unfoldable pub set_bit : ℕ → ℕ → ℕ
set_bit p b = p + (1 - p / b % 2) * b

unfoldable pub unset_bit : ℕ → ℕ → ℕ
unset_bit p b = p - p / b % 2 * b

unfoldable pub is_set : ℕ → ℕ → Bool
is_set p b = p / b % 2 == 1

unfoldable pub present : ℕ → Bool
present p = p / present_bit % 2 == 1

-- `p & ~0xfff`
unfoldable pub addr : ℕ → ℕ
addr p = p / 4_096 * 4_096

unfoldable pub set_addr : ℕ → ℕ → ℕ
set_addr p a = p % 4_096 + a / 4_096 * 4_096

unfoldable pub pte_offset : ℕ → ℕ
pte_offset a = a / 4_096 % 1_024

unfoldable pub pde_offset : ℕ → ℕ
pde_offset a = a / 4_194_304

unfoldable pub searchable_page_table_offset : ℕ → ℕ
searchable_page_table_offset a = a / 4_096

-- The index of the entry at `0xFFC00000 + 4096 * pde_offset + 4 * pte_offset`.
unfoldable pub entry_of : ℕ → ℕ
unfolding pte_offset pde_offset
entry_of virt_addr = 1_024 * pde_offset virt_addr + pte_offset virt_addr

-- `++p` and `--p` of a `page`, by its address.
unfoldable pub next_page : ℕ → ℕ
unfolding pre_increment
next_page a = (pre_increment (record { addr = a; class = small })).addr

unfoldable pub previous_page : ℕ → ℕ
unfolding pre_decrement
previous_page a = (pre_decrement (record { addr = a; class = small })).addr

abbrev pub update {ℓ} : {A : Type ℓ} → (ℕ → A) → ℕ → A → ℕ → A
update f p v q = if p == q then v else f q

-- What `map_page` makes of a page table entry, and of a directory entry that is not present.
unfoldable pub fresh_pte : ℕ → ℕ → ℕ
unfolding set_addr set_bit unset_bit
fresh_pte old phys_addr =
    let e = set_addr old phys_addr in
    let e = unset_bit e global_bit in
    let e = unset_bit e pat_bit in
    let e = unset_bit e written_bit in
    let e = unset_bit e read_bit in
    let e = unset_bit e cache_disable_bit in
    let e = unset_bit e write_through_bit in
    let e = unset_bit e user_bit in let e = set_bit e writeable_bit in set_bit e present_bit

unfoldable pub fresh_pde : ℕ → ℕ → ℕ
unfolding set_addr set_bit unset_bit
fresh_pde old table =
    let e = set_addr old (wrap32 (table + u32_mod - va_offset)) in
    let e = unset_bit e global_bit in
    let e = unset_bit e mb_page_bit in
    let e = unset_bit e written_bit in
    let e = unset_bit e read_bit in
    let e = unset_bit e cache_disable_bit in
    let e = unset_bit e write_through_bit in
    let e = unset_bit e user_bit in let e = set_bit e writeable_bit in set_bit e present_bit

module _ {L P : Type 0} where
  unfoldable pub is_mapped : ℕ → Paging L P → Bool
  unfolding searchable_page_table_offset
  is_mapped virt_addr s = s.page_tables_searchable (searchable_page_table_offset virt_addr)

  unfoldable pub with_pde : (ℕ → ℕ) → ℕ → Paging L P → ℕ → ℕ
  unfolding fresh_pde present
  with_pde all_page_tables table s =
      let old = s.page_directory table in
      if present old
      then s.page_directory
      else update s.page_directory table (fresh_pde old (all_page_tables table))

  -- `all_page_tables` gives the address of each statically allocated table.
  unfoldable pub map_page : (ℕ → ℕ) → ℕ → ℕ → ℕ → Cmd (Paging L P) MapResults
  unfolding is_mapped fresh_pte with_pde searchable_page_table_offset entry_of
  map_page all_page_tables phys_addr virt_addr opts s =
      if not (opts / 2 % 2 == 1) && is_mapped virt_addr s
      then done map_already_mapped s
      else let entry = entry_of virt_addr in
        done map_success (record s {
          page_directory = with_pde all_page_tables (pde_offset virt_addr) s;
          page_tables = update s.page_tables entry (fresh_pte (s.page_tables entry) phys_addr);
          page_tables_searchable =
              update s.page_tables_searchable (searchable_page_table_offset virt_addr) true;
        })

  unfoldable pub unmap_page : ℕ → Cmd (Paging L P) MapResults
  unfolding is_mapped unset_bit searchable_page_table_offset entry_of
  unmap_page virt_addr s =
      if is_mapped virt_addr s
      then (let entry = entry_of virt_addr in
          done map_success (record s {
            page_tables = update s.page_tables entry (unset_bit (s.page_tables entry) present_bit);
            page_tables_searchable =
                update s.page_tables_searchable (searchable_page_table_offset virt_addr) false;
          }))
      else done map_notmapped s

  abbrev pub acquire_lock : LockOps L → Cmd (Paging L P) (Unit {0})
  acquire_lock ops s = elim (ops.acquire s.modifying_page_tables) [
    | none ↦ stuck
    | some l ↦ done tt (record s { modifying_page_tables = l })
  ]

  abbrev pub release_lock : LockOps L → Cmd (Paging L P) (Unit {0})
  release_lock ops s =
      done tt (record s { modifying_page_tables = ops.release s.modifying_page_tables })
