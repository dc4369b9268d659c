-- ===== src/Tests/Tables.antt =====
-- The theorems on system/kernel/arch/i386/virt_mem/paging.cpp and on system/kernel/kernel/mem.cpp, at a
-- state with the first pages and the page tables mapped.
use feline_os.Base.{
  ℕ, ◌+◌, ◌*◌, ◌/◌, ◌<◌, ◌≡◌, ◌⊎◌, refl, Bool, true, false, some, ◌||◌, ◌&&◌, leb, arith,
  uintptr_max,
}
use feline_os.Run.{done}
use feline_os.Page.{bytes_to_pages}
use feline_os.PhysMem.{pmm_success}
use feline_os.Spinlock.{LockOps}
use feline_os.Paging.{Paging, map_success, map_notmapped, is_mapped, searchable_page_table_offset}
use feline_os.Paging.Find.{find_free_virtmem}
use feline_os.Paging.Range.{PmmOps, unmap_range, all_mapped}
use feline_os.Paging.Setup.{setup_paging}
use feline_os.Paging.Search.{IsFree, find_free_virtmem-IsFree}
use feline_os.Paging.Mapping.{AreUnmapped}
use feline_os.Paging.Service.{unmap_range-AreUnmapped}
use feline_os.Paging.Boot.{IsBooted, setup_paging-IsBooted}

abbrev simple_lock : LockOps Bool
simple_lock = record {
  acquire = λ _. some true;
  try_acquire = λ _. (true, true);
  release = λ _. false;
}

-- A physical memory manager that counts its calls, and gives the area at 1 MiB.
abbrev pmm : PmmOps ℕ
pmm = record {
  get_mem_area = λ len calls. done (pmm_success, 1_048_576) (calls + 1);
  free_mem_area = λ at len calls. done pmm_success (calls + 1);
}

abbrev state_of : Bool → (ℕ → Bool) → Paging Bool ℕ
state_of locked searchable = record {
  modifying_page_tables = locked;
  page_directory = λ _. 0;
  page_tables = λ _. 0;
  page_tables_searchable = searchable;
  pmm = 0;
}

abbrev some_mapped : ℕ → Bool
some_mapped p = leb p 3 || leb 1_047_552 p

abbrev state : Paging Bool ℕ
state = state_of false some_mapped

abbrev tables : ℕ → ℕ
tables n = 4_027_580_416 + n * 4_096

top_is_mapped : is_mapped uintptr_max state ≡ true
unfolding is_mapped searchable_page_table_offset
top_is_mapped = refl

page_is_free : is_mapped 1_048_576 state ≡ false
unfolding is_mapped searchable_page_table_offset
page_is_free = refl

may_map : (true && is_mapped 1_048_576 state) ≡ false
may_map = page_is_free

find_free_virtmem-IsFree_example :
    (r : ℕ) × (find_free_virtmem state 1_048_576 9_000 ≡ some r) × ((r ≡ 0) ⊎ IsFree r 9_000 state)
find_free_virtmem-IsFree_example =
    find_free_virtmem-IsFree state 1_048_576 9_000 top_is_mapped (omega arith)

abbrev locked : Paging Bool ℕ
locked = state_of true some_mapped

two_pages : 4_100 / 4_096 * 4_096 + bytes_to_pages 8_000 * 4_096 < 4_294_967_296
unfolding bytes_to_pages
two_pages = omega arith

unmap_range-AreUnmapped_example :
    ((all_mapped (bytes_to_pages 8_000) (4_100 / 4_096 * 4_096) state ≡ false)
      × (unmap_range simple_lock pmm 4_100 8_000 0 state ≡ done map_notmapped state))
    ⊎ ((t : Paging Bool ℕ) × (all_mapped (bytes_to_pages 8_000) (4_100 / 4_096 * 4_096) state
          ≡ true)
        × (unmap_range simple_lock pmm 4_100 8_000 0 state
            ≡ done map_success (record t { modifying_page_tables = false }))
        × AreUnmapped (4_100 / 4_096 * 4_096) (bytes_to_pages 8_000) locked t)
unmap_range-AreUnmapped_example =
    unmap_range-AreUnmapped simple_lock pmm 4_100 8_000 0 state true refl refl two_pages

abbrev empty : Paging Bool ℕ
empty = state_of false (λ _. false)

setup_paging-IsBooted_example :
    (t : Paging Bool ℕ) × (setup_paging simple_lock tables 4_027_576_320 1_048_576 4_027_580_416
        4_031_774_720 empty
      ≡ done 0 (record t { modifying_page_tables = false }))
    × IsBooted (4_027_580_416 / 4_096 * 4_096) 4_031_774_720 empty t
setup_paging-IsBooted_example =
    setup_paging-IsBooted simple_lock tables 4_027_576_320 1_048_576 4_027_580_416 4_031_774_720
      empty true refl refl (omega arith) (omega arith) (omega arith) (omega arith)

abbrev allocated : Paging Bool ℕ
allocated = record locked { pmm = 1 }
