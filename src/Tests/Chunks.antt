-- ===== src/Tests/Chunks.antt =====
-- The theorems on system/libc/stdlib/malloc_free.cpp.
use feline_os.Base.{
  ◌≡◌, ◌≢◌, inl, inr, some, [], ◌∷◌, refl, Bool, true, false, if◌then◌else◌, ◌==◌, wrap32, arith,
}
use feline_os.Run.{done, aborted}
use feline_os.Feline.{round_to_multiple_of}
use feline_os.Memory.{mem_success}
use feline_os.Spinlock.{LockOps}
use feline_os.Malloc.{Heap, Backend, split_header, malloc}
use feline_os.Malloc.Free.{free}
use feline_os.Malloc.Fit.{IsPart, malloc-IsPart}
use feline_os.Malloc.Large.{malloc-never}
use feline_os.Malloc.Reject.{free_rejects}
use feline_os.Malloc.Split.{IsSplit, split_header-IsSplit}

-- One page at 65536 with one free header.
abbrev heap : Heap Bool (Unit {0})
heap = record {
  allocation_lock = true;
  headers = λ p. record {
    next = 0;
    prev = 0;
    len = if p == 65_536 then 4_080 else 0;
    in_use = false;
    start_of_allocation = true;
  };
  first_header = 65_536;
  memory = tt;
}

rounded : 112 ≡ wrap32 (round_to_multiple_of 100 16)
unfolding round_to_multiple_of
rounded = refl

split_header-IsSplit_example :
    (t : Heap Bool (Unit {0})) × (split_header 65_536 100 heap ≡ done tt t)
    × IsSplit 65_536 112 0 heap t
split_header-IsSplit_example =
    split_header-IsSplit 65_536 100 112 heap (omega arith) rounded refl (omega arith) (omega arith)
      (omega arith) (omega arith)

abbrev free_lock : LockOps Bool
free_lock = record {
  acquire = λ l. some true;
  release = λ l. false;
  try_acquire = λ l. (true, true);
}

-- A memory manager that gives the page at 131072.
abbrev one_page : Backend (Unit {0})
one_page = record {
  get_mem = λ len m. done (mem_success, 131_072) m;
  free_mem = λ addr len m. done mem_success m;
}

-- One page at 65536, of which the first 112 bytes are in use.
abbrev used : Heap Bool (Unit {0})
used = record {
  allocation_lock = false;
  headers = λ p. record {
    next = if p == 65_536 then 65_664 else 0;
    prev = if p == 65_664 then 65_536 else 0;
    len = if p == 65_536 then 112 else 3_952;
    in_use = p == 65_536;
    start_of_allocation = p == 65_536;
  };
  first_header = 65_536;
  memory = tt;
}

malloc-IsPart_example :
    (t : Heap Bool (Unit {0})) × (malloc free_lock one_page 2 100 used ≡ done 65_680 t)
    × ((t.headers 65_664).in_use ≡ true)
    × IsPart 100 65_664 (record used { allocation_lock = false }) t
malloc-IsPart_example =
    malloc-IsPart 100 free_lock one_page 2 (65_536 ∷ []) 65_664 true used refl (omega arith)
      (refl, omega arith, refl, omega arith, refl) (omega arith) (omega arith) refl refl
      (omega arith) (inl (omega arith))

-- No allocation yet.
abbrev empty_heap : Heap Bool (Unit {0})
empty_heap = record {
  allocation_lock = false;
  headers =
      λ p. record { next = 0; prev = 0; len = 0; in_use = false; start_of_allocation = false };
  first_header = 0;
  memory = tt;
}

malloc-never_example : malloc free_lock one_page 100 5_000 empty_heap ≢ done 131_088 used
malloc-never_example =
    malloc-never 5_000 (omega arith) free_lock one_page 100 empty_heap (λ q. refl) 131_088 used

free_rejects_example : free free_lock one_page 2 65_680 used ≡ aborted
free_rejects_example =
    free_rejects free_lock one_page 2 65_680 (65_536 ∷ []) 65_664 true used (omega arith) refl
      (omega arith)
      (inr (
        omega arith,
        (refl, omega arith, omega arith, omega arith, (refl, omega arith, inl refl)),
        inr refl,
      ))
