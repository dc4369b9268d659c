-- ===== src/PhysMem/Start/Slots.antt =====
-- The slots of the first chunk, as the new header and the extended one leave them.
use feline_os.Base.{
  ℕ, ◌+◌, ◌-◌, ◌%◌, ◌≤◌, ◌<◌, ◌≡◌, inl, inr, true, false, some, arith, ltb, ◌==◌, Bool-cases,
  u32_mod, uintptr_max, if◌then◌else◌,
}
use feline_os.Feline.{min, max}
use feline_os.Page.{sub_assign}
use feline_os.PhysMem.{PhysMemHeader, update, page_int}
use feline_os.PhysMem.Chain.{Headers}
use feline_os.PhysMem.Start.{BootloaderMemRegion, Adding, extend, append}

-- Slot `j + 1` of `k` filled ones: linked to its neighbours, and its area ends in the address space.
pub record IsLinked (f : Headers) (k j : ℕ) : Type 0 where
  pub next : (f (j + 1)).next ≡ (if ltb (j + 1) k then j + 2 else 0)
  pub prev : (f (j + 1)).prev ≡ j
  pub used : (f (j + 1)).header_in_use ≡ true
  pub free : (f (j + 1)).in_use ≡ false
  pub canary0 : (f (j + 1)).canary0 ≡ 0xCD
  pub canary1 : (f (j + 1)).canary1 ≡ 0xEF
  pub bound : (f (j + 1)).memory + (f (j + 1)).size < uintptr_max
  pub whole : ((f (j + 1)).memory + (f (j + 1)).size) % 4_096 ≡ 0

pub record IsFresh (f : Headers) (j : ℕ) : Type 0 where
  pub next : (f (j + 1)).next ≡ 0
  pub prev : (f (j + 1)).prev ≡ 0
  pub canary0 : (f (j + 1)).canary0 ≡ 0xCD
  pub canary1 : (f (j + 1)).canary1 ≡ 0xEF

-- The first `k` slots of the chunk are filled.
pub record IsFilled (f : Headers) (k : ℕ) : Type 0 where
  pub linked : (j : ℕ) → j < k → IsLinked f k j
  pub fresh : (j : ℕ) → k ≤ j → j < 146 → IsFresh f j

append-linked :
    (r : BootloaderMemRegion) (s : Adding)
    → r.addr + r.len < u32_mod
    → s.cur_header_offset < 146
    → IsFilled s.headers s.cur_header_offset
    → (j : ℕ) → j < s.cur_header_offset + 1
    → IsLinked (append r s).headers (s.cur_header_offset + 1) j
unfolding append update
append-linked r s small room v j lt = elim (Bool-cases (j == s.cur_header_offset)) [
  | inl here ↦
      let w = v.fresh j (ground arith) (ground arith) in
      record {
        next = ground (arith, w.next);
        prev = ground (arith, w.prev);
        used = ground arith;
        free = ground arith;
        canary0 = ground (arith, w.canary0);
        canary1 = ground (arith, w.canary1);
        bound = ground arith;
        whole = ground arith;
      }
  | inr other ↦
      let w = v.linked j (ground arith) in
      record {
        next = ground (arith, w.next);
        prev = ground (arith, w.prev);
        used = ground (arith, w.used);
        free = ground (arith, w.free);
        canary0 = ground (arith, w.canary0);
        canary1 = ground (arith, w.canary1);
        bound = ground (arith, w.bound);
        whole = ground (arith, w.whole);
      }
]

pub append-IsFilled :
    (r : BootloaderMemRegion) (s : Adding)
    → r.addr + r.len < u32_mod
    → s.cur_header_offset < 146
    → IsFilled s.headers s.cur_header_offset
    → IsFilled (append r s).headers (s.cur_header_offset + 1)
unfolding append update
append-IsFilled r s small room v = record {
  linked = append-linked r s small room v;
  fresh = λ j le lt.
      let w = v.fresh j (omega arith) lt in
      record {
        next = ground (arith, w.next);
        prev = ground (arith, w.prev);
        canary0 = ground (arith, w.canary0);
        canary1 = ground (arith, w.canary1);
      };
}

pub append-same :
    (r : BootloaderMemRegion) (s : Adding) (j : ℕ)
    → j < s.cur_header_offset
    → (((append r s).headers (j + 1)).memory ≡ (s.headers (j + 1)).memory)
      × (((append r s).headers (j + 1)).size ≡ (s.headers (j + 1)).size)
unfolding append update
append-same r s j lt = (ground arith, ground arith)

pub append-new :
    (r : BootloaderMemRegion) (s : Adding)
    → (((append r s).headers (s.cur_header_offset + 1)).memory ≡ page_int r.addr)
      × (((append r s).headers (s.cur_header_offset + 1)).size ≡ page_int r.len)
unfolding append update
append-new r s = (ground arith, ground arith)

-- `n` bytes from `m` on take in the pages of the region and those of the header before.
pub record TakesIn (r : BootloaderMemRegion) (h : PhysMemHeader) (m n : ℕ) : Type 0 where
  pub bound : m + n < uintptr_max
  pub whole : (m + n) % 4_096 ≡ 0
  pub old_start : m ≤ h.memory
  pub old_end : h.memory + h.size ≤ m + n
  pub start : m ≤ page_int r.addr
  pub end : page_int r.addr + page_int r.len ≤ m + n

-- A header that the region extends.
pub extend-some :
    (r : BootloaderMemRegion) (h : PhysMemHeader)
    → r.addr + r.len < u32_mod
    → h.memory + h.size < uintptr_max
    → (h.memory + h.size) % 4_096 ≡ 0
    → (m n : ℕ) × (extend r h ≡ some (record h { memory = m; size = n })) × TakesIn r h m n
unfolding extend sub_assign min max
extend-some r h small bound whole = elim (Bool-cases (ltb h.memory r.addr)) [
  | inl p ↦ elim (Bool-cases (ltb (h.memory + h.size) (r.addr + r.len))) [
    | inl q ↦ (
      page_int h.memory,
      page_int (r.addr + r.len) - page_int h.memory,
      ground arith,
      record {
        bound = omega (arith, small, bound);
        whole = ground arith;
        old_start = ground arith;
        old_end = ground arith;
        start = ground arith;
        end = ground arith;
      },
    )
    | inr q ↦ (
      page_int h.memory,
      page_int (h.memory + h.size) - page_int h.memory,
      ground arith,
      record {
        bound = omega (arith, small, bound);
        whole = ground arith;
        old_start = ground arith;
        old_end = ground arith;
        start = ground arith;
        end = ground arith;
      },
    )
  ]
  | inr p ↦ elim (Bool-cases (ltb (h.memory + h.size) (r.addr + r.len))) [
    | inl q ↦ (
      page_int r.addr,
      page_int (r.addr + r.len) - page_int r.addr,
      ground arith,
      record {
        bound = omega (arith, small, bound);
        whole = ground arith;
        old_start = ground arith;
        old_end = ground arith;
        start = ground arith;
        end = ground arith;
      },
    )
    | inr q ↦ (
      page_int r.addr,
      page_int (h.memory + h.size) - page_int r.addr,
      ground arith,
      record {
        bound = omega (arith, small, bound);
        whole = ground arith;
        old_start = ground arith;
        old_end = ground arith;
        start = ground arith;
        end = ground arith;
      },
    )
  ]
]

pub resize-IsFilled :
    (r : BootloaderMemRegion) (f : Headers) (k i m n : ℕ)
    → i < k
    → TakesIn r (f (i + 1)) m n
    → IsFilled f k
    → IsFilled (update f (i + 1) (record (f (i + 1)) { memory = m; size = n })) k
unfolding update
resize-IsFilled r f k i m n lt takes v = record {
  linked = λ j le.
      let w = v.linked j le in
      let bound = takes.bound in
      let whole = takes.whole in
      record {
        next = ground (arith, w.next);
        prev = ground (arith, w.prev);
        used = ground (arith, w.used);
        free = ground (arith, w.free);
        canary0 = ground (arith, w.canary0);
        canary1 = ground (arith, w.canary1);
        bound = ground (arith, w.bound);
        whole = ground (arith, w.whole);
      };
  fresh = λ j le room.
      let w = v.fresh j le room in
      record {
        next = ground (arith, w.next);
        prev = ground (arith, w.prev);
        canary0 = ground (arith, w.canary0);
        canary1 = ground (arith, w.canary1);
      };
}

-- What an update to a size that takes in the old one does to each slot.
pub resize-grows :
    (r : BootloaderMemRegion) (f : Headers) (i j m n : ℕ)
    → TakesIn r (f (i + 1)) m n
    → let g = update f (i + 1) (record (f (i + 1)) { memory = m; size = n }) in
      ((g (j + 1)).memory ≤ (f (j + 1)).memory)
      × ((f (j + 1)).memory + (f (j + 1)).size ≤ (g (j + 1)).memory + (g (j + 1)).size)
unfolding update
resize-grows r f i j m n takes = elim (Bool-cases (j == i)) [
  | inl same ↦
      let e : j ≡ i = ground (arith, same) in
      rw e (ground (arith, takes.old_start), ground (arith, takes.old_end))
  | inr other ↦ (ground (arith, other), ground (arith, other))
]

pub resize-here :
    (f : Headers) (i m n : ℕ)
    → let g = update f (i + 1) (record (f (i + 1)) { memory = m; size = n }) in
      ((g (i + 1)).memory ≡ m) × ((g (i + 1)).size ≡ n)
unfolding update
resize-here f i m n = (ground arith, ground arith)
