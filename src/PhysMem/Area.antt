-- ===== src/PhysMem/Area.antt =====
-- system/kernel/kernel/phys_mem.cpp: the operations on areas of physical memory. `fuel` bounds the walk
-- along the headers.
use feline_os.Base.{
  ℕ, zero, suc, ◌+◌, ◌-◌, false, not, ◌&&◌, ltb, leb, ◌==◌, if◌then◌else◌, wrap32, u32_mod,
}
use feline_os.Feline.{overlap}
use feline_os.Run.{Cmd, stuck, pure, ◌>>=◌, ◌>>◌, abort, get, modify, assert}
use feline_os.Spinlock.{LockOps}
use feline_os.PhysMem.{
  Pmm, Vmm, PmmResults, pmm_success, pmm_invalid, pmm_nomem, null, load, store, page_add,
  acquire_lock, release_lock, round_up_to_page, page_int,
}
use feline_os.PhysMem.Headers.{
  find_free_pages, find_header_for_page, internal_claim_mem_area, split_header_at_len,
}

module _ {L V : Type 0} where
  -- The first half of `merge_adjacent_headers`: the header behind this one.
  unfoldable pub merge_next : ℕ → Cmd (Pmm L V) (Unit {0})
  merge_next header = do
    h ← load header
    if h.next == null then pure tt else do
      n ← load h.next
      if n.in_use then pure tt else do
        end ← page_add h.memory h.size
        if not (end == n.memory) then pure tt else do
          store h.next (record n { header_in_use = false })
          size ← page_add h.size n.size
          store header (record h { size = size })
          if n.next == null
              then pure tt
              else do nn ← load n.next; store n.next (record nn { prev = header })
          h' ← load header
          store header (record h' { next = n.next })
          modify (λ s. record s { headers_in_use = s.headers_in_use - 1 })

  -- The second half: the header before this one.
  unfoldable pub merge_prev : ℕ → Cmd (Pmm L V) (Unit {0})
  merge_prev header = do
    h ← load header
    if h.prev == null then pure tt else do
      p ← load h.prev
      if p.in_use then pure tt else do
        end ← page_add p.memory p.size
        if not (end == h.memory) then pure tt else do
          store header (record h { header_in_use = false })
          size ← page_add p.size h.size
          store h.prev (record p { size = size; next = h.next })
          if h.next == null
              then pure tt
              else do n ← load h.next; store h.next (record n { prev = h.prev })
          modify (λ s. record s { headers_in_use = s.headers_in_use - 1 })

  unfoldable pub merge_adjacent_headers : ℕ → Cmd (Pmm L V) (Unit {0})
  unfolding merge_next merge_prev
  merge_adjacent_headers header = do merge_next header; merge_prev header

  -- The walk of `free_mem_area`: the header whose area holds the address, or null.
  unfoldable pub free_loop : ℕ → ℕ → ℕ → ℕ → Cmd (Pmm L V) PmmResults
  unfolding merge_adjacent_headers
  free_loop zero addr len cur_header = λ _. stuck
  free_loop (suc fuel) addr len cur_header = if cur_header == null then pure pmm_invalid else do
    h ← load cur_header
    assert h.header_in_use
    if leb h.memory addr && ltb addr (wrap32 (h.memory + h.size))
        then (if ltb (wrap32 (h.memory + h.size)) (wrap32 (addr + len))
            then abort
            else if not h.in_use
            then pure pmm_invalid
            else do
              store cur_header (record h { in_use = false })
              merge_adjacent_headers cur_header
              pure pmm_success)
        else free_loop fuel addr len h.next

  module _ (ops : LockOps L) (vmm : Vmm V) where
    -- `get_mem_area(addr, len)`: reserve at an address.
    unfoldable pub get_mem_area_at : ℕ → ℕ → ℕ → Cmd (Pmm L V) PmmResults
    unfolding find_header_for_page internal_claim_mem_area split_header_at_len round_up_to_page
    get_mem_area_at fuel addr len = do
      acquire_lock ops
      s ← get
      header ← find_header_for_page fuel addr len s.first_header
      if header == null then (do release_lock ops; pure pmm_nomem) else do
        internal_claim_mem_area header
        h ← load header
        if ltb addr h.memory
            then (do
              split_header_at_len vmm fuel header (page_int (wrap32 (addr + u32_mod - h.memory)))
              h' ← load header
              store header (record h' { in_use = false })
              internal_claim_mem_area h'.next
              split_header_at_len vmm fuel h'.next (round_up_to_page len))
            else split_header_at_len vmm fuel header (round_up_to_page len)
        release_lock ops
        pure pmm_success

    -- `get_mem_area(&addr, len)`: reserve anywhere. The address comes with success.
    unfoldable pub get_mem_area : ℕ → ℕ → Cmd (Pmm L V) (PmmResults × ℕ)
    unfolding find_free_pages internal_claim_mem_area split_header_at_len round_up_to_page
    get_mem_area fuel len = do
      acquire_lock ops
      s ← get
      header ← find_free_pages fuel (round_up_to_page len) s.first_header
      if header == null then (do release_lock ops; pure (pmm_nomem, 0)) else do
        internal_claim_mem_area header
        split_header_at_len vmm fuel header (round_up_to_page len)
        h ← load header
        release_lock ops
        pure (pmm_success, h.memory)

    unfoldable pub free_mem_area : ℕ → ℕ → ℕ → Cmd (Pmm L V) PmmResults
    unfolding free_loop
    free_mem_area fuel addr len = do
      acquire_lock ops
      s ← get
      result ← free_loop fuel addr len s.first_header
      release_lock ops
      pure result

  -- `ensure_not_allocatable`: the loop over the headers, from `cur_header` on.
  unfoldable pub ensure_loop : ℕ → ℕ → ℕ → ℕ → Cmd (Pmm L V) (Unit {0})
  unfolding overlap
  ensure_loop zero start end cur_header = λ _. stuck
  ensure_loop (suc fuel) start end cur_header = if cur_header == null then pure tt else do
    h ← load cur_header
    target_end ← page_add h.memory h.size
    if overlap (record { start = start; end = end }) (record { start = h.memory; end = target_end })
        then (if leb start h.memory && leb target_end end
            then (do
              store cur_header (record h { in_use = false })
              if h.next == null
                  then pure tt
                  else do n ← load h.next; store h.next (record n { prev = h.prev })
              if h.prev == null
                  then pure tt
                  else do p ← load h.prev; store h.prev (record p { next = h.next })
              h' ← load cur_header
              store cur_header (record h' { header_in_use = false }))
            else if leb start h.memory
            then store cur_header (record h {
              memory = page_int end;
              size = page_int (wrap32 (target_end + u32_mod - end));
            })
            else if leb target_end end
            then store cur_header
                (record h { size = page_int (wrap32 (start + u32_mod - h.memory)) })
            else abort)
        else pure tt
    h' ← load cur_header
    ensure_loop fuel start end h'.next

  unfoldable pub ensure_not_allocatable : ℕ → ℕ → ℕ → Cmd (Pmm L V) (Unit {0})
  unfolding ensure_loop
  ensure_not_allocatable fuel addr len = do
    s ← get
    ensure_loop fuel addr (wrap32 (addr + len)) s.first_header
