-- ===== src/PhysMem/Headers.antt =====
-- system/kernel/kernel/phys_mem.cpp: finding, claiming, creating and splitting headers.
use feline_os.Base.{
  ℕ, zero, suc, ◌+◌, ◌*◌, Bool, true, false, not, ◌&&◌, ◌||◌, ltb, leb, ◌==◌, if◌then◌else◌, wrap32,
}
use feline_os.Run.{Cmd, stuck, pure, ◌>>=◌, ◌>>◌, get, modify, assert}
use feline_os.PhysMem.{
  PhysMemHeader, Pmm, Vmm, headers_per_chunk, sizeof_header_list, null, load, store, page_add,
  page_sub,
}

unfoldable pub new_chunk_header : PhysMemHeader
new_chunk_header = record {
  next = null;
  prev = null;
  memory = 0;
  size = 0;
  in_use = true;
  canary0 = 0xCD;
  canary1 = 0xEF;
  header_in_use = false;
}

-- The loop that initialises the `n` headers from slot `first` on.
unfoldable pub init_chunk : ℕ → ℕ → (ℕ → PhysMemHeader) → ℕ → PhysMemHeader
init_chunk n first headers p =
    if leb first p && ltb p (first + n) then new_chunk_header else headers p

module _ {L V : Type 0} where
  -- `assert` on both bytes of the canary.
  abbrev pub assert_canary : PhysMemHeader → Cmd (Pmm L V) (Unit {0})
  assert_canary h = do assert (h.canary0 == 0xCD); assert (h.canary1 == 0xEF)

  unfoldable pub find_free_pages : ℕ → ℕ → ℕ → Cmd (Pmm L V) ℕ
  find_free_pages zero len cur_header = λ _. stuck
  find_free_pages (suc fuel) len cur_header = if cur_header == null then pure null else do
    h ← load cur_header
    assert h.header_in_use
    if not h.in_use && leb len h.size then pure cur_header else find_free_pages fuel len h.next

  unfoldable pub find_header_for_page : ℕ → ℕ → ℕ → ℕ → Cmd (Pmm L V) ℕ
  find_header_for_page zero addr len cur_header = λ _. stuck
  find_header_for_page (suc fuel) addr len cur_header = if cur_header == null then pure null else do
    h ← load cur_header
    assert h.header_in_use
    if leb h.memory addr && leb addr (wrap32 (h.memory + h.size))
        then (if h.in_use || ltb h.size len then pure null else pure cur_header)
        else find_header_for_page fuel addr len h.next

  unfoldable pub internal_claim_mem_area : ℕ → Cmd (Pmm L V) (Unit {0})
  internal_claim_mem_area header = do
    h ← load header
    assert h.header_in_use
    assert (not h.in_use)
    assert_canary h
    store header (record h { in_use = true })

  -- The loop over the headers of a chunk and of those behind it: `n` slots from `header` on.
  unfoldable pub scan_headers : ℕ → ℕ → Cmd (Pmm L V) ℕ
  scan_headers zero header = pure null
  scan_headers (suc n) header = do
    h ← load header
    if h.header_in_use
        then scan_headers n (header + 1)
        else do assert_canary h; store header (record h { header_in_use = true }); pure header

  -- Whether there is a new chunk. `find_free_pages(1, first_fit)` makes the page 0 of the number 1.
  unfoldable pub get_header_chunk : Vmm V → ℕ → Cmd (Pmm L V) Bool
  unfolding find_free_pages internal_claim_mem_area init_chunk
  get_header_chunk vmm fuel = do
    s ← get
    header ← find_free_pages fuel 0 s.first_header
    if header == null then pure false else do
      internal_claim_mem_area header
      h ← load header
      s' ← get
      let (mapped, v) = vmm.map_range h.memory sizeof_header_list s'.vmm
      modify (λ t. record t { vmm = v })
      if mapped
          then (do
            modify (λ t. record t {
              headers =
                  init_chunk headers_per_chunk (t.num_chunks * headers_per_chunk + 1) t.headers;
              headers_allocated = t.headers_allocated + headers_per_chunk;
              num_chunks = t.num_chunks + 1;
            })
            pure true)
          else do store header (record h { in_use = false }); pure false

  unfoldable pub get_new_header : Vmm V → ℕ → Cmd (Pmm L V) ℕ
  unfolding scan_headers get_header_chunk
  get_new_header vmm fuel = do
    s ← get
    assert (leb s.headers_in_use s.headers_allocated)
    if leb s.headers_allocated (s.headers_in_use + 1)
        then (do
          got ← get_header_chunk vmm fuel
          if got
              then scan_headers headers_per_chunk (s.num_chunks * headers_per_chunk + 1)
              else pure null)
        else scan_headers (s.num_chunks * headers_per_chunk) 1

  -- The links that `split_header_at_len` sets once it has the new header `temp`.
  unfoldable pub link_split : ℕ → ℕ → ℕ → Cmd (Pmm L V) (Unit {0})
  link_split header temp len = do
    old ← load temp
    assert_canary old
    h ← load header
    memory ← page_add h.memory len
    size ← page_sub h.size len
    store temp (record {
      next = h.next;
      prev = header;
      memory = memory;
      size = size;
      in_use = false;
      canary0 = 0xCD;
      canary1 = 0xEF;
      header_in_use = true;
    })
    modify (λ s. record s { headers_in_use = s.headers_in_use + 1 })
    if h.next == null then pure tt else do n ← load h.next; store h.next (record n { prev = temp })
    h' ← load header
    t ← load temp
    size' ← page_sub h'.size t.size
    store header (record h' { next = temp; size = size' })

  unfoldable pub split_header_at_len : Vmm V → ℕ → ℕ → ℕ → Cmd (Pmm L V) (Unit {0})
  unfolding get_new_header link_split
  split_header_at_len vmm fuel header len = do
    h ← load header
    assert h.header_in_use
    assert h.in_use
    assert_canary h
    assert (leb len h.size)
    if h.size == len then pure tt else do
      temp ← get_new_header vmm fuel
      if temp == null then pure tt else link_split header temp len
