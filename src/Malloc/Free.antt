-- ===== src/Malloc/Free.antt =====
-- system/libc/stdlib/malloc_free.cpp: `free`.
use feline_os.Base.{
  ℕ, zero, suc, ◌+◌, ◌-◌, ◌*◌, ◌/◌, true, false, not, ◌&&◌, ◌||◌, leb, ◌==◌, if◌then◌else◌, wrap32,
}
use feline_os.Run.{Cmd, stuck, pure, ◌>>=◌, ◌>>◌, abort, get, modify}
use feline_os.Spinlock.{LockOps}
use feline_os.Malloc.{
  Heap, Backend, default_memreserve_size, sizeof_header, load, store, set_prev, set_next,
  acquire_lock, release_lock, return_mem,
}

module _ {L M : Type 0} where
  -- The loop of `free`: the header before `ptr`, or the last one.
  unfoldable pub find_pointer : ℕ → ℕ → ℕ → Cmd (Heap L M) ℕ
  find_pointer zero ptr hdr = λ _. stuck
  find_pointer (suc fuel) ptr hdr = do
    h ← load hdr
    if not (h.next == 0) && not (wrap32 (hdr + sizeof_header) == ptr)
        then find_pointer fuel ptr h.next
        else pure hdr

  -- Take the next header into this one, where it is free, adjacent and of the same allocation.
  unfoldable pub merge_next : ℕ → Cmd (Heap L M) (Unit {0})
  merge_next hdr = do
    h ← load hdr
    if h.next == 0 then pure tt else (do
      n ← load h.next
      if not n.in_use && not n.start_of_allocation && h.next == wrap32 (hdr + h.len + sizeof_header)
          then (do
            set_prev n.next hdr
            store hdr (record h { len = wrap32 (h.len + n.len + sizeof_header); next = n.next }))
          else pure tt)

  -- Give this header to the one before, on the same terms; the result is the header that is left.
  unfoldable pub merge_prev : ℕ → Cmd (Heap L M) ℕ
  merge_prev hdr = do
    h ← load hdr
    if h.start_of_allocation || h.prev == 0 then pure hdr else (do
      p ← load h.prev
      if not p.in_use && hdr == wrap32 (h.prev + p.len + sizeof_header)
          then (do
            store h.prev (record p { next = h.next; len = wrap32 (p.len + h.len + sizeof_header) })
            set_prev h.next h.prev
            pure h.prev)
          else pure hdr)

  -- The last loop of `free`, which runs at most once: give the first page of a free allocation back.
  unfoldable pub return_page : Backend M → ℕ → Cmd (Heap L M) (Unit {0})
  return_page backend hdr = do
    h ← load hdr
    s ← get
    if h.start_of_allocation && leb (default_memreserve_size - sizeof_header) h.len
        then if h.len == default_memreserve_size - sizeof_header
          then (do
            set_next h.prev h.next
            set_prev h.next h.prev
            if s.first_header == hdr
                then modify (λ t. record t { first_header = h.next })
                else pure tt
            return_mem backend hdr)
          else (do
            -- `hdr += 4096 / sizeof(Header)` is by 256 headers.
            let rest = wrap32 (hdr + default_memreserve_size / sizeof_header * sizeof_header)
            store rest (record {
              next = h.next;
              prev = h.prev;
              len = wrap32 (h.len + 4_294_967_296 - default_memreserve_size);
              in_use = false;
              start_of_allocation = true;
            })
            set_next h.prev rest
            set_prev h.next rest
            if s.first_header == hdr
                then modify (λ t. record t { first_header = rest })
                else pure tt
            return_mem backend hdr)
        else pure tt

  unfoldable pub free : LockOps L → Backend M → ℕ → ℕ → Cmd (Heap L M) (Unit {0})
  free ops backend fuel ptr = if ptr == 0 then pure tt else do
    acquire_lock ops
    s ← get
    if s.first_header == 0 then abort else pure tt
    hdr ← find_pointer fuel ptr s.first_header
    h ← load hdr
    if not (wrap32 (hdr + sizeof_header) == ptr) then abort else pure tt
    if not h.in_use then abort else pure tt
    store hdr (record h { in_use = false })
    merge_next hdr
    left ← merge_prev hdr
    return_page backend left
    release_lock ops
