-- ===== src/Malloc.antt =====
-- system/libc/stdlib/malloc_free.cpp, as it is built into the kernel. A header is a record at its address,
-- the null pointer is 0, and `sizeof(Header)` is 16. `get_mem` and `free_mem` are parameters: the kernel's
-- memory is behind them. Of the memory that is handed out only the headers are kept, so the `memset` of
-- freed bytes has no state here.
pub mod Free
pub mod Split
pub mod Large
pub mod Fit
pub mod Reject
use feline_os.Base.{
  ℕ, zero, suc, ◌+◌, ◌-◌, ◌*◌, ◌/◌, Bool, true, false, none, some, not, ◌&&◌, ◌||◌, ltb, leb, ◌==◌,
  if◌then◌else◌, wrap32,
}
use feline_os.Run.{Cmd, done, aborted, stuck, pure, ◌>>=◌, ◌>>◌, abort, get, modify}
use feline_os.Feline.{round_to_multiple_of}
use feline_os.Spinlock.{LockOps}
use feline_os.Memory.{MemResults, mem_success}

abbrev pub default_memreserve_size : ℕ
default_memreserve_size = 4_096

abbrev pub sizeof_header : ℕ
sizeof_header = 16

pub record Header : Type 0 where
  pub next : ℕ
  pub prev : ℕ
  pub len : ℕ
  pub in_use : Bool
  pub start_of_allocation : Bool

pub record Heap (L M : Type 0) : Type 0 where
  pub allocation_lock : L
  pub headers : ℕ → Header
  pub first_header : ℕ
  -- The state behind `get_mem` and `free_mem`.
  pub memory : M

pub record Backend (M : Type 0) : Type 0 where
  pub get_mem : ℕ → Cmd M (MemResults × ℕ)
  pub free_mem : ℕ → ℕ → Cmd M MemResults

abbrev pub is_success : MemResults → Bool
is_success mem_success = true
is_success _ = false

module _ {L M : Type 0} where
  -- `*hdr`; a null pointer is not read.
  abbrev pub load : ℕ → Cmd (Heap L M) Header
  load hdr s = if hdr == 0 then aborted else done (s.headers hdr) s

  abbrev pub store : ℕ → Header → Cmd (Heap L M) (Unit {0})
  store hdr h s =
      if hdr == 0
      then aborted
      else done tt (record s { headers = λ q. if hdr == q then h else s.headers q })

  -- A store through a pointer that the code has tested: nothing where it is null.
  abbrev pub set_prev : ℕ → ℕ → Cmd (Heap L M) (Unit {0})
  set_prev hdr prev =
      if hdr == 0 then pure tt else (do h ← load hdr; store hdr (record h { prev = prev }))

  abbrev pub set_next : ℕ → ℕ → Cmd (Heap L M) (Unit {0})
  set_next hdr next =
      if hdr == 0 then pure tt else (do h ← load hdr; store hdr (record h { next = next }))

  abbrev pub with_memory : {A : Type 0} → Cmd M A → Cmd (Heap L M) A
  with_memory m s = elim (m s.memory) [
    | done a t ↦ done a (record s { memory = t })
    | aborted ↦ aborted
    | stuck ↦ stuck
  ]

  abbrev pub acquire_lock : LockOps L → Cmd (Heap L M) (Unit {0})
  acquire_lock ops s = elim (ops.acquire s.allocation_lock) [
    | none ↦ stuck
    | some l ↦ done tt (record s { allocation_lock = l })
  ]

  abbrev pub release_lock : LockOps L → Cmd (Heap L M) (Unit {0})
  release_lock ops s = done tt (record s { allocation_lock = ops.release s.allocation_lock })

  -- `split_header` after its tests, with `split` rounded.
  unfoldable pub insert_header : ℕ → ℕ → Cmd (Heap L M) (Unit {0})
  insert_header current_header split = do
    h ← load current_header
    let new_header = wrap32 (current_header + split + sizeof_header)
    store new_header (record {
      next = h.next;
      prev = current_header;
      len = wrap32 (h.len + 8_589_934_592 - split - sizeof_header);
      in_use = false;
      start_of_allocation = false;
    })
    set_prev h.next new_header
    h' ← load current_header
    store current_header (record h' { next = new_header; len = split })

  unfoldable pub split_header : ℕ → ℕ → Cmd (Heap L M) (Unit {0})
  unfolding round_to_multiple_of
  split_header current_header split = do
    h ← load current_header
    let split' = wrap32 (round_to_multiple_of split sizeof_header)
    if h.in_use
        then abort
        else if ltb h.len (wrap32 (split' + sizeof_header))
        then abort
        else insert_header current_header split'

  -- The new chunk, by the address that `get_mem` gave.
  unfoldable pub new_chunk : ℕ → ℕ → Cmd (Heap L M) ℕ
  new_chunk needed hdr = do
    store hdr (record {
      next = 0;
      prev = 0;
      len = default_memreserve_size - sizeof_header;
      in_use = false;
      start_of_allocation = true;
    })
    if ltb needed (default_memreserve_size - sizeof_header - sizeof_header)
        then split_header hdr needed
        else pure tt
    pure hdr

  unfoldable pub allocate_more_mem : Backend M → ℕ → Cmd (Heap L M) ℕ
  unfolding round_to_multiple_of
  allocate_more_mem backend needed = do
    (result, hdr) ← with_memory (
        backend.get_mem
          (wrap32 (round_to_multiple_of (wrap32 (needed + sizeof_header)) default_memreserve_size)))
    if is_success result then new_chunk needed hdr else abort

  unfoldable pub return_mem : Backend M → ℕ → Cmd (Heap L M) (Unit {0})
  return_mem backend hdr = do
    h ← load hdr
    result ← with_memory (backend.free_mem hdr (wrap32 (h.len + sizeof_header)))
    if is_success result then pure tt else abort

  -- The loop of `malloc`: the first header from `hdr` on that is free and long enough.
  unfoldable pub find_header : Backend M → ℕ → ℕ → ℕ → Cmd (Heap L M) ℕ
  find_header backend size zero hdr = λ _. stuck
  find_header backend size (suc fuel) hdr = do
    h ← load hdr
    if h.in_use || ltb h.len size
        then if h.next == 0
          then (do
            new ← allocate_more_mem backend size
            set_next hdr new
            set_prev new hdr
            find_header backend size fuel new)
          else find_header backend size fuel h.next
        else pure hdr

  unfoldable pub malloc : LockOps L → Backend M → ℕ → ℕ → Cmd (Heap L M) ℕ
  malloc ops backend fuel size = do
    acquire_lock ops
    s ← get
    if s.first_header == 0
        then (do
          first ← allocate_more_mem backend size
          modify (λ t. record t { first_header = first }))
        else pure tt
    t ← get
    hdr ← find_header backend size fuel t.first_header
    h ← load hdr
    if ltb (wrap32 (size + sizeof_header)) h.len then split_header hdr size else pure tt
    h' ← load hdr
    store hdr (record h' { in_use = true })
    release_lock ops
    pure (wrap32 (hdr + sizeof_header))
