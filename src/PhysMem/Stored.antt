-- ===== src/PhysMem/Stored.antt =====
-- What the two halves of `merge_adjacent_headers` store.
use feline_os.Base.{
  ℕ, ◌+◌, ◌-◌, ◌<◌, ◌≡◌, ◌≢◌, ap, ◌∙◌, fun_ext, false, arith, ◌==◌, uintptr_max, if◌then◌else◌,
}
use feline_os.Run.{done}
use feline_os.Page.{add_assign}
use feline_os.PhysMem.{Pmm, null, update}
use feline_os.PhysMem.Area.{merge_next, merge_prev}
use feline_os.PhysMem.Chain.{Headers}
use feline_os.PhysMem.Merge.{merged}

-- The headers as `merge_next` and `merge_prev` leave them, store by store.
pub next_stored : Headers → ℕ → Headers
next_stored f a =
    let h = f a in
    let n = f h.next in
    let f1 = update f h.next (record n { header_in_use = false }) in
    let f2 = update f1 a (record h { size = h.size + n.size }) in
    let f3 = if n.next == null then f2 else update f2 n.next (record (f2 n.next) { prev = a }) in
    update f3 a (record (f3 a) { next = n.next })

pub next_stored-merged :
    (f : Headers) (a : ℕ)
    → a ≢ (f a).next
    → (f (f a).next).next ≢ a
    → (f (f a).next).next ≢ (f a).next
    → next_stored f a ≡ merged f a (f a).next
unfolding next_stored merged update
next_stored-merged f a ne na nb = fun_ext (λ q. ground arith)

pub prev_stored : Headers → ℕ → Headers
prev_stored f b =
    let h = f b in
    let p = f h.prev in
    let f1 = update f b (record h { header_in_use = false }) in
    let f2 = update f1 h.prev (record p { size = p.size + h.size; next = h.next }) in
    if h.next == null then f2 else update f2 h.next (record (f2 h.next) { prev = h.prev })

pub prev_stored-merged :
    (f : Headers) (b : ℕ)
    → (f b).prev ≢ b
    → (f b).next ≢ (f b).prev
    → (f b).next ≢ b
    → prev_stored f b ≡ merged f (f b).prev b
unfolding prev_stored merged update
prev_stored-merged f b ne na nb = fun_ext (λ q. ground arith)

module _ {L V : Type 0} where
  pub merge_next-stored :
      (s : Pmm L V) (a : ℕ)
      → (s.headers a).next ≢ 0
      → (s.headers (s.headers a).next).in_use ≡ false
      → (s.headers a).memory + (s.headers a).size ≡ (s.headers (s.headers a).next).memory
      → (s.headers a).memory + (s.headers a).size < uintptr_max
      → (s.headers (s.headers a).next).memory + (s.headers (s.headers a).next).size < uintptr_max
      → merge_next a s
        ≡ done tt
            (record s { headers = next_stored s.headers a; headers_in_use = s.headers_in_use - 1 })
  unfolding merge_next add_assign next_stored
  merge_next-stored s a nz free touch ba bb = ground arith

  pub merge_prev-stored :
      (s : Pmm L V) (b : ℕ)
      → (s.headers b).prev ≢ 0
      → (s.headers (s.headers b).prev).in_use ≡ false
      → (s.headers (s.headers b).prev).memory + (s.headers (s.headers b).prev).size
        ≡ (s.headers b).memory
      → (s.headers (s.headers b).prev).memory + (s.headers (s.headers b).prev).size < uintptr_max
      → (s.headers b).memory + (s.headers b).size < uintptr_max
      → merge_prev b s
        ≡ done tt
            (record s { headers = prev_stored s.headers b; headers_in_use = s.headers_in_use - 1 })
  unfolding merge_prev add_assign prev_stored
  merge_prev-stored s b nz free touch ba bb = ground arith

  pub merge_next-alone :
      (s : Pmm L V) (a : ℕ)
      → (s.headers a).memory + (s.headers a).size < uintptr_max
      → ((s.headers a).next ≢ 0
          → (s.headers (s.headers a).next).in_use ≡ false
          → (s.headers a).memory + (s.headers a).size ≢ (s.headers (s.headers a).next).memory)
      → merge_next a s ≡ done tt s
  unfolding merge_next add_assign
  merge_next-alone s a ba apart = ground arith

  pub merge_prev-alone :
      (s : Pmm L V) (b : ℕ)
      → ((s.headers b).prev ≢ 0
          → (s.headers (s.headers b).prev).memory + (s.headers (s.headers b).prev).size
            < uintptr_max)
      → ((s.headers b).prev ≢ 0
          → (s.headers (s.headers b).prev).in_use ≡ false
          → (s.headers (s.headers b).prev).memory + (s.headers (s.headers b).prev).size
            ≢ (s.headers b).memory)
      → merge_prev b s ≡ done tt s
  unfolding merge_prev add_assign
  merge_prev-alone s b ba apart = ground arith

  abbrev pub with_merged : Pmm L V → ℕ → ℕ → Pmm L V
  with_merged s a b = record s {
    headers = merged s.headers a b;
    headers_in_use = s.headers_in_use - 1;
  }

  -- Both halves merge `b` into `a`, the header before it.
  pub merge_next-merged :
      (s : Pmm L V) (a b : ℕ)
      → (s.headers a).next ≡ b
      → b ≢ 0
      → (s.headers b).in_use ≡ false
      → (s.headers a).memory + (s.headers a).size ≡ (s.headers b).memory
      → (s.headers a).memory + (s.headers a).size < uintptr_max
      → (s.headers b).memory + (s.headers b).size < uintptr_max
      → a ≢ b
      → ((s.headers b).next ≢ a) × ((s.headers b).next ≢ b)
      → merge_next a s ≡ done tt (with_merged s a b)
  merge_next-merged s a b e nz free touch ba bb ne nn =
      merge_next-stored s a (ground arith) (ground arith) (ground arith) ba (ground arith)
      ∙ ap (λ g. done tt (record s { headers = g; headers_in_use = s.headers_in_use - 1 }))
          (next_stored-merged s.headers a (ground arith) (ground arith) (ground arith)
            ∙ ap (merged s.headers a) e)

  pub merge_prev-merged :
      (s : Pmm L V) (a b : ℕ)
      → (s.headers b).prev ≡ a
      → a ≢ 0
      → (s.headers a).in_use ≡ false
      → (s.headers a).memory + (s.headers a).size ≡ (s.headers b).memory
      → (s.headers a).memory + (s.headers a).size < uintptr_max
      → (s.headers b).memory + (s.headers b).size < uintptr_max
      → a ≢ b
      → ((s.headers b).next ≢ a) × ((s.headers b).next ≢ b)
      → merge_prev b s ≡ done tt (with_merged s a b)
  merge_prev-merged s a b e nz free touch ba bb ne nn =
      merge_prev-stored s b (ground arith) (ground arith) (ground arith) (ground arith) bb
      ∙ ap (λ g. done tt (record s { headers = g; headers_in_use = s.headers_in_use - 1 }))
          (prev_stored-merged s.headers b (ground arith) (ground arith) (ground arith)
            ∙ ap (λ p. merged s.headers p b) e)
