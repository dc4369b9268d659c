-- ===== src/Malloc/Split.antt =====
-- How `split_header` divides the memory of a header.
use feline_os.Base.{
  ℕ, ◌+◌, ◌-◌, ◌≤◌, ◌<◌, ◌≡◌, ◌≢◌, inl, inr, refl, ap, sym, ◌∙◌, false, ltb, ◌==◌, if◌then◌else◌,
  arith, wrap32, u32_mod, Bool-cases,
}
use feline_os.Run.{done, bind-done, abort}
use feline_os.Feline.{round_to_multiple_of}
use feline_os.Malloc.{Header, Heap, load, store, set_prev, insert_header, split_header}

abbrev pub put : (ℕ → Header) → ℕ → Header → ℕ → Header
put f p h q = if p == q then h else f q

abbrev linked : (ℕ → Header) → ℕ → ℕ → ℕ → Header
linked f next new = if next == 0 then f else put f next (record (f next) { prev = new })

module _ {L M : Type 0} where
  -- `t` is `s` with the memory of header `p`, whose next one is `next`, divided after `split` bytes: the
  -- two parts and the new header take up exactly the bytes of the old part.
  pub record IsSplit (p split next : ℕ) (s t : Heap L M) : Type 0 where
    pub first : t.headers p ≡ record (s.headers p) { next = p + split + 16; len = split }
    pub second : t.headers (p + split + 16) ≡ record {
      next = next;
      prev = p;
      len = (s.headers p).len - split - 16;
      in_use = false;
      start_of_allocation = false;
    }
    pub exact : p + split + 16 + ((t.headers (p + split + 16)).len) ≡ p + (s.headers p).len
    pub back :
        t.headers next
        ≡ (if next == 0 then s.headers next else record (s.headers next) { prev = p + split + 16 })
    pub others : (q : ℕ) → q ≢ p → q ≢ p + split + 16 → q ≢ next → t.headers q ≡ s.headers q
    pub list_head : t.first_header ≡ s.first_header
    pub lock : t.allocation_lock ≡ s.allocation_lock
    pub behind : t.memory ≡ s.memory

  pub load-done : (p : ℕ) (s : Heap L M) → p ≢ 0 → load p s ≡ done (s.headers p) s
  load-done p s h = let e : (p == 0) ≡ false = ground arith in simp e refl

  pub store-done :
      (p : ℕ) (h : Header) (s : Heap L M)
      → p ≢ 0
      → store p h s ≡ done tt (record s { headers = put s.headers p h })
  store-done p h s ne = let e : (p == 0) ≡ false = ground arith in simp e refl

  set_prev-done :
      (p prev : ℕ) (s : Heap L M)
      → set_prev p prev s ≡ done tt (record s { headers = linked s.headers p prev })
  set_prev-done p prev s = elim (Bool-cases (p == 0)) [
    | inl e ↦ simp e refl
    | inr e ↦
        let ne : p ≢ 0 = ground arith in
        simp e (
          bind-done (load p) _ s s (s.headers p) (load-done p s ne)
          ∙ store-done p (record (s.headers p) { prev = prev }) s ne)
  ]

  insert_header-done :
      (p split : ℕ) (s : Heap L M)
      → p ≢ 0
      → p + split + 16 < u32_mod
      → split + 16 ≤ (s.headers p).len
      → (s.headers p).len < u32_mod
      → let h = s.headers p in
        let new = p + split + 16 in
        let f1 = put s.headers new (record {
          next = h.next;
          prev = p;
          len = h.len - split - 16;
          in_use = false;
          start_of_allocation = false;
        }) in
        let f2 = linked f1 h.next new in
        insert_header p split s
        ≡ done tt (record s { headers = put f2 p (record (f2 p) { next = new; len = split }) })
  unfolding insert_header
  insert_header-done p split s ne lt room top =
      let h = s.headers p in
      let new = p + split + 16 in
      let n : Header = record {
        next = h.next;
        prev = p;
        len = h.len - split - 16;
        in_use = false;
        start_of_allocation = false;
      } in
      let f1 = put s.headers new n in
      let f2 = linked f1 h.next new in
      let s1 = record s { headers = f1 } in
      let s2 = record s { headers = f2 } in
      let word : wrap32 new ≡ new = omega arith in
      let rest : wrap32 (h.len + 8_589_934_592 - split - 16) ≡ h.len - split - 16 = omega arith in
      bind-done (load p) _ s s h (load-done p s ne)
      ∙ simp (word, rest)
          (bind-done (store new n) _ s s1 tt (store-done new n s (omega arith))
            ∙ bind-done (set_prev h.next new) _ s1 s2 tt (set_prev-done h.next new s1)
            ∙ bind-done (load p) _ s2 s2 (f2 p) (load-done p s2 ne)
            ∙ store-done p (record (f2 p) { next = new; len = split }) s2 ne)

  -- A free header, with room for its rounded length and a new header below 2 ^ 32, and with a next header
  -- that is neither of the two: `split_header` ends, and divides it.
  pub split_header-IsSplit :
      (p split r : ℕ) (s : Heap L M)
      → p ≢ 0
      → r ≡ wrap32 (round_to_multiple_of split 16)
      → (s.headers p).in_use ≡ false
      → r + 16 ≤ (s.headers p).len
      → p + (s.headers p).len + 16 < u32_mod
      → (s.headers p).next ≢ p
      → (s.headers p).next ≢ p + r + 16
      → (t : Heap L M) × (split_header p split s ≡ done tt t) × IsSplit p r (s.headers p).next s t
  unfolding split_header
  split_header-IsSplit p split r s ne rounded free room top ne_p ne_new =
      let h = s.headers p in
      let new = p + r + 16 in
      let f1 = put s.headers new (record {
        next = h.next;
        prev = p;
        len = h.len - r - 16;
        in_use = false;
        start_of_allocation = false;
      }) in
      let f2 = linked f1 h.next new in
      let t = record s { headers = put f2 p (record (f2 p) { next = new; len = r }) } in
      let long : ltb h.len (wrap32 (r + 16)) ≡ false = ground arith in
      let run = insert_header-done p r s ne (omega arith) room (omega arith) in
      (
        t,
        bind-done (load p) _ s s h (load-done p s ne)
            ∙ ap
                (λ x.
                  (if h.in_use
                      then abort
                      else if ltb h.len (wrap32 (x + 16))
                      then abort
                      else insert_header p x)
                    s)
                (sym rounded)
            ∙ simp (free, long) run,
        record {
          first = ground arith;
          second = ground arith;
          exact = ground arith;
          back = ground arith;
          others = λ q a b c. ground arith;
          list_head = refl;
          lock = refl;
          behind = refl;
        },
      )
