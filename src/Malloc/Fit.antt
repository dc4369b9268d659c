-- ===== src/Malloc/Fit.antt =====
-- `malloc` where there is a header that fits.
use feline_os.Base.{
  ℕ, zero, suc, ◌+◌, ◌*◌, ◌/◌, ◌%◌, ◌≤◌, ◌<◌, ◌≡◌, ◌≢◌, ◌⊎◌, inl, inr, refl, sym, ap, subst, ◌∙◌,
  Bool, true, false, List, [], ◌∷◌, length, none, some, ltb, ◌==◌, if◌then◌else◌, arith, wrap32,
  u32_mod, Bool-cases,
}
use feline_os.Run.{Run, Cmd, done, stuck, pure, ◌>>=◌, ◌>>◌, bind-done}
use feline_os.Feline.{round_to_multiple_of}
use feline_os.Spinlock.{LockOps}
use feline_os.Malloc.{
  Header, Heap, Backend, load, store, acquire_lock, release_lock, split_header, find_header, malloc,
}
use feline_os.Malloc.Split.{IsSplit, put, load-done, store-done, split_header-IsSplit}
use feline_os.Malloc.Large.{passed}

is_false : (n : ℕ) → n ≢ 0 → (n == 0) ≡ false
is_false n ne = ground (arith, ne)

rounded :
    (size len : ℕ)
    → size + 16 < len
    → len < u32_mod
    → (size + 15) / 16 * 16 ≡ wrap32 (round_to_multiple_of size 16)
unfolding round_to_multiple_of
rounded size len short top = ground arith

put_self : (f : ℕ → Header) (p : ℕ) (h : Header) → put f p h p ≡ h
put_self f p h = ground arith

put_other : (f : ℕ → Header) (p q : ℕ) (h : Header) → q ≢ p → put f p h q ≡ f q
put_other f p q h ne = ground (arith, ne)

-- A store to the `prev` of a header leaves the rest.
kept :
    (b : Bool) (h : Header) (new : ℕ) (g : Header)
    → g ≡ (if b then h else record h { prev = new })
    → (g.in_use ≡ h.in_use) × (g.len ≡ h.len) × (g.next ≡ h.next)
kept true h new g e =
    (ap (λ (x : Header). x.in_use) e, ap (λ (x : Header). x.len) e, ap (λ (x : Header). x.next) e)
kept false h new g e =
    (ap (λ (x : Header). x.in_use) e, ap (λ (x : Header). x.len) e, ap (λ (x : Header). x.next) e)

-- From `hdr` on the headers `before` are passed over, and `target` is the one behind.
abbrev pub Leads : ℕ → (ℕ → Header) → ℕ → List ℕ → ℕ → Type 0
Leads size f hdr [] target = hdr ≡ target
Leads size f hdr (p ∷ ps) target =
    (hdr ≡ p)
    × (p ≢ 0)
    × (passed size (f p) ≡ true)
    × ((f p).next ≢ 0)
    × Leads size f (f p).next ps target

module _ {L M : Type 0} (size : ℕ) where
  find_header-target :
      (backend : Backend M) (fuel hdr : ℕ) (before : List ℕ) (target : ℕ) (s : Heap L M)
      → Leads size s.headers hdr before target
      → target ≢ 0
      → passed size (s.headers target) ≡ false
      → length before < fuel
      → find_header backend size fuel hdr s ≡ done target s
  unfolding find_header
  find_header-target backend zero hdr before target s leads ne fits enough = absurd (omega arith)
  find_header-target backend (suc fuel) hdr [] target s leads ne fits enough =
      ap (λ q. find_header backend size (suc fuel) q s) leads
      ∙ bind-done (load target) _ s s (s.headers target) (load-done target s ne)
      ∙ simp fits refl
  find_header-target backend (suc fuel) hdr (p ∷ ps) target s leads ne fits enough =
      let more : ((s.headers p).next == 0) ≡ false = is_false ((s.headers p).next) leads.3 in
      ap (λ q. find_header backend size (suc fuel) q s) leads.0
      ∙ bind-done (load p) _ s s (s.headers p) (load-done p s leads.1)
      ∙ simp (leads.2, more)
          (find_header-target backend fuel (s.headers p).next ps target s leads.4 ne fits
            (omega arith))

  -- `t` is `s` with all or the first part of header `p` for an allocation of `size` bytes.
  pub record IsPart (p : ℕ) (s t : Heap L M) : Type 0 where
    pub long : size ≤ (t.headers p).len
    pub part :
        ((t.headers p).len ≡ (s.headers p).len)
        ⊎ ((t.headers (p + (t.headers p).len + 16)).in_use ≡ false)
          × (p + (t.headers p).len + 16 + (t.headers (p + (t.headers p).len + 16)).len
              ≡ p + (s.headers p).len)
    pub others :
        (q : ℕ)
        → q ≢ p
        → (q ≢ p + (t.headers p).len + 16) ⊎ ((t.headers p).len ≡ (s.headers p).len)
        → ((t.headers q).in_use ≡ (s.headers q).in_use)
          × ((t.headers q).len ≡ (s.headers q).len)
          × ((t.headers q).next ≡ (s.headers q).next)
    pub list_head : t.first_header ≡ s.first_header
    pub lock : t.allocation_lock ≡ s.allocation_lock
    pub behind : t.memory ≡ s.memory

  module _ (p : ℕ) (s : Heap L M) (ne : p ≢ 0) (fits : passed size (s.headers p) ≡ false)
      (even : (s.headers p).len % 16 ≡ 0) (top : p + (s.headers p).len + 16 < u32_mod)
      (outside : ((s.headers p).next < p) ⊎ (p + (s.headers p).len + 16 ≤ (s.headers p).next)) where
    maybe_split : Cmd (Heap L M) (Unit {0})
    maybe_split =
        if ltb (wrap32 (size + 16)) (s.headers p).len then split_header p size else pure tt

    others_kept :
        (r : ℕ) (t : Heap L M)
        → IsSplit p r (s.headers p).next s t
        → (q : ℕ) → q ≢ p
        → q ≢ p + r + 16
        → ((t.headers q).in_use ≡ (s.headers q).in_use)
          × ((t.headers q).len ≡ (s.headers q).len)
          × ((t.headers q).next ≡ (s.headers q).next)
    others_kept r t d q a b = elim (Bool-cases (q == (s.headers p).next)) [
      | inl e ↦
          let same : q ≡ (s.headers p).next = ground arith in
          subst
            (λ x.
              ((t.headers x).in_use ≡ (s.headers x).in_use)
              × ((t.headers x).len ≡ (s.headers x).len)
              × ((t.headers x).next ≡ (s.headers x).next))
            (sym same)
            (kept ((s.headers p).next == 0) (s.headers (s.headers p).next) (p + r + 16)
              (t.headers (s.headers p).next) d.back)
      | inr e ↦ kept true (s.headers q) 0 (t.headers q) (d.others q a b (λ f. ground arith))
    ]

    IsSplit-IsPart :
        (r : ℕ) (t : Heap L M) → size ≤ r → IsSplit p r (s.headers p).next s t → IsPart p s t
    IsSplit-IsPart r t le d =
        let len_r : (t.headers p).len ≡ r = ap (λ (h : Header). h.len) d.first in
        let at : p + (t.headers p).len + 16 ≡ p + r + 16 = omega arith in
        let len_at : (t.headers (p + (t.headers p).len + 16)).len ≡ (t.headers (p + r + 16)).len =
          ap (λ q. (t.headers q).len) at in
        record {
          long = omega arith;
          part = inr (
            ap (λ q. (t.headers q).in_use) at ∙ ap (λ (h : Header). h.in_use) d.second,
            omega (arith, d.exact),
          );
          others = λ q a b. elim b [
            | inl apart ↦ others_kept r t d q a (λ f. apart (f ∙ sym at))
            | inr whole ↦ absurd (omega (arith, d.exact))
          ];
          list_head = d.list_head;
          lock = d.lock;
          behind = d.behind;
        }

    maybe_split-IsPart : (t : Heap L M) × (maybe_split s ≡ done tt t) × IsPart p s t
    unfolding maybe_split
    maybe_split-IsPart = elim (Bool-cases (ltb (wrap32 (size + 16)) (s.headers p).len)) [
      | inl room ↦
          let (t, run, d) =
            split_header-IsSplit p size ((size + 15) / 16 * 16) s ne
              (rounded size (s.headers p).len (ground arith) (omega arith)) (ground arith)
              (ground arith) (omega arith) (ground arith) (ground arith) in
          (t, simp room run, IsSplit-IsPart ((size + 15) / 16 * 16) t (omega arith) d)
      | inr tight ↦ (
        s,
        simp tight refl,
        record {
          long = ground arith;
          part = inl refl;
          others = λ q a b. (refl, refl, refl);
          list_head = refl;
          lock = refl;
          behind = refl;
        },
      )
    ]

  -- Mark the header, and release the lock.
  abbrev marked : ℕ → L → Heap L M → Heap L M
  marked p l u = record u {
    headers = put u.headers p (record (u.headers p) { in_use = true });
    allocation_lock = l;
  }

  marked-IsPart :
      (p : ℕ) (l l' : L) (s u : Heap L M)
      → IsPart p (record s { allocation_lock = l }) u
      → IsPart p (record s { allocation_lock = l' }) (marked p l' u)
  marked-IsPart p l l' s u d =
      let m = record (u.headers p) { in_use = true } in
      let here : put u.headers p m p ≡ m = put_self u.headers p m in
      let len_is : ((marked p l' u).headers p).len ≡ (u.headers p).len =
        ap (λ (h : Header). h.len) here in
      let place : p + ((marked p l' u).headers p).len + 16 ≡ p + (u.headers p).len + 16 =
        omega arith in
      let behind_is : (marked p l' u).headers (p + ((marked p l' u).headers p).len + 16)
          ≡ u.headers (p + (u.headers p).len + 16) =
        ap ((marked p l' u).headers) place
        ∙ put_other u.headers p (p + (u.headers p).len + 16) m (λ e. omega arith) in
      record {
        long = omega (arith, d.long);
        part = elim d.part [
          | inl same ↦ inl (len_is ∙ same)
          | inr (free, exact) ↦
              let len_at : ((marked p l' u).headers (p + ((marked p l' u).headers p).len + 16)).len
                  ≡ (u.headers (p + (u.headers p).len + 16)).len =
                ap (λ (h : Header). h.len) behind_is in
              inr (ap (λ (h : Header). h.in_use) behind_is ∙ free, omega arith)
        ];
        others = λ q a b.
            let same : (marked p l' u).headers q ≡ u.headers q = put_other u.headers p q m a in
            let old = d.others q a (elim b [
              | inl apart ↦ inl (λ e. apart (e ∙ sym place))
              | inr whole ↦ inr (sym len_is ∙ whole)
            ]) in
            (
              ap (λ (h : Header). h.in_use) same ∙ old.0,
              ap (λ (h : Header). h.len) same ∙ old.1,
              ap (λ (h : Header). h.next) same ∙ old.2,
            );
        list_head = d.list_head;
        lock = refl;
        behind = d.behind;
      }

  finish_malloc :
      (ops : LockOps L) (p : ℕ) (u : Heap L M)
      → p ≢ 0
      → p + 16 < u32_mod
      → (load p >>= λ h.
            store p (record h { in_use = true }) >> (release_lock ops >> pure (wrap32 (p + 16))))
          u
        ≡ done (p + 16) (marked p (ops.release u.allocation_lock) u)
  finish_malloc ops p u ne top =
      let m = record (u.headers p) { in_use = true } in
      let v : Heap L M = record u { headers = put u.headers p m } in
      bind-done (load p) _ u u (u.headers p) (load-done p u ne)
      ∙ bind-done (store p m) _ u v tt (store-done p m u ne)
      ∙ ap (λ q. done q (marked p (ops.release u.allocation_lock) u)) (omega arith)

  -- Where the headers from the first one on that are in use or too short lead to a free one of at least
  -- `size` bytes, at a place that `IsPart` can divide, `malloc` gives the memory behind that header: the
  -- header is in use, and is all of the free one, or a first part of it of at least `size` bytes with a free
  -- header on exactly the rest. No other header changes its length, its next one or whether it is in use.
  pub malloc-IsPart :
      (ops : LockOps L) (backend : Backend M) (fuel : ℕ) (before : List ℕ) (p : ℕ) (l : L)
      (s : Heap L M)
      → ops.acquire s.allocation_lock ≡ some l
      → s.first_header ≢ 0
      → Leads size s.headers s.first_header before p
      → length before < fuel
      → p ≢ 0
      → passed size (s.headers p) ≡ false
      → (s.headers p).len % 16 ≡ 0
      → p + (s.headers p).len + 16 < u32_mod
      → ((s.headers p).next < p) ⊎ (p + (s.headers p).len + 16 ≤ (s.headers p).next)
      → (t : Heap L M) × (malloc ops backend fuel size s ≡ done (p + 16) t)
        × ((t.headers p).in_use ≡ true)
        × IsPart p (record s { allocation_lock = ops.release l }) t
  unfolding malloc maybe_split
  malloc-IsPart ops backend fuel before p l s got some_header leads enough ne fits even top
        outside =
      let s1 : Heap L M = record s { allocation_lock = l } in
      let (u, run, d) = maybe_split-IsPart p s1 ne fits even top outside in
      let t = marked p (ops.release l) u in
      let lock_is : ops.release u.allocation_lock ≡ ops.release l = ap ops.release d.lock in
      (
        t,
        bind-done (acquire_lock ops) _ s s1 tt (
              ap
                (λ o. elim o as (λ v. Run (Heap L M) (Unit {0})) [
                  | none ↦ stuck
                  | some k ↦ done tt (record s { allocation_lock = k })
                ])
                got)
            ∙ simp (is_false s.first_header some_header) (
                bind-done (find_header backend size fuel s.first_header) _ s1 s1 p
                  (find_header-target backend fuel s.first_header before p s1 leads ne fits enough)
                ∙ bind-done (load p) _ s1 s1 (s.headers p) (load-done p s1 ne)
                ∙ bind-done (maybe_split p s1 ne fits even top outside) _ s1 u tt run
                ∙ finish_malloc ops p u ne (omega arith)
                ∙ ap (λ k. done (p + 16) (marked p k u)) lock_is),
        ap (λ (h : Header). h.in_use)
            (put_self u.headers p (record (u.headers p) { in_use = true })),
        marked-IsPart p l (ops.release l) s u d,
      )
