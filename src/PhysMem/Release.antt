-- ===== src/PhysMem/Release.antt =====
-- `merge_adjacent_headers` and `free_mem_area` implement freeing on regions.
use feline_os.Base.{
  ℕ, zero, suc, ◌+◌, ◌<◌, ◌≡◌, refl, sym, ap, ap₂, ◌∙◌, subst, inl, inr, Bool, true, false, some,
  ◌&&◌, List, [], ◌∷◌, ◌++◌, length, arith, ltb, leb, Bool-cases, uintptr_max, wrap32,
}
use mathlib.Core.List.{map-append, append_assoc}
use feline_os.Run.{Run, done, aborted, bind-done}
use feline_os.Spinlock.{LockOps}
use feline_os.PhysMem.{PhysMemHeader, Pmm, Vmm, PmmResults, pmm_success, pmm_invalid, null}
use feline_os.PhysMem.Area.{merge_next, merge_adjacent_headers, free_loop, free_mem_area}
use feline_os.PhysMem.Chain.{IsChain, IsGood, last}
use feline_os.PhysMem.Regions.{
  region, regions, join, join_last, Release, refused, beyond, released, release,
}
use feline_os.PhysMem.Invariant.{
  IsPmm, Bounded-at, marked, marked_at, marked-IsChain, marked-Bounded, regions-same, marked_xs,
  marked_ys,
}
use feline_os.PhysMem.Join.{merge_next-joined, merge_prev-joined}

last-snoc : (p : ℕ) (xs : List ℕ) (i : ℕ) → last p (xs ++ i ∷ []) ≡ i
last-snoc p [] i = refl
last-snoc p (x ∷ xs) i = last-snoc x xs i

-- The area of a header holds the address, and ends before what is to be freed does.
abbrev holds : ℕ → PhysMemHeader → Bool
holds addr h = leb h.memory addr && ltb addr (h.memory + h.size)

abbrev short : ℕ → ℕ → PhysMemHeader → Bool
short addr len h = ltb (h.memory + h.size) (wrap32 (addr + len))

-- What a walk that frees comes to, by what freeing on regions gives.
module _ {L V : Type 0} where
  abbrev pub Frees : Pmm L V → L → Run (Pmm L V) PmmResults → Release → Type 0
  Frees s lock r refused = r ≡ done pmm_invalid (record s { modifying_pmm = lock })
  Frees s lock r beyond = r ≡ aborted
  Frees s lock r (released rs) =
      (s' : Pmm L V) × (ids : List ℕ) × (r ≡ done pmm_success s')
      × IsPmm s' ids
      × (regions s'.headers ids ≡ rs)
      × (s'.modifying_pmm ≡ lock)

  Joined : Pmm L V → List ℕ → ℕ → List ℕ → Type 0
  Joined s xs i ys =
      (s' : Pmm L V) × (ids : List ℕ) × (merge_adjacent_headers i s ≡ done tt s')
      × IsPmm s' ids
      × (regions s'.headers ids
          ≡ join_last (regions s.headers xs) (join (region (s.headers i)) (regions s.headers ys)))
      × (s'.modifying_pmm ≡ s.modifying_pmm)

  merge_adjacent_headers-Joined :
      (s : Pmm L V) (xs : List ℕ) (i : ℕ) (ys : List ℕ)
      → IsPmm s (xs ++ i ∷ ys)
      → (s.headers i).in_use ≡ false
      → Joined s xs i ys
  unfolding merge_adjacent_headers Joined
  merge_adjacent_headers-Joined s xs i ys v free =
      let (t, zs, run, w, before, here, still, lock) = merge_next-joined s xs i ys v free in
      let (u, ids, run', w', view, lock') = merge_prev-joined t xs i zs w still in
      (
        u,
        ids,
        bind-done (merge_next i) _ s t tt run ∙ run',
        w',
        view ∙ ap₂ join_last before here,
        lock' ∙ lock,
      )

  -- Freeing the header in the middle.
  abbrev marked_state : Pmm L V → ℕ → Pmm L V
  marked_state s i = record s { headers = marked s.headers i false }

  marked-IsPmm :
      (s : Pmm L V) (xs : List ℕ) (i : ℕ) (ys : List ℕ)
      → IsPmm s (xs ++ i ∷ ys)
      → IsPmm (marked_state s i) (xs ++ i ∷ ys)
  marked-IsPmm s xs i ys v = record {
    chain = marked-IsChain s.headers s.first_header xs i ys v.chain v.distinct v.bounded false;
    distinct = v.distinct;
    bounded = marked-Bounded s.headers s.first_header xs i ys v.chain v.distinct v.bounded false;
  }

  freed-joined :
      (s : Pmm L V) (xs : List ℕ) (i : ℕ) (ys : List ℕ)
      → IsPmm s (xs ++ i ∷ ys)
      → (s' : Pmm L V) × (ids : List ℕ) × (merge_adjacent_headers i (marked_state s i) ≡ done tt s')
        × IsPmm s' ids
        × (regions s'.headers ids
            ≡ join_last
                (regions s.headers xs)
                (join (record (region (s.headers i)) { in_use = false }) (regions s.headers ys)))
        × (s'.modifying_pmm ≡ s.modifying_pmm)
  unfolding Joined
  freed-joined s xs i ys v =
      let f = s.headers in
      let at : marked f i false i ≡ record (f i) { in_use = false } =
        marked_at f s.first_header xs i ys v.chain v.distinct v.bounded false in
      let (s', ids, run, w, view, lock) =
        merge_adjacent_headers-Joined (marked_state s i) xs i ys (marked-IsPmm s xs i ys v)
          (ap (λ (h : PhysMemHeader). h.in_use) at) in
      (
        s',
        ids,
        run,
        w,
        view
            ∙ ap₂ join_last
                (regions-same f (marked f i false) xs
                  (marked_xs f s.first_header xs i ys v.chain v.distinct v.bounded false))
                (ap₂ join (ap region at) (
                  regions-same f (marked f i false) ys
                    (marked_ys f s.first_header xs i ys v.chain v.distinct v.bounded false))),
        lock,
      )

  free_loop-null :
      (fuel addr len cur : ℕ) (s : Pmm L V)
      → cur ≡ null
      → free_loop (suc fuel) addr len cur s ≡ done pmm_invalid s
  unfolding free_loop
  free_loop-null fuel addr len cur s e = ground arith

  -- One round of the walk, on a header in use whose area ends in the address space.
  module _ (fuel addr len : ℕ) (s : Pmm L V) (i : ℕ) (good : IsGood s.headers i)
      (bound : (s.headers i).memory + (s.headers i).size < uintptr_max) where
    step-beyond :
        holds addr (s.headers i) ≡ true
        → short addr len (s.headers i) ≡ true
        → free_loop (suc fuel) addr len i s ≡ aborted
    unfolding free_loop
    step-beyond h b = ground (arith, good.ne_null, good.used)

    step-refused :
        holds addr (s.headers i) ≡ true
        → short addr len (s.headers i) ≡ false
        → (s.headers i).in_use ≡ false
        → free_loop (suc fuel) addr len i s ≡ done pmm_invalid s
    unfolding free_loop
    step-refused h b u = ground (arith, good.ne_null, good.used)

    step-freed :
        (s' : Pmm L V)
        → holds addr (s.headers i) ≡ true
        → short addr len (s.headers i) ≡ false
        → (s.headers i).in_use ≡ true
        → merge_adjacent_headers i (marked_state s i) ≡ done tt s'
        → free_loop (suc fuel) addr len i s ≡ done pmm_success s'
    unfolding free_loop
    step-freed s' h b u run = ground (arith, good.ne_null, good.used, run)

    step-next :
        holds addr (s.headers i) ≡ false
        → free_loop (suc fuel) addr len i s ≡ free_loop fuel addr len (s.headers i).next s
    unfolding free_loop
    step-next h = ground (arith, good.ne_null, good.used)

  module _ (addr len : ℕ) where
    abbrev Walk : ℕ → Pmm L V → List ℕ → ℕ → List ℕ → Type 0
    Walk fuel s xs cur ys =
        Frees s s.modifying_pmm (free_loop fuel addr len cur s)
          (release addr (wrap32 (addr + len)) (regions s.headers xs) (regions s.headers ys))

    free_loop-here :
        (fuel : ℕ) (s : Pmm L V) (xs : List ℕ) (i : ℕ) (ys : List ℕ)
        → IsPmm s (xs ++ i ∷ ys)
        → IsGood s.headers i
        → (s.headers i).memory + (s.headers i).size < uintptr_max
        → holds addr (s.headers i) ≡ true
        → Walk (suc fuel) s xs i (i ∷ ys)
    unfolding release
    free_loop-here fuel s xs i ys v good bound h =
        rw h (elim (Bool-cases (short addr len (s.headers i))) [
          | inl b ↦ rw b (step-beyond fuel addr len s i good bound h b)
          | inr b ↦ rw b (elim (Bool-cases (s.headers i).in_use) [
            | inl u ↦
                let (s', ids, run, w, view, lock) = freed-joined s xs i ys v in
                rw u (s', ids, step-freed fuel addr len s i good bound s' h b u run, w, view, lock)
            | inr u ↦ rw u (step-refused fuel addr len s i good bound h b u)
          ])
        ])

    free_loop-release :
        (fuel : ℕ) (s : Pmm L V) (xs : List ℕ) (cur : ℕ) (ys : List ℕ)
        → IsPmm s (xs ++ ys)
        → IsChain s.headers (last 0 xs) cur ys
        → length ys < fuel
        → Walk fuel s xs cur ys
    unfolding release
    free_loop-release zero s xs cur ys v c enough = absurd (omega arith)
    free_loop-release (suc fuel) s xs cur [] v c enough = free_loop-null fuel addr len cur s c
    free_loop-release (suc fuel) s xs cur (i ∷ ys) v (at, back, good, c) enough =
        let (_, bound, _) = Bounded-at s.headers xs i ys v.bounded in
        subst (λ k. Walk (suc fuel) s xs k (i ∷ ys)) (sym at)
          (elim (Bool-cases (holds addr (s.headers i))) [
            | inl h ↦ free_loop-here fuel s xs i ys v good bound h
            | inr h ↦
                rw (h, step-next fuel addr len s i good bound h)
                  (subst
                    (λ k.
                      Frees s s.modifying_pmm (free_loop fuel addr len (s.headers i).next s)
                        (release addr (wrap32 (addr + len)) k (regions s.headers ys)))
                    (map-append _ xs _)
                    (free_loop-release fuel s (xs ++ i ∷ []) (s.headers i).next ys
                      (subst (λ k. IsPmm s k) (sym (append_assoc xs (i ∷ []) ys)) v)
                      (subst (λ k. IsChain s.headers k (s.headers i).next ys)
                        (sym (last-snoc 0 xs i)) c)
                      (omega arith)))
          ])

  module _ (ops : LockOps L) (vmm : Vmm V) where
    finish-done :
        (fuel addr len : ℕ) (s s' : Pmm L V) (lock : L) (r : PmmResults)
        → ops.acquire s.modifying_pmm ≡ some lock
        → free_loop fuel addr len s.first_header (record s { modifying_pmm = lock }) ≡ done r s'
        → free_mem_area ops vmm fuel addr len s
          ≡ done r (record s' { modifying_pmm = ops.release s'.modifying_pmm })
    unfolding free_mem_area
    finish-done fuel addr len s s' lock r got run = ground (arith, got, run)

    finish-aborted :
        (fuel addr len : ℕ) (s : Pmm L V) (lock : L)
        → ops.acquire s.modifying_pmm ≡ some lock
        → free_loop fuel addr len s.first_header (record s { modifying_pmm = lock }) ≡ aborted
        → free_mem_area ops vmm fuel addr len s ≡ aborted
    unfolding free_mem_area
    finish-aborted fuel addr len s lock got run = ground (arith, got, run)

    unlocked :
        (fuel addr len : ℕ) (s : Pmm L V) (lock : L) (o : Release)
        → ops.acquire s.modifying_pmm ≡ some lock
        → Frees
            (record s { modifying_pmm = lock })
            lock
            (free_loop fuel addr len s.first_header (record s { modifying_pmm = lock }))
            o
        → Frees s (ops.release lock) (free_mem_area ops vmm fuel addr len s) o
    unlocked fuel addr len s lock refused got run =
        finish-done fuel addr len s (record s { modifying_pmm = lock }) lock pmm_invalid got run
    unlocked fuel addr len s lock beyond got run = finish-aborted fuel addr len s lock got run
    unlocked fuel addr len s lock (released rs) got (s', ids, run, v, view, kept) = (
      record s' { modifying_pmm = ops.release s'.modifying_pmm },
      ids,
      finish-done fuel addr len s s' lock pmm_success got run,
      record { chain = v.chain; distinct = v.distinct; bounded = v.bounded },
      view,
      ap ops.release kept,
    )

    -- When it gets the lock, on a list of headers that keeps the invariant, with fuel for the walk,
    -- `free_mem_area` implements freeing on the regions of the list. Where no region holds the address it
    -- says `pmm_invalid` and changes nothing but the lock. Otherwise the first region that holds it decides:
    -- where it ends before the end of what is to be freed, taken as a 32-bit address, it aborts, whether
    -- the region is free or not; where it is long enough but free, it says `pmm_invalid` and changes nothing
    -- but the lock; where it is long enough and in use, it says `pmm_success`, the region is free and
    -- joined with a free region right behind it and with one right before it, and the invariant holds
    -- again. Unless it aborts, the lock is released.
    pub free_mem_area-release :
        (fuel addr len : ℕ) (s : Pmm L V) (lock : L) (ids : List ℕ)
        → ops.acquire s.modifying_pmm ≡ some lock
        → IsPmm s ids
        → length ids < fuel
        → Frees s
            (ops.release lock)
            (free_mem_area ops vmm fuel addr len s)
            (release addr (wrap32 (addr + len)) [] (regions s.headers ids))
    free_mem_area-release fuel addr len s lock ids got v enough =
        unlocked fuel addr len s lock _ got (
          free_loop-release addr len fuel (record s { modifying_pmm = lock }) [] s.first_header ids
            (record { chain = v.chain; distinct = v.distinct; bounded = v.bounded }) v.chain enough)
