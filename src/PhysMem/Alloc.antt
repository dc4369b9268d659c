-- ===== src/PhysMem/Alloc.antt =====
-- `get_mem_area` implements first fit on regions.
use feline_os.Base.{
  ℕ, ◌+◌, ◌≤◌, ◌<◌, ◌≡◌, ◌≢◌, refl, ap, subst, inl, inr, true, false, Option, none, some, not, ◌&&◌,
  List, [], ◌∷◌, ◌++◌, length, arith, leb, ◌==◌, Bool-cases,
}
use feline_os.Run.{Run, done}
use feline_os.Spinlock.{LockOps}
use feline_os.PhysMem.{Pmm, Vmm, PmmResults, pmm_success, pmm_nomem, null, round_up_to_page}
use feline_os.PhysMem.Headers.{find_free_pages, internal_claim_mem_area, split_header_at_len}
use feline_os.PhysMem.Area.{get_mem_area}
use feline_os.PhysMem.Chain.{Headers, IsChain, IsGood, update_ne, update_self}
use feline_os.PhysMem.Walk.{Fits, NoneFits, FirstFit, find_free_pages-FirstFit}
use feline_os.PhysMem.Split.{with_split}
use feline_os.PhysMem.Spare.{HasSpare, taken, Unused, split_header_at_len-done}
use feline_os.PhysMem.Regions.{Region, region, regions, carve, alloc}
use feline_os.PhysMem.Invariant.{
  IsPmm, Bounded, Bounded-at, regions-same, marked, IsChain-IsGood, marked_at, marked_xs, marked_ys,
  marked-IsChain, marked-Bounded, regions-marked, next_facts,
}
use feline_os.PhysMem.Carve.{
  carve_head, carve-IsChain, carve-Distinct, carve-Bounded, regions-carve,
}

-- First fit on the headers is first fit on their regions.
alloc-none :
    (f : Headers) (len : ℕ) (ids : List ℕ) → NoneFits f len ids → alloc len (regions f ids) ≡ none
unfolding alloc
alloc-none f len [] n = refl
alloc-none f len (i ∷ is) (miss, n) = elim (Bool-cases (not (f i).in_use && leb len (f i).size)) [
  | inl e ↦ absurd (miss (ground arith))
  | inr e ↦ rw (e, alloc-none f len is n)
]

alloc-some :
    (f : Headers) (len : ℕ) (xs : List ℕ) (i : ℕ) (ys : List ℕ)
    → NoneFits f len xs
    → Fits len (f i)
    → alloc len (regions f (xs ++ i ∷ ys))
      ≡ some ((f i).memory, regions f xs ++ (carve len (region (f i)) ++ regions f ys))
unfolding alloc
alloc-some f len [] i ys n fits =
    let e : (not (f i).in_use && leb len (f i).size) ≡ true = ground arith in rw e
alloc-some f len (x ∷ xs) i ys (miss, n) fits =
    elim (Bool-cases (not (f x).in_use && leb len (f x).size)) [
      | inl e ↦ absurd (miss (ground arith))
      | inr e ↦ rw (e, alloc-some f len xs i ys n fits)
    ]

-- What a call of `get_mem_area` comes to, by the outcome of first fit: without a fitting region it
-- says so and changes nothing; with one it returns the address, and the headers form a chain again
-- that holds the new regions.
module _ {L V : Type 0} where
  abbrev pub Implements :
      Pmm L V → L → Run (Pmm L V) (PmmResults × ℕ) → Option (ℕ × List Region) → Type 0
  Implements s lock r none = r ≡ done (pmm_nomem, 0) (record s { modifying_pmm = lock })
  Implements s lock r (some (a, rs)) =
      (s' : Pmm L V) × (ids' : List ℕ) × (r ≡ done (pmm_success, a) s')
      × IsPmm s' ids'
      × (regions s'.headers ids' ≡ rs)
      × (s'.modifying_pmm ≡ lock)

module _ {L V : Type 0} (ops : LockOps L) (vmm : Vmm V) where
  claim-done :
      (s : Pmm L V) (i : ℕ)
      → IsGood s.headers i
      → (s.headers i).in_use ≡ false
      → internal_claim_mem_area i s ≡ done tt (record s { headers = marked s.headers i true })
  unfolding internal_claim_mem_area
  claim-done s i good free = ground (arith, good.used, good.canary0, good.canary1, free)

  HasSpare-marked :
      (s : Pmm L V) (i : ℕ)
      → IsGood s.headers i
      → HasSpare s
      → HasSpare (record s { headers = marked s.headers i true })
  HasSpare-marked s i good v = record {
    room = v.room;
    slot = (v.slot.0, v.slot.1, there);
    canary = λ p u. ground (arith, elsewhere p u, v.canary p (before p u));
  }
    where
      f' : Headers
      f' = marked s.headers i true

      own : f' i ≡ record (s.headers i) { in_use = true }
      own = update_self s.headers i _

      there : Unused f' (1 + v.slot.0)
      there =
          let ne : i ≢ 1 + v.slot.0 = (λ e. ground (arith, good.used, v.slot.2)) in
          rw (update_ne s.headers i (1 + v.slot.0) (record (s.headers i) { in_use = true }) ne)
            v.slot.2

      elsewhere : (p : ℕ) → Unused f' p → f' p ≡ s.headers p
      elsewhere p u =
          update_ne s.headers i p (record (s.headers i) { in_use = true })
            (λ e. ground (arith, good.used, own))

      before : (p : ℕ) → Unused f' p → Unused s.headers p
      before p u = ground (arith, elsewhere p u)

  split-exact :
      (fuel i len : ℕ) (s : Pmm L V)
      → IsGood s.headers i
      → (s.headers i).in_use ≡ true
      → (s.headers i).size ≡ len
      → split_header_at_len vmm fuel i len s ≡ done tt s
  unfolding split_header_at_len
  split-exact fuel i len s good busy e =
      ground (arith, good.used, good.canary0, good.canary1, busy, e)

  module _ (fuel len : ℕ) (s : Pmm L V) (lock : L)
      (got : ops.acquire s.modifying_pmm ≡ some lock) where
    -- The state with the lock.
    abbrev s1 : Pmm L V
    s1 = record s { modifying_pmm = lock }

    abbrev need : ℕ
    need = round_up_to_page len

    get_mem_area-none :
        find_free_pages fuel need s.first_header s1 ≡ done null s1
        → get_mem_area ops vmm fuel len s
          ≡ done (pmm_nomem, 0) (record s { modifying_pmm = ops.release lock })
    unfolding get_mem_area
    get_mem_area-none find = ground (arith, got, find)

    get_mem_area-found :
        (i : ℕ) (s2 s3 : Pmm L V)
        → i ≢ 0
        → find_free_pages fuel need s.first_header s1 ≡ done i s1
        → internal_claim_mem_area i s1 ≡ done tt s2
        → split_header_at_len vmm fuel i need s2 ≡ done tt s3
        → get_mem_area ops vmm fuel len s
          ≡ done
              (pmm_success, (s3.headers i).memory)
              (record s3 { modifying_pmm = ops.release s3.modifying_pmm })
    unfolding get_mem_area
    get_mem_area-found i s2 s3 nz find claim split = ground (arith, got, nz, find, claim, split)

    module _ (i : ℕ) (xs ys : List ℕ) (v : IsPmm s (xs ++ i ∷ ys)) (spare : HasSpare s)
        (find : find_free_pages fuel need s.first_header s1 ≡ done i s1)
        (fits : Fits need (s.headers i)) where
      good : IsGood s.headers i
      good = IsChain-IsGood s.headers s.first_header xs i ys v.chain v.distinct v.bounded

      abbrev f1 : Headers
      f1 = marked s.headers i true

      at : f1 i ≡ record (s.headers i) { in_use = true }
      at = marked_at s.headers s.first_header xs i ys v.chain v.distinct v.bounded true

      chain1 : IsChain f1 0 s.first_header (xs ++ i ∷ ys)
      chain1 = marked-IsChain s.headers s.first_header xs i ys v.chain v.distinct v.bounded true

      bounded1 : Bounded f1 (xs ++ i ∷ ys)
      bounded1 = marked-Bounded s.headers s.first_header xs i ys v.chain v.distinct v.bounded true

      abbrev s2 : Pmm L V
      s2 = record s1 { headers = f1 }

      claim : internal_claim_mem_area i s1 ≡ done tt s2
      claim = claim-done s1 i good fits.0

      good1 : IsGood f1 i
      good1 = IsChain-IsGood f1 s.first_header xs i ys chain1 v.distinct bounded1

      abbrev Whole : Option (ℕ × List Region) → Type 0
      Whole = Implements s (ops.release lock) (get_mem_area ops vmm fuel len s)

      whole :
          (s.headers i).size ≡ need
          → Whole (
              some (
                (s.headers i).memory,
                regions s.headers xs ++ (carve need (region (s.headers i)) ++ regions s.headers ys),
              ))
      unfolding carve
      whole e =
          let split =
            split-exact fuel i need s2 good1 (ground (arith, at)) (ground (arith, at, e)) in
          let run = get_mem_area-found i s2 s2 good.ne_null find claim split in
          let t : (((s.headers i).size) == need) ≡ true = ground (arith, e) in
          (
            record s2 { modifying_pmm = ops.release lock },
            xs ++ i ∷ ys,
            ground (arith, run, at),
            record { chain = chain1; distinct = v.distinct; bounded = bounded1 },
            rw t
                (regions-marked s.headers s.first_header xs i ys v.chain v.distinct v.bounded true),
            refl,
          )

      part :
          need < (s.headers i).size
          → Whole (
              some (
                (s.headers i).memory,
                regions s.headers xs ++ (carve need (region (s.headers i)) ++ regions s.headers ys),
              ))
      unfolding carve
      part lt =
          let spare1 : HasSpare s1 = record {
            room = spare.room;
            slot = spare.slot;
            canary = spare.canary;
          } in
          let (self, next_used) = next_facts f1 s.first_header xs i ys chain1 v.distinct bounded1 in
          let (t, nz, unused, split) =
            split_header_at_len-done vmm fuel i need s2 (HasSpare-marked s1 i good spare1) good1
              (ground (arith, at)) (ground (arith, at, lt)) (Bounded-at f1 xs i ys bounded1).1 self
              next_used in
          let s3 : Pmm L V = record s2 {
            headers = with_split (taken f1 t) i t need;
            headers_in_use = s2.headers_in_use + 1;
          } in
          let le : need ≤ (f1 i).size = ground (arith, at, lt) in
          let run = get_mem_area-found i s2 s3 good.ne_null find claim split in
          let head =
            carve_head f1 s.first_header xs i ys chain1 v.distinct bounded1 t need nz unused le in
          let view =
            regions-carve f1 s.first_header xs i ys chain1 v.distinct bounded1 t need nz unused
              le in
          let test : (((s.headers i).size) == need) ≡ false = ground (arith, lt) in
          (
            record s3 { modifying_pmm = ops.release lock },
            xs ++ i ∷ t ∷ ys,
            ground (arith, run, ap (λ (r : Region). r.memory) head, at),
            record {
              chain =
                  carve-IsChain f1 s.first_header xs i ys chain1 v.distinct bounded1 t need nz
                    unused le;
              distinct =
                  carve-Distinct f1 s.first_header xs i ys chain1 v.distinct bounded1 t need nz
                    unused le;
              bounded =
                  carve-Bounded f1 s.first_header xs i ys chain1 v.distinct bounded1 t need nz
                    unused le;
            },
            rw (
              test,
              view,
              regions-same s.headers f1 xs
                  (marked_xs s.headers s.first_header xs i ys v.chain v.distinct v.bounded true),
              regions-same s.headers f1 ys
                  (marked_ys s.headers s.first_header xs i ys v.chain v.distinct v.bounded true),
              at,
            ),
            refl,
          )

  -- When it gets the lock, on a list of headers that keeps the invariant, with a spare header and fuel for
  -- the walk, `get_mem_area` implements first fit on the regions of the list, for the rounded length.
  -- Where no free region is long enough it says `pmm_nomem` and changes nothing but the lock. Otherwise
  -- it gives the start of the first one that is, the regions are the old ones with that one claimed,
  -- whole or cut in two, and the invariant holds again. The lock is released either way.
  pub get_mem_area-alloc :
      (fuel len : ℕ) (s : Pmm L V) (lock : L) (ids : List ℕ)
      → ops.acquire s.modifying_pmm ≡ some lock
      → IsPmm s ids
      → HasSpare s
      → length ids < fuel
      → Implements s
          (ops.release lock)
          (get_mem_area ops vmm fuel len s)
          (alloc (round_up_to_page len) (regions s.headers ids))
  get_mem_area-alloc fuel len s lock ids got v spare enough =
      let (r, find, first) =
        find_free_pages-FirstFit (record s { modifying_pmm = lock }) (round_up_to_page len) fuel 0
          s.first_header ids v.chain enough in
      by_fit r find first
    where
      by_fit :
          (r : ℕ)
          → find_free_pages fuel
              (round_up_to_page len)
              s.first_header
              (record s { modifying_pmm = lock })
            ≡ done r (record s { modifying_pmm = lock })
          → FirstFit s.headers (round_up_to_page len) ids r
          → Implements s
              (ops.release lock)
              (get_mem_area ops vmm fuel len s)
              (alloc (round_up_to_page len) (regions s.headers ids))
      by_fit r find (inl (e, miss)) =
          rw (alloc-none s.headers (round_up_to_page len) ids miss)
            (get_mem_area-none fuel len s lock got (rw e at find))
      by_fit r find (inr (xs, ys, e, nz, miss, fits)) =
          rw (e, alloc-some s.headers (round_up_to_page len) xs r ys miss fits)
            (elim (Bool-cases ((s.headers r).size == round_up_to_page len)) [
              | inl same ↦
                  whole fuel len s lock got r xs ys (subst (λ k. IsPmm s k) e v) spare find fits
                    (ground (arith, same))
              | inr other ↦
                  part fuel len s lock got r xs ys (subst (λ k. IsPmm s k) e v) spare find fits
                    (ground (arith, other, fits.1))
            ])
