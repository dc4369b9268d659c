-- ===== src/PhysMem/Invariant.antt =====
-- The invariant of the header list, and how claiming and splitting a header keep it.
use feline_os.Base.{
  ℕ, ◌+◌, ◌<◌, ◌≡◌, ◌≢◌, refl, sym, subst, Bool, true, List, [], ◌∷◌, ◌++◌, arith, uintptr_max,
}
use mathlib.Core.List.{map-append}
use feline_os.PhysMem.{PhysMemHeader, Pmm, update}
use feline_os.PhysMem.Chain.{
  Headers, IsChain, IsGood, IsGood-at, NotIn, Distinct, SameAt, update_self, SameAt-update,
  IsChain-same, IsChain-suffix, IsChain-splice, Distinct-before,
}
use feline_os.PhysMem.Regions.{region, regions}

-- No area of the chain reaches the end of the address space.
abbrev pub Bounded : Headers → List ℕ → Type 0
Bounded f [] = Unit {0}
Bounded f (i ∷ is) = ((f i).memory + (f i).size < uintptr_max) × Bounded f is

pub record IsPmm {L V : Type 0} (s : Pmm L V) (ids : List ℕ) : Type 0 where
  pub chain : IsChain s.headers 0 s.first_header ids
  pub distinct : Distinct ids
  pub bounded : Bounded s.headers ids

pub regions-same : (f g : Headers) (ids : List ℕ) → SameAt f g ids → regions g ids ≡ regions f ids
regions-same f g [] s = refl
regions-same f g (i ∷ is) (e, s) = rw (e, regions-same f g is s)

pub Bounded-same : (f g : Headers) (ids : List ℕ) → SameAt f g ids → Bounded f ids → Bounded g ids
Bounded-same f g [] s b = tt
Bounded-same f g (i ∷ is) (e, s) b = (ground arith, Bounded-same f g is s b.1)

pub Bounded-at :
    (f : Headers) (xs : List ℕ) (i : ℕ) (ys : List ℕ)
    → Bounded f (xs ++ i ∷ ys)
    → Bounded f xs × ((f i).memory + (f i).size < uintptr_max) × Bounded f ys
Bounded-at f [] i ys b = (tt, b.0, b.1)
Bounded-at f (x ∷ xs) i ys b = let (p, q, r) = Bounded-at f xs i ys b.1 in ((b.0, p), q, r)

pub Bounded-append :
    (f : Headers) (xs ys : List ℕ) → Bounded f xs → Bounded f ys → Bounded f (xs ++ ys)
Bounded-append f [] ys p q = q
Bounded-append f (x ∷ xs) ys p q = (p.0, Bounded-append f xs ys p.1 q)

pub Distinct-insert :
    (t : ℕ) (xs : List ℕ) (i : ℕ) (ys : List ℕ)
    → Distinct (xs ++ i ∷ ys)
    → NotIn t (xs ++ i ∷ ys)
    → Distinct (xs ++ i ∷ t ∷ ys)
Distinct-insert t [] i ys (ni, d) (ti, n) = (((λ e. ti (sym e)), ni), (n, d))
Distinct-insert t (x ∷ xs) i ys (nx, d) (tx, n) =
    (NotIn-insert xs nx (λ e. tx (sym e)), Distinct-insert t xs i ys d n)
  where
    NotIn-insert : (zs : List ℕ) → NotIn x (zs ++ i ∷ ys) → x ≢ t → NotIn x (zs ++ i ∷ t ∷ ys)
    NotIn-insert [] m ne = (m.0, (ne, m.1))
    NotIn-insert (z ∷ zs) m ne = (m.0, NotIn-insert zs m.1 ne)

-- The headers when header `i` is claimed or freed.
abbrev pub marked : Headers → ℕ → Bool → Headers
marked f i busy = update f i (record (f i) { in_use = busy })

module _ (f : Headers) (first : ℕ) (xs : List ℕ) (i : ℕ) (ys : List ℕ)
    (c : IsChain f 0 first (xs ++ i ∷ ys)) (d : Distinct (xs ++ i ∷ ys))
    (b : Bounded f (xs ++ i ∷ ys)) where
  pub IsChain-IsGood : IsGood f i
  IsChain-IsGood = (IsChain-suffix f 0 first xs i ys c).2

  -- Header `i` and its successor differ, and the successor is a used header or null.
  pub next_facts : ((f i).next ≢ i) × ((f i).next ≢ 0 → (f (f i).next).header_in_use ≡ true)
  next_facts =
      let (at, back, v, rest) = IsChain-suffix f 0 first xs i ys c in
      by_tail ys rest (Distinct-before xs i ys d).1 v
    where
      by_tail :
          (zs : List ℕ)
          → IsChain f i (f i).next zs
          → NotIn i zs
          → IsGood f i
          → ((f i).next ≢ i) × ((f i).next ≢ 0 → (f (f i).next).header_in_use ≡ true)
      by_tail [] e n v = ((λ q. v.ne_null (cc)), λ q. absurd (q e))
      by_tail (z ∷ zs) (e, back, vz, rest) n v = ((λ q. n.0 (cc)), λ q. rw e vz.used)

  module _ (busy : Bool) where
    pub marked_at : marked f i busy i ≡ record (f i) { in_use = busy }
    marked_at = update_self f i _

    pub marked_xs : SameAt f (marked f i busy) xs
    marked_xs = SameAt-update f i _ xs (Distinct-before xs i ys d).0

    pub marked_ys : SameAt f (marked f i busy) ys
    marked_ys = SameAt-update f i _ ys (Distinct-before xs i ys d).1

    pub marked-IsChain : IsChain (marked f i busy) 0 first (xs ++ i ∷ ys)
    marked-IsChain =
        let (at, back, v, rest) = IsChain-suffix f 0 first xs i ys c in
        IsChain-splice f (marked f i busy) 0 first xs i ys ys marked_xs c (
          refl,
          ground (arith, marked_at),
          IsGood-at (marked f i busy) i (record (f i) { in_use = busy }) v.ne_null marked_at v.used
              v.canary0 v.canary1,
          subst (λ (h : PhysMemHeader). IsChain (marked f i busy) i h.next ys) (sym marked_at)
              (IsChain-same f (marked f i busy) i (f i).next ys marked_ys rest),
        )

    pub marked-Bounded : Bounded (marked f i busy) (xs ++ i ∷ ys)
    marked-Bounded =
        let (bx, bi, bys) = Bounded-at f xs i ys b in
        Bounded-append (marked f i busy) xs (i ∷ ys)
          (Bounded-same f (marked f i busy) xs marked_xs bx)
          (ground (arith, marked_at), Bounded-same f (marked f i busy) ys marked_ys bys)

    pub regions-marked :
        regions (marked f i busy) (xs ++ i ∷ ys)
        ≡ regions f xs ++ record (region (f i)) { in_use = busy } ∷ regions f ys
    regions-marked = rw (
      map-append,
      regions-same f (marked f i busy) xs marked_xs,
      regions-same f (marked f i busy) ys marked_ys,
      marked_at,
    )
