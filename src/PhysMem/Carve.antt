-- ===== src/PhysMem/Carve.antt =====
-- What splitting a header does to the chain and to its regions.
use feline_os.Base.{
  ℕ, ◌+◌, ◌-◌, ◌≤◌, ◌≡◌, ◌≢◌, refl, sym, ap, ap₂, subst, false, List, [], ◌∷◌, ◌++◌, arith,
}
use mathlib.Core.List.{map-append}
use feline_os.PhysMem.Chain.{
  Headers, IsChain, NotIn, Distinct, SameAt, last, update_ne, SameAt-update, IsChain-same,
  IsChain-suffix, IsChain-splice, NotIn-unused, Distinct-before, NotIn-append-left,
  NotIn-append-right,
}
use feline_os.PhysMem.Split.{
  with_split, with_split-IsChain, with_split-SameAt, with_split-head, with_split-temp,
  with_split-next,
}
use feline_os.PhysMem.Spare.{taken, Unused}
use feline_os.PhysMem.Regions.{Region, region, regions}
use feline_os.PhysMem.Invariant.{Bounded, Bounded-at, Bounded-append, Distinct-insert, next_facts}

abbrev pub SameRegions : Headers → Headers → List ℕ → Type 0
SameRegions f g [] = Unit {0}
SameRegions f g (i ∷ is) = (region (g i) ≡ region (f i)) × SameRegions f g is

pub regions-SameRegions :
    (f g : Headers) (ids : List ℕ) → SameRegions f g ids → regions g ids ≡ regions f ids
regions-SameRegions f g [] s = refl
regions-SameRegions f g (i ∷ is) (e, s) =
    ap₂ (λ (r : Region) rs. r ∷ rs) e (regions-SameRegions f g is s)

pub Bounded-SameRegions :
    (f g : Headers) (ids : List ℕ) → SameRegions f g ids → Bounded f ids → Bounded g ids
Bounded-SameRegions f g [] s b = tt
Bounded-SameRegions f g (i ∷ is) (e, s) b =
    let m : (g i).memory ≡ (f i).memory = ap (λ (r : Region). r.memory) e in
    let z : (g i).size ≡ (f i).size = ap (λ (r : Region). r.size) e in
    (omega (arith, m, z, b.0), Bounded-SameRegions f g is s b.1)

pub SameAt-SameRegions : (f g : Headers) (ids : List ℕ) → SameAt f g ids → SameRegions f g ids
SameAt-SameRegions f g [] s = tt
SameAt-SameRegions f g (i ∷ is) (e, s) = (ap region e, SameAt-SameRegions f g is s)

pub SameAt-left : (f g : Headers) (xs ys : List ℕ) → SameAt f g (xs ++ ys) → SameAt f g xs
SameAt-left f g [] ys s = tt
SameAt-left f g (x ∷ xs) ys s = (s.0, SameAt-left f g xs ys s.1)

pub SameAt-right : (f g : Headers) (xs ys : List ℕ) → SameAt f g (xs ++ ys) → SameAt f g ys
SameAt-right f g [] ys s = s
SameAt-right f g (x ∷ xs) ys s = SameAt-right f g xs ys s.1

pub NotIn-zero :
    (f : Headers) (prev cur : ℕ) (xs zs : List ℕ) → IsChain f prev cur (xs ++ zs) → NotIn 0 xs
NotIn-zero f prev cur [] zs c = tt
NotIn-zero f prev cur (x ∷ xs) zs (at, back, v, c) =
    ((λ e. v.ne_null (sym e)), NotIn-zero f x (f x).next xs zs c)

pub NotIn-second : (xs : List ℕ) (i j : ℕ) (ys : List ℕ) → Distinct (xs ++ i ∷ j ∷ ys) → NotIn j xs
NotIn-second [] i j ys d = tt
NotIn-second (x ∷ xs) i j ys (n, d) =
    ((λ e. ((NotIn-append-right x xs (i ∷ j ∷ ys) n).1).0 (sym e)), NotIn-second xs i j ys d)

-- The header behind `i` is not among those before it.
pub NotIn-next :
    (f : Headers) (first : ℕ) (xs : List ℕ) (i : ℕ) (ys : List ℕ)
    → IsChain f 0 first (xs ++ i ∷ ys)
    → Distinct (xs ++ i ∷ ys)
    → NotIn (f i).next xs
NotIn-next f first xs i [] c d =
    let (at, back, v, e) = IsChain-suffix f 0 first xs i [] c in
    subst (λ k. NotIn k xs) (sym e) (NotIn-zero f 0 first xs (i ∷ []) c)
NotIn-next f first xs i (j ∷ ys) c d =
    let (at, back, v, (e, rest, u, w)) = IsChain-suffix f 0 first xs i (j ∷ ys) c in
    subst (λ k. NotIn k xs) (sym e) (NotIn-second xs i j ys d)

with_split-SameRegions :
    (f : Headers) (i t len : ℕ) (ys : List ℕ)
    → IsChain f i (f i).next ys
    → NotIn i ys
    → NotIn t ys
    → Distinct ys
    → SameRegions f (with_split f i t len) ys
with_split-SameRegions f i t len [] c ni nt d = tt
with_split-SameRegions f i t len (j ∷ ys) (e, back, v, c) ni nt d = (
  ap region (with_split-next f i t len j e (λ q. ni.0 (sym q)) (λ q. nt.0 (sym q)) v.ne_null),
  SameAt-SameRegions f _ ys
      (with_split-SameAt f i t len ys ni.1 nt.1 (subst (λ k. NotIn k ys) (sym e) d.0)),
)

next-ne :
    (f : Headers) (prev n t : ℕ) (ys : List ℕ) → IsChain f prev n ys → NotIn t ys → t ≢ 0 → n ≢ t
next-ne f prev n t [] e out nz q = nz (cc)
next-ne f prev n t (y ∷ ys) (e, back, v, c) out nz q = out.0 (cc)

module _ (f : Headers) (first : ℕ) (xs : List ℕ) (i : ℕ) (ys : List ℕ)
    (c : IsChain f 0 first (xs ++ i ∷ ys)) (d : Distinct (xs ++ i ∷ ys))
    (b : Bounded f (xs ++ i ∷ ys)) (t len : ℕ) (nz : t ≢ 0) (unused : Unused f t)
    (le : len ≤ (f i).size) where
  abbrev f' : Headers
  f' = taken f t

  abbrev g : Headers
  g = with_split f' i t len

  out : NotIn t (xs ++ i ∷ ys)
  out = NotIn-unused f 0 first t (xs ++ i ∷ ys) c unused

  same : SameAt f f' (xs ++ i ∷ ys)
  same = SameAt-update f t _ (xs ++ i ∷ ys) out

  same_i : f' i ≡ f i
  same_i = update_ne f t i _ (NotIn-append-right t xs (i ∷ ys) out).0

  c' : IsChain f' 0 first (xs ++ i ∷ ys)
  c' = IsChain-same f f' 0 first (xs ++ i ∷ ys) same c

  before : SameAt f' g xs
  before =
      with_split-SameAt f' i t len xs (Distinct-before xs i ys d).0
        (NotIn-append-left t xs (i ∷ ys) out) (NotIn-next f' first xs i ys c' d)

  it : i ≢ t
  it e = (NotIn-append-right t xs (i ∷ ys) out).0 (sym e)

  pub carve-IsChain : IsChain g 0 first (xs ++ i ∷ t ∷ ys)
  carve-IsChain = IsChain-splice f' g 0 first xs i ys (t ∷ ys) before c' (
      with_split-IsChain f' (last 0 xs) i t len ys (IsChain-suffix f' 0 first xs i ys c')
        ((Distinct-before xs i ys d).1, (Distinct-before xs i ys d).2) nz
        (NotIn-append-right t xs (i ∷ ys) out))

  pub carve-Distinct : Distinct (xs ++ i ∷ t ∷ ys)
  carve-Distinct = Distinct-insert t xs i ys d out

  suffix : IsChain f' (last 0 xs) i (i ∷ ys)
  suffix = IsChain-suffix f' 0 first xs i ys c'

  after : SameRegions f' g ys
  after =
      with_split-SameRegions f' i t len ys suffix.3 (Distinct-before xs i ys d).1
        (NotIn-append-right t xs (i ∷ ys) out).1 (Distinct-before xs i ys d).2

  pub carve_head : region (g i) ≡ record (region (f i)) { size = len }
  carve_head =
      let e =
        with_split-head f' i t len it
          (next_facts f' first xs i ys c' d
            (Bounded-SameRegions f f' _ (SameAt-SameRegions f f' _ same) b)).0 in
      ground (arith, e, same_i)

  temp :
      region (g t) ≡ record { memory = (f i).memory + len; size = (f i).size - len; in_use = false }
  temp =
      let e =
        with_split-temp f' i t len it
          (next-ne f' i (f' i).next t ys suffix.3 (NotIn-append-right t xs (i ∷ ys) out).1 nz) in
      ground (arith, e, same_i)

  pub regions-carve :
      regions g (xs ++ i ∷ t ∷ ys)
      ≡ regions f xs
        ++ record (region (f i)) { size = len }
          ∷ record { memory = (f i).memory + len; size = (f i).size - len; in_use = false }
          ∷ regions f ys
  regions-carve = rw (
    map-append,
    regions-SameRegions f' g xs (SameAt-SameRegions f' g xs before),
    regions-SameRegions f' g ys after,
    carve_head,
    temp,
    regions-SameRegions f f' xs (SameAt-SameRegions f f' xs (SameAt-left f f' xs (i ∷ ys) same)),
    regions-SameRegions f f' ys (SameAt-SameRegions f f' ys (SameAt-right f f' xs (i ∷ ys) same).1),
  )

  pub carve-Bounded : Bounded g (xs ++ i ∷ t ∷ ys)
  carve-Bounded =
      let (bx, bi, bys) = Bounded-at f xs i ys b in
      let bx' =
        Bounded-SameRegions f f' xs (SameAt-SameRegions f f' xs (SameAt-left f f' xs (i ∷ ys) same))
          bx in
      let by' =
        Bounded-SameRegions f f' ys
          (SameAt-SameRegions f f' ys (SameAt-right f f' xs (i ∷ ys) same).1) bys in
      Bounded-append g xs (i ∷ t ∷ ys)
        (Bounded-SameRegions f' g xs (SameAt-SameRegions f' g xs before) bx')
        (ground (arith, carve_head), (ground (arith, temp), Bounded-SameRegions f' g ys after by'))
