-- ===== src/PhysMem/Chain.antt =====
-- When the headers from a pointer on form a doubly linked list, and what changes keep it so.
use feline_os.Base.{ℕ, ◌≡◌, ◌≢◌, refl, sym, subst, true, false, List, [], ◌∷◌, ◌++◌, arith}
use feline_os.PhysMem.{PhysMemHeader, update}

abbrev pub Headers : Type 0
Headers = ℕ → PhysMemHeader

-- A header that the list may hold.
pub record IsGood (f : Headers) (i : ℕ) : Type 0 where
  pub ne_null : i ≢ 0
  pub used : (f i).header_in_use ≡ true
  pub canary0 : (f i).canary0 ≡ 0xCD
  pub canary1 : (f i).canary1 ≡ 0xEF

-- From `cur`, whose `prev` is `prev`, the links lead through the headers `ids` to null.
abbrev pub IsChain : Headers → ℕ → ℕ → List ℕ → Type 0
IsChain f prev cur [] = cur ≡ 0
IsChain f prev cur (i ∷ is) =
    (cur ≡ i) × ((f i).prev ≡ prev) × IsGood f i × IsChain f i (f i).next is

abbrev pub NotIn : ℕ → List ℕ → Type 0
NotIn i [] = Unit {0}
NotIn i (j ∷ js) = (i ≢ j) × NotIn i js

abbrev pub Distinct : List ℕ → Type 0
Distinct [] = Unit {0}
Distinct (i ∷ is) = NotIn i is × Distinct is

-- `g` has the headers of `f` at all of `ids`.
abbrev pub SameAt : Headers → Headers → List ℕ → Type 0
SameAt f g [] = Unit {0}
SameAt f g (i ∷ is) = (g i ≡ f i) × SameAt f g is

-- The header before the one that follows `xs`.
abbrev pub last : ℕ → List ℕ → ℕ
last prev [] = prev
last prev (x ∷ xs) = last x xs

pub update_ne : (f : Headers) (p q : ℕ) (h : PhysMemHeader) → p ≢ q → update f p h q ≡ f q
unfolding update
update_ne f p q h ne = ground arith

pub update_self : (f : Headers) (p : ℕ) (h : PhysMemHeader) → update f p h p ≡ h
unfolding update
update_self f p h = ground arith

pub SameAt-update :
    (f : Headers) (p : ℕ) (h : PhysMemHeader) (ids : List ℕ)
    → NotIn p ids
    → SameAt f (update f p h) ids
SameAt-update f p h [] n = tt
SameAt-update f p h (i ∷ is) n = (update_ne f p i h n.0, SameAt-update f p h is n.1)

pub SameAt-trans :
    (f g h : Headers) (ids : List ℕ) → SameAt f g ids → SameAt g h ids → SameAt f h ids
SameAt-trans f g h [] p q = tt
SameAt-trans f g h (i ∷ is) p q = (cc, SameAt-trans f g h is p.1 q.1)

IsGood-same : (f g : Headers) (i : ℕ) → g i ≡ f i → IsGood f i → IsGood g i
IsGood-same f g i e v = ground arith

pub IsGood-at :
    (g : Headers) (i : ℕ) (h : PhysMemHeader)
    → i ≢ 0
    → g i ≡ h
    → h.header_in_use ≡ true
    → h.canary0 ≡ 0xCD
    → h.canary1 ≡ 0xEF
    → IsGood g i
IsGood-at g i h ne e u c0 c1 = record {
  ne_null = ne;
  used = ground arith;
  canary0 = ground arith;
  canary1 = ground arith;
}

-- A change elsewhere keeps a chain.
pub IsChain-same :
    (f g : Headers) (prev cur : ℕ) (ids : List ℕ)
    → SameAt f g ids
    → IsChain f prev cur ids
    → IsChain g prev cur ids
IsChain-same f g prev cur [] s c = c
IsChain-same f g prev cur (i ∷ is) (e, s) (at, p, v, c) = (
  at,
  ground arith,
  IsGood-same f g i e v,
  subst (λ (h : PhysMemHeader). IsChain g i h.next is) (sym e)
      (IsChain-same f g i (f i).next is s c),
)

-- The part of a chain from a header on is a chain.
pub IsChain-suffix :
    (f : Headers) (prev cur : ℕ) (xs : List ℕ) (i : ℕ) (ys : List ℕ)
    → IsChain f prev cur (xs ++ i ∷ ys)
    → IsChain f (last prev xs) i (i ∷ ys)
IsChain-suffix f prev cur [] i ys (at, p, v, c) = (refl, p, v, c)
IsChain-suffix f prev cur (x ∷ xs) i ys (at, p, v, c) = IsChain-suffix f x (f x).next xs i ys c

-- Replacing the part from a header on by another chain from it.
pub IsChain-splice :
    (f g : Headers) (prev cur : ℕ) (xs : List ℕ) (i : ℕ) (ys zs : List ℕ)
    → SameAt f g xs
    → IsChain f prev cur (xs ++ i ∷ ys)
    → IsChain g (last prev xs) i (i ∷ zs)
    → IsChain g prev cur (xs ++ i ∷ zs)
IsChain-splice f g prev cur [] i ys zs s c d = (c.0, d.1, d.2, d.3)
IsChain-splice f g prev cur (x ∷ xs) i ys zs (e, s) (at, p, v, c) d = (
  at,
  ground arith,
  IsGood-same f g x e v,
  subst (λ (h : PhysMemHeader). IsChain g x h.next (xs ++ i ∷ zs)) (sym e)
      (IsChain-splice f g x (f x).next xs i ys zs s c d),
)

-- A header that is not in use is in no chain.
pub NotIn-unused :
    (f : Headers) (prev cur t : ℕ) (ids : List ℕ)
    → IsChain f prev cur ids
    → (f t).header_in_use ≡ false
    → NotIn t ids
NotIn-unused f prev cur t [] c u = tt
NotIn-unused f prev cur t (i ∷ is) (at, p, v, c) u =
    ((λ e. differ e), NotIn-unused f i (f i).next t is c u)
  where
    differ : t ≡ i → ⊥
    differ e = ground (arith, v.used)

pub NotIn-append-left : (i : ℕ) (xs ys : List ℕ) → NotIn i (xs ++ ys) → NotIn i xs
NotIn-append-left i [] ys n = tt
NotIn-append-left i (x ∷ xs) ys n = (n.0, NotIn-append-left i xs ys n.1)

pub NotIn-append-right : (i : ℕ) (xs ys : List ℕ) → NotIn i (xs ++ ys) → NotIn i ys
NotIn-append-right i [] ys n = n
NotIn-append-right i (x ∷ xs) ys n = NotIn-append-right i xs ys n.1

-- In a list without repetition the part before an element does not hold it.
pub Distinct-before :
    (xs : List ℕ) (i : ℕ) (ys : List ℕ)
    → Distinct (xs ++ i ∷ ys)
    → NotIn i xs × NotIn i ys × Distinct ys
Distinct-before [] i ys d = (tt, d.0, d.1)
Distinct-before (x ∷ xs) i ys (n, d) =
    let (a, b, c) = Distinct-before xs i ys d in
    (((λ e. (NotIn-append-right x xs (i ∷ ys) n).0 (sym e)), a), b, c)
