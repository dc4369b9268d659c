-- ===== src/PhysMem/Merge.antt =====
-- What merging two neighbouring headers does to the chain and to its regions.
use feline_os.Base.{
  ℕ, ◌+◌, ◌≡◌, ◌≢◌, refl, sym, ap, ap₂, subst, false, List, [], ◌∷◌, ◌++◌, arith, ◌==◌, not, ◌&&◌,
  if◌then◌else◌,
}
use feline_os.PhysMem.{PhysMemHeader}
use feline_os.PhysMem.Chain.{
  Headers, IsChain, IsGood-at, NotIn, Distinct, SameAt, last, IsChain-same, IsChain-suffix,
  IsChain-splice, Distinct-before, NotIn-append-right,
}
use feline_os.PhysMem.Regions.{Region, region, regions}
use feline_os.PhysMem.Invariant.{Bounded, Bounded-at, Bounded-append}
use feline_os.PhysMem.Carve.{
  SameRegions, regions-SameRegions, Bounded-SameRegions, SameAt-SameRegions, NotIn-second,
}

-- The header of two neighbours `h` and `n` in one.
abbrev pub both : PhysMemHeader → PhysMemHeader → PhysMemHeader
both h n = record h { size = h.size + n.size; next = n.next }

-- The headers once `b` is merged into `a`, the header before it.
unfoldable pub merged : Headers → ℕ → ℕ → Headers
merged f a b q =
    if a == q
    then both (f a) (f b)
    else if b == q
    then record (f b) { header_in_use = false }
    else if not ((f b).next == 0) && (f b).next == q
    then record (f q) { prev = a }
    else f q

pub merged_self : (f : Headers) (a b : ℕ) → merged f a b a ≡ both (f a) (f b)
unfolding merged
merged_self f a b = ground arith

merged_next :
    (f : Headers) (a b n : ℕ)
    → (f b).next ≡ n
    → n ≢ 0
    → a ≢ n
    → b ≢ n
    → merged f a b n ≡ record (f n) { prev = a }
unfolding merged
merged_next f a b n e nz na nb = ground arith

merged_other :
    (f : Headers) (a b q : ℕ)
    → a ≢ q
    → b ≢ q
    → ((f b).next ≢ 0 → (f b).next ≢ q)
    → merged f a b q ≡ f q
unfolding merged
merged_other f a b q na nb nn = ground arith

merged-SameAt :
    (f : Headers) (a b : ℕ) (ids : List ℕ)
    → NotIn a ids
    → NotIn b ids
    → ((f b).next ≢ 0 → NotIn (f b).next ids)
    → SameAt f (merged f a b) ids
merged-SameAt f a b [] na nb nn = tt
merged-SameAt f a b (q ∷ qs) na nb nn = (
  merged_other f a b q na.0 nb.0 (λ z. (nn z).0),
  merged-SameAt f a b qs na.1 nb.1 (λ z. (nn z).1),
)

NotIn-third :
    (x : ℕ) (xs : List ℕ) (a b j : ℕ) (js : List ℕ) → NotIn x (xs ++ a ∷ b ∷ j ∷ js) → j ≢ x
NotIn-third x xs a b j js n e = (NotIn-append-right x xs (a ∷ b ∷ j ∷ js) n).1.1.0 (sym e)

-- The header behind two that follow `xs` is not in `xs`.
NotIn-after : (xs : List ℕ) (a b j : ℕ) (js : List ℕ) → Distinct (xs ++ a ∷ b ∷ j ∷ js) → NotIn j xs
NotIn-after [] a b j js d = tt
NotIn-after (x ∷ xs) a b j js (n, d) = (NotIn-third x xs a b j js n, NotIn-after xs a b j js d)

NotIn-drop :
    (x : ℕ) (xs : List ℕ) (a b : ℕ) (zs : List ℕ)
    → NotIn x (xs ++ a ∷ b ∷ zs)
    → NotIn x (xs ++ a ∷ zs)
NotIn-drop x [] a b zs (n, (m, k)) = (n, k)
NotIn-drop x (y ∷ xs) a b zs (n, k) = (n, NotIn-drop x xs a b zs k)

pub Distinct-drop :
    (xs : List ℕ) (a b : ℕ) (zs : List ℕ) → Distinct (xs ++ a ∷ b ∷ zs) → Distinct (xs ++ a ∷ zs)
Distinct-drop [] a b zs (n, (m, d)) = (n.1, d)
Distinct-drop (x ∷ xs) a b zs (n, d) = (NotIn-drop x xs a b zs n, Distinct-drop xs a b zs d)

-- The headers behind the two.
tail-IsChain :
    (f : Headers) (a b : ℕ) (zs : List ℕ)
    → IsChain f b (f b).next zs
    → NotIn a zs
    → NotIn b zs
    → Distinct zs
    → IsChain (merged f a b) a (f b).next zs
tail-IsChain f a b [] c na nb d = c
tail-IsChain f a b (j ∷ js) (e, back, v, c) na nb (nj, d) =
    let g = merged f a b in
    let at : g j ≡ record (f j) { prev = a } = merged_next f a b j e v.ne_null na.0 nb.0 in
    let same : SameAt f g js =
      merged-SameAt f a b js na.1 nb.1 (λ _. subst (λ k. NotIn k js) (sym e) nj) in
    (
      e,
      ground (arith, at),
      IsGood-at g j (record (f j) { prev = a }) v.ne_null at v.used v.canary0 v.canary1,
      subst (λ (h : PhysMemHeader). IsChain g j h.next js) (sym at)
          (IsChain-same f g j (f j).next js same c),
    )

tail-SameRegions :
    (f : Headers) (a b : ℕ) (zs : List ℕ)
    → IsChain f b (f b).next zs
    → NotIn a zs
    → NotIn b zs
    → Distinct zs
    → SameRegions f (merged f a b) zs
tail-SameRegions f a b [] c na nb d = tt
tail-SameRegions f a b (j ∷ js) (e, back, v, c) na nb (nj, d) = (
  ap region (merged_next f a b j e v.ne_null na.0 nb.0),
  SameAt-SameRegions f _ js
      (merged-SameAt f a b js na.1 nb.1 (λ _. subst (λ k. NotIn k js) (sym e) nj)),
)

NotIn-behind :
    (f : Headers) (xs : List ℕ) (a b : ℕ) (zs : List ℕ)
    → IsChain f b (f b).next zs
    → Distinct (xs ++ a ∷ b ∷ zs)
    → (f b).next ≢ 0
    → NotIn (f b).next xs
NotIn-behind f xs a b [] c d nz = absurd (nz c)
NotIn-behind f xs a b (j ∷ js) (e, back, v, c) d nz =
    subst (λ k. NotIn k xs) (sym e) (NotIn-after xs a b j js d)

module _ (f : Headers) (first : ℕ) (xs : List ℕ) (a b : ℕ) (zs : List ℕ)
    (c : IsChain f 0 first (xs ++ a ∷ b ∷ zs)) (d : Distinct (xs ++ a ∷ b ∷ zs))
    (bd : Bounded f (xs ++ a ∷ b ∷ zs)) where
  abbrev g : Headers
  g = merged f a b

  pub pair-IsChain : IsChain f (last 0 xs) a (a ∷ b ∷ zs)
  pair-IsChain = IsChain-suffix f 0 first xs a (b ∷ zs) c

  pub parts : NotIn a xs × NotIn a (b ∷ zs) × Distinct (b ∷ zs)
  parts = Distinct-before xs a (b ∷ zs) d

  before : SameAt f g xs
  before =
      merged-SameAt f a b xs parts.0 (NotIn-second xs a b zs d)
        (NotIn-behind f xs a b zs pair-IsChain.3.3 d)

  pub merged-IsChain : IsChain g 0 first (xs ++ a ∷ zs)
  merged-IsChain =
      let (_, back, v, (at, _, _, rest)) = pair-IsChain in
      let self = merged_self f a b in
      IsChain-splice f g 0 first xs a (b ∷ zs) zs before c (
        refl,
        ground (arith, self),
        IsGood-at g a (both (f a) (f b)) v.ne_null self v.used v.canary0 v.canary1,
        subst (λ (h : PhysMemHeader). IsChain g a h.next zs) (sym self)
            (tail-IsChain f a b zs rest parts.1.1 parts.2.0 parts.2.1),
      )

  after : SameRegions f g zs
  after = tail-SameRegions f a b zs pair-IsChain.3.3 parts.1.1 parts.2.0 parts.2.1

  pub merged-before : regions g xs ≡ regions f xs
  merged-before = regions-SameRegions f g xs (SameAt-SameRegions f g xs before)

  pub merged-regions : regions g (a ∷ zs) ≡ region (both (f a) (f b)) ∷ regions f zs
  merged-regions =
      ap₂ (λ (r : Region) rs. r ∷ rs) (ap region (merged_self f a b))
        (regions-SameRegions f g zs after)

  pub merged-Bounded : (f a).memory + (f a).size ≡ (f b).memory → Bounded g (xs ++ a ∷ zs)
  merged-Bounded e =
      let (bx, _, (bb, bz)) = Bounded-at f xs a (b ∷ zs) bd in
      Bounded-append g xs (a ∷ zs)
        (Bounded-SameRegions f g xs (SameAt-SameRegions f g xs before) bx)
        (ground (arith, merged_self f a b), Bounded-SameRegions f g zs after bz)
