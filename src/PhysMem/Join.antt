-- ===== src/PhysMem/Join.antt =====
-- `merge_adjacent_headers` joins the regions of neighbouring free headers.
use feline_os.Base.{
  ℕ, ◌+◌, ◌<◌, ◌≡◌, ◌≢◌, refl, sym, ap, ap₂, ◌∙◌, subst, ◌⊎◌, inl, inr, true, false, not, ◌&&◌,
  List, [], ◌∷◌, ◌++◌, arith, ◌==◌, Bool-cases, uintptr_max,
}
use mathlib.Core.List.{map-append, append_assoc}
use feline_os.Run.{done}
use feline_os.PhysMem.{PhysMemHeader, Pmm}
use feline_os.PhysMem.Area.{merge_next, merge_prev}
use feline_os.PhysMem.Chain.{Headers, IsChain, Distinct, IsChain-suffix}
use feline_os.PhysMem.Regions.{Region, region, regions, join, join_last}
use feline_os.PhysMem.Invariant.{IsPmm, Bounded-at}
use feline_os.PhysMem.Stored.{
  with_merged, merge_next-merged, merge_prev-merged, merge_next-alone, merge_prev-alone,
}
use feline_os.PhysMem.Merge.{
  Distinct-drop, pair-IsChain, parts, merged-IsChain, merged-before, merged-regions, merged-Bounded,
  merged_self,
}

snoc-cases : (xs : List ℕ) → (xs ≡ []) ⊎ ((ws : List ℕ) × (a : ℕ) × (xs ≡ ws ++ a ∷ []))
snoc-cases [] = inl refl
snoc-cases (x ∷ xs) = elim (snoc-cases xs) [
  | inl e ↦ inr ([], x, ap (λ k. x ∷ k) e)
  | inr (ws, a, e) ↦ inr (x ∷ ws, a, ap (λ k. x ∷ k) e)
]

join_last-snoc :
    (ps : List Region) (p : Region) (rs : List Region)
    → join_last (ps ++ p ∷ []) rs ≡ ps ++ join p rs
unfolding join_last
join_last-snoc [] p rs = refl
join_last-snoc (q ∷ []) p rs = refl
join_last-snoc (q ∷ r ∷ ps) p rs = ap (λ k. q ∷ k) (join_last-snoc (r ∷ ps) p rs)

-- The header behind a header differs from it and from the one before it.
behind_ne :
    (f : Headers) (a b : ℕ) (zs : List ℕ)
    → IsChain f b (f b).next zs
    → Distinct (a ∷ b ∷ zs)
    → a ≢ 0
    → b ≢ 0
    → ((f b).next ≢ a) × ((f b).next ≢ b)
behind_ne f a b [] e d za zb = ((λ q. za (cc)), λ q. zb (cc))
behind_ne f a b (j ∷ js) (e, back, v, c) ((_, (na, _)), ((nb, _), _)) za zb =
    ((λ q. na (cc)), λ q. nb (cc))

module _ {L V : Type 0} where
  -- Two neighbours `a` and `b` of the chain, where the area of `b` begins at the end of that of `a`.
  module _ (s : Pmm L V) (xs : List ℕ) (a b : ℕ) (zs : List ℕ)
      (v : IsPmm s (xs ++ a ∷ b ∷ zs)) where
    links :
        ((s.headers a).next ≡ b)
        × ((s.headers b).prev ≡ a)
        × (a ≢ 0)
        × (b ≢ 0)
        × (a ≢ b)
        × ((s.headers b).next ≢ a)
        × ((s.headers b).next ≢ b)
    links =
        let (_, _, ga, (at, back, gb, rest)) =
          pair-IsChain s.headers s.first_header xs a b zs v.chain v.distinct v.bounded in
        let (_, na, nb) = parts s.headers s.first_header xs a b zs v.chain v.distinct v.bounded in
        let (p, q) = behind_ne s.headers a b zs rest (na, nb) ga.ne_null gb.ne_null in
        (at, back, ga.ne_null, gb.ne_null, na.0, p, q)

    bounds :
        ((s.headers a).memory + (s.headers a).size < uintptr_max)
        × ((s.headers b).memory + (s.headers b).size < uintptr_max)
    bounds = let (_, p, q) = Bounded-at s.headers xs a (b ∷ zs) v.bounded in (p, q.0)

    merged-IsPmm :
        (s.headers a).memory + (s.headers a).size ≡ (s.headers b).memory
        → IsPmm (with_merged s a b) (xs ++ a ∷ zs)
    merged-IsPmm e = record {
      chain = merged-IsChain s.headers s.first_header xs a b zs v.chain v.distinct v.bounded;
      distinct = Distinct-drop xs a b zs v.distinct;
      bounded = merged-Bounded s.headers s.first_header xs a b zs v.chain v.distinct v.bounded e;
    }

  -- `merge_next` on a free header joins its region with the one behind it.
  abbrev pub NextJoined : Pmm L V → List ℕ → ℕ → List ℕ → Type 0
  NextJoined s xs a ys =
      (s' : Pmm L V) × (ys' : List ℕ) × (merge_next a s ≡ done tt s')
      × IsPmm s' (xs ++ a ∷ ys')
      × (regions s'.headers xs ≡ regions s.headers xs)
      × (regions s'.headers (a ∷ ys') ≡ join (region (s.headers a)) (regions s.headers ys))
      × ((s'.headers a).in_use ≡ false)
      × (s'.modifying_pmm ≡ s.modifying_pmm)

  pub merge_next-joined :
      (s : Pmm L V) (xs : List ℕ) (a : ℕ) (ys : List ℕ)
      → IsPmm s (xs ++ a ∷ ys)
      → (s.headers a).in_use ≡ false
      → NextJoined s xs a ys
  unfolding join
  merge_next-joined s xs a [] v free =
      let (_, ba, _) = Bounded-at s.headers xs a [] v.bounded in
      let (_, _, _, e) = IsChain-suffix s.headers 0 s.first_header xs a [] v.chain in
      (s, [], merge_next-alone s a ba (λ nz. absurd (nz e)), v, refl, refl, free, refl)
  merge_next-joined s xs a (b ∷ zs) v free =
      let f = s.headers in
      let (at, back, za, zb, ne, na, nb) = links s xs a b zs v in
      let (ba, bb) = bounds s xs a b zs v in
      elim (Bool-cases (not (f b).in_use && (f a).memory + (f a).size == (f b).memory)) [
        | inl e ↦
            let touch : (f a).memory + (f a).size ≡ (f b).memory = ground arith in
            let u : (f b).in_use ≡ false = ground arith in
            let run = merge_next-merged s a b at zb u touch ba bb ne (na, nb) in
            (
              with_merged s a b,
              zs,
              run,
              merged-IsPmm s xs a b zs v touch,
              merged-before f s.first_header xs a b zs v.chain v.distinct v.bounded,
              merged-regions f s.first_header xs a b zs v.chain v.distinct v.bounded
                  ∙ sym (rw (free, e) refl),
              ap (λ (h : PhysMemHeader). h.in_use) (merged_self f a b) ∙ free,
              refl,
            )
        | inr e ↦ (
          s,
          b ∷ zs,
          merge_next-alone s a ba (λ nz u. ground (arith, at)),
          v,
          refl,
          sym (rw (free, e) refl),
          free,
          refl,
        )
      ]

  -- `merge_prev` on a free header joins it with the last region before it.
  abbrev pub PrevJoined : Pmm L V → List ℕ → ℕ → List ℕ → Type 0
  PrevJoined s xs b ys =
      (s' : Pmm L V) × (ids : List ℕ) × (merge_prev b s ≡ done tt s')
      × IsPmm s' ids
      × (regions s'.headers ids ≡ join_last (regions s.headers xs) (regions s.headers (b ∷ ys)))
      × (s'.modifying_pmm ≡ s.modifying_pmm)

  merge_prev-pair :
      (s : Pmm L V) (ws : List ℕ) (a b : ℕ) (ys : List ℕ)
      → IsPmm s (ws ++ a ∷ b ∷ ys)
      → (s.headers b).in_use ≡ false
      → (s' : Pmm L V) × (ids : List ℕ) × (merge_prev b s ≡ done tt s')
        × IsPmm s' ids
        × (regions s'.headers ids
            ≡ regions s.headers ws ++ join (region (s.headers a)) (regions s.headers (b ∷ ys)))
        × (s'.modifying_pmm ≡ s.modifying_pmm)
  unfolding join
  merge_prev-pair s ws a b ys v free =
      let f = s.headers in
      let (at, back, za, zb, ne, na, nb) = links s ws a b ys v in
      let (ba, bb) = bounds s ws a b ys v in
      elim (Bool-cases (not (f a).in_use && (f a).memory + (f a).size == (f b).memory)) [
        | inl e ↦
            let touch : (f a).memory + (f a).size ≡ (f b).memory = ground arith in
            let u : (f a).in_use ≡ false = ground arith in
            let run = merge_prev-merged s a b back za u touch ba bb ne (na, nb) in
            let test : ((f a).memory + (f a).size == (f b).memory) ≡ true = ground arith in
            (
              with_merged s a b,
              ws ++ a ∷ ys,
              run,
              merged-IsPmm s ws a b ys v touch,
              map-append _ ws _
                  ∙ ap₂ (λ (p q : List Region). p ++ q)
                      (merged-before f s.first_header ws a b ys v.chain v.distinct v.bounded)
                      (merged-regions f s.first_header ws a b ys v.chain v.distinct v.bounded
                        ∙ sym (rw (u, free, test) refl)),
              refl,
            )
        | inr e ↦ (
          s,
          ws ++ a ∷ b ∷ ys,
          merge_prev-alone s b (λ nz. ground (arith, back)) (λ nz u. ground (arith, back)),
          v,
          map-append _ ws _ ∙ ap (λ (q : List Region). regions f ws ++ q) (sym (rw (free, e) refl)),
          refl,
        )
      ]

  pub merge_prev-joined :
      (s : Pmm L V) (xs : List ℕ) (b : ℕ) (ys : List ℕ)
      → IsPmm s (xs ++ b ∷ ys)
      → (s.headers b).in_use ≡ false
      → PrevJoined s xs b ys
  unfolding join_last
  merge_prev-joined s xs b ys v free = elim (snoc-cases xs) [
    | inl e ↦
        subst (λ zs. IsPmm s (zs ++ b ∷ ys) → PrevJoined s zs b ys) (sym e)
          (λ (w : IsPmm s (b ∷ ys)).
            let none : (s.headers b).prev ≡ 0 = w.chain.1 in
            (
              s,
              b ∷ ys,
              merge_prev-alone s b (λ nz. absurd (nz none)) (λ nz. absurd (nz none)),
              w,
              refl,
              refl,
            ))
          v
    | inr (ws, a, e) ↦
        let (s', ids, run, w, view, lock) =
          merge_prev-pair s ws a b ys
            (subst (λ k. IsPmm s k) (ap (λ k. k ++ b ∷ ys) e ∙ append_assoc ws (a ∷ []) (b ∷ ys)) v)
            free in
        (
          s',
          ids,
          run,
          w,
          view
              ∙ sym (
                  ap (λ k. join_last (regions s.headers k) (regions s.headers (b ∷ ys))) e
                  ∙ ap (λ k. join_last k (regions s.headers (b ∷ ys))) (map-append _ ws _)
                  ∙ join_last-snoc (regions s.headers ws) (region (s.headers a))
                      (regions s.headers (b ∷ ys))),
          lock,
        )
  ]
