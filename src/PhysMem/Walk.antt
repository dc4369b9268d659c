-- ===== src/PhysMem/Walk.antt =====
-- The walks along the chain: which header they stop at.
use feline_os.Base.{
  ℕ, zero, suc, ◌≤◌, ◌<◌, ◌≡◌, ◌≢◌, refl, ap, ◌⊎◌, inl, inr, false, not, ◌&&◌, List, [], ◌∷◌, ◌++◌,
  length, arith, leb, Bool-cases,
}
use feline_os.Run.{done}
use feline_os.PhysMem.{PhysMemHeader, Pmm, null}
use feline_os.PhysMem.Headers.{find_free_pages}
use feline_os.PhysMem.Chain.{Headers, IsChain}

-- A header that `find_free_pages` may return.
abbrev pub Fits : ℕ → PhysMemHeader → Type 0
Fits len h = (h.in_use ≡ false) × (len ≤ h.size)

abbrev pub NoneFits : Headers → ℕ → List ℕ → Type 0
NoneFits f len [] = Unit {0}
NoneFits f len (i ∷ is) = ¬ Fits len (f i) × NoneFits f len is

-- The outcome of a first-fit search: null where nothing fits, or else the first that does.
abbrev pub FirstFit : Headers → ℕ → List ℕ → ℕ → Type 0
FirstFit f len ids r =
    ((r ≡ null) × NoneFits f len ids)
    ⊎ ((xs ys : List ℕ) × (ids ≡ xs ++ r ∷ ys) × (r ≢ null) × NoneFits f len xs × Fits len (f r))

FirstFit-cons :
    (f : Headers) (len i : ℕ) (is : List ℕ) (r : ℕ)
    → ¬ Fits len (f i)
    → FirstFit f len is r
    → FirstFit f len (i ∷ is) r
FirstFit-cons f len i is r miss (inl (e, none)) = inl (e, (miss, none))
FirstFit-cons f len i is r miss (inr (xs, ys, e, ne, none, fits)) =
    inr (i ∷ xs, ys, ap (λ l. i ∷ l) e, ne, (miss, none), fits)

module _ {L V : Type 0} where
  -- Along a chain, with fuel for one more than its headers, `find_free_pages` returns without a change
  -- of the state: the first header of the chain that is not in use and has at least `len` bytes, or
  -- null when there is none.
  pub find_free_pages-FirstFit :
      (s : Pmm L V) (len fuel prev cur : ℕ) (ids : List ℕ)
      → IsChain s.headers prev cur ids
      → length ids < fuel
      → (r : ℕ) × (find_free_pages fuel len cur s ≡ done r s) × FirstFit s.headers len ids r
  unfolding find_free_pages
  find_free_pages-FirstFit s len zero prev cur ids c h = absurd (omega arith)
  find_free_pages-FirstFit s len (suc fuel) prev cur [] c h = (null, ground arith, inl (refl, tt))
  find_free_pages-FirstFit s len (suc fuel) prev cur (i ∷ is) (at, p, v, c) h =
      let here = s.headers i in
      elim (Bool-cases (not here.in_use && leb len here.size)) [
        | inl fits ↦
            (i, ground (arith, v.ne_null, v.used), inr ([], is, refl, v.ne_null, tt, ground arith))
        | inr miss ↦
            let (r, run, first) =
              find_free_pages-FirstFit s len fuel i here.next is c (omega arith) in
            (
              r,
              ground (arith, v.ne_null, v.used, run),
              FirstFit-cons s.headers len i is r (λ f. ground arith) first,
            )
      ]
