-- ===== src/PhysMem/Regions.antt =====
-- The abstract view of the physical memory manager: the areas of the chain, in order.
use feline_os.Base.{
  ℕ, ◌+◌, ◌-◌, Bool, true, false, Option, none, some, List, [], ◌∷◌, ◌++◌, map, not, ◌&&◌, leb,
  ◌==◌, if◌then◌else◌, ltb,
}
use feline_os.PhysMem.{PhysMemHeader}
use feline_os.PhysMem.Chain.{Headers}

pub record Region : Type 0 where
  pub memory : ℕ
  pub size : ℕ
  pub in_use : Bool

abbrev pub region : PhysMemHeader → Region
region h = record { memory = h.memory; size = h.size; in_use = h.in_use }

abbrev pub regions : Headers → List ℕ → List Region
regions f = map (λ i. region (f i))

-- A region that is taken for `len` bytes: whole, or its first `len` bytes with the rest left free.
unfoldable pub carve : ℕ → Region → List Region
carve len r =
    if r.size == len
    then record r { in_use = true } ∷ []
    else record { memory = r.memory; size = len; in_use = true }
      ∷ record { memory = r.memory + len; size = r.size - len; in_use = false }
      ∷ []

-- First fit on regions: the address, and the regions afterwards.
unfoldable pub alloc : ℕ → List Region → Option (ℕ × List Region)
alloc len [] = none
alloc len (r ∷ rs) =
    if not r.in_use && leb len r.size
    then some (r.memory, carve len r ++ rs)
    else elim (alloc len rs) [ none ↦ none | some (a, rest) ↦ some (a, r ∷ rest) ]

-- A region before others: one with the next, where both are free and the next begins where it ends.
unfoldable pub join : Region → List Region → List Region
join r [] = r ∷ []
join r (q ∷ rs) =
    if not r.in_use && (not q.in_use && r.memory + r.size == q.memory)
    then record r { size = r.size + q.size } ∷ rs
    else r ∷ q ∷ rs

-- Regions before others: the last of them joined with what follows.
unfoldable pub join_last : List Region → List Region → List Region
join_last [] rs = rs
join_last (p ∷ []) rs = join p rs
join_last (p ∷ q ∷ qs) rs = p ∷ join_last (q ∷ qs) rs

pub data Release : Type 0 where
  -- No region holds the address, or the one that does is free.
  refused : Release
  -- The region that holds the address ends before what is to be freed does.
  beyond : Release
  released : List Region → Release

-- Freeing the first region that holds `addr`, among those behind `before`.
unfoldable pub release : ℕ → ℕ → List Region → List Region → Release
release addr end before [] = refused
release addr end before (r ∷ rs) =
    let later = release addr end (before ++ r ∷ []) rs in
    if leb r.memory addr && ltb addr (r.memory + r.size)
    then if ltb (r.memory + r.size) end
      then beyond
      else if not r.in_use
      then refused
      else released (join_last before (join (record r { in_use = false }) rs))
    else later
