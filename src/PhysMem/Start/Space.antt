-- ===== src/PhysMem/Start/Space.antt =====
-- The search of `start_phys_mem_manager` for space for its headers.
use feline_os.Base.{
  ℕ, zero, suc, ◌+◌, ◌*◌, ◌/◌, ◌%◌, ◌≤◌, ◌<◌, ◌≡◌, refl, sym, subst, ◌⊎◌, inl, inr, Bool, true,
  false, some, ◌||◌, List, [], ◌∷◌, length, arith, ltb, leb, Bool-cases, if◌then◌else◌, wrap32,
  u32_mod,
}
use feline_os.Feline.{round_up_to_alignment, non_zero}
use feline_os.PhysMem.{null}
use feline_os.PhysMem.Start.{
  BootloaderMemRegion, end_of, is_overlap, Tried, found, retry, try_location, find_space_in_area,
}

-- `size` bytes from `location` on keep off a region.
abbrev apart : ℕ → ℕ → BootloaderMemRegion → Bool
apart location size r = ltb (end_of r) location || ltb (wrap32 (location + size)) r.addr

abbrev AllApart : ℕ → ℕ → List BootloaderMemRegion → Type 0
AllApart location size [] = Unit {0}
AllApart location size (r ∷ rs) =
    ((end_of r < location) ⊎ (wrap32 (location + size) < r.addr)) × AllApart location size rs

-- The regions end two pages before the address space does.
abbrev pub EndEarly : List BootloaderMemRegion → Type 0
EndEarly [] = Unit {0}
EndEarly (r ∷ rs) = (end_of r < 4_294_959_104) × EndEarly rs

-- The number of regions that end at an address or behind it.
pending : List BootloaderMemRegion → ℕ → ℕ
pending [] a = 0
pending (r ∷ rs) a = (if leb a (end_of r) then 1 else 0) + pending rs a

pending_mono : (rs : List BootloaderMemRegion) (a b : ℕ) → a ≤ b → pending rs b ≤ pending rs a
unfolding pending
pending_mono [] a b le = omega arith
pending_mono (r ∷ rs) a b le = ground (arith, pending_mono rs a b le)

pending-length : (rs : List BootloaderMemRegion) (a : ℕ) → pending rs a ≤ length rs
unfolding pending
pending-length [] a = omega arith
pending-length (r ∷ rs) a = ground (arith, pending-length rs a)

Tries : List BootloaderMemRegion → ℕ → ℕ → Tried → Type 0
Tries rs location size (found p) = (p ≡ null) ⊎ ((p ≡ location) × AllApart location size rs)
Tries rs location size (retry n) =
    (location < n) × (n < 4_294_959_105) × ((b : ℕ) → n ≤ b → pending rs b < pending rs location)

Tries-cons :
    (r : BootloaderMemRegion) (rs : List BootloaderMemRegion) (location size : ℕ) (t : Tried)
    → ((end_of r < location) ⊎ (wrap32 (location + size) < r.addr))
    → Tries rs location size t
    → Tries (r ∷ rs) location size t
unfolding Tries pending
Tries-cons r rs location size (found p) far (inl e) = inl e
Tries-cons r rs location size (found p) far (inr (e, all)) = inr (e, (far, all))
Tries-cons r rs location size (retry n) far (lt, bound, less) =
    (lt, bound, λ b le. ground (arith, less b le))

module _ (r : BootloaderMemRegion) (rs : List BootloaderMemRegion) (location size end : ℕ) where
  abbrev room : Bool
  room = ltb (wrap32 (end_of r + size)) end

  try_far :
      apart location size r ≡ true
      → try_location (r ∷ rs) location size end ≡ try_location rs location size end
  unfolding try_location is_overlap
  try_far e = ground (arith, e)

  try_after :
      apart location size r ≡ false
      → room ≡ true
      → try_location (r ∷ rs) location size end ≡ retry (wrap32 (end_of r + 1))
  unfolding try_location is_overlap
  try_after e f = ground (arith, e, f)

  try_fail :
      apart location size r ≡ false
      → room ≡ false
      → try_location (r ∷ rs) location size end ≡ found null
  unfolding try_location is_overlap
  try_fail e f = ground (arith, e, f)

try_location-Tries :
    (rs : List BootloaderMemRegion) (location size end : ℕ)
    → EndEarly rs
    → Tries rs location size (try_location rs location size end)
unfolding Tries try_location pending
try_location-Tries [] location size end early = inr (refl, tt)
try_location-Tries (r ∷ rs) location size end (here, early) =
    let goal : Tried → Type 0 = Tries (r ∷ rs) location size in
    elim (Bool-cases (apart location size r)) [
      | inl far ↦ subst goal (sym (try_far r rs location size end far)) (
          Tries-cons r rs location size _ (ground arith)
            (try_location-Tries rs location size end early))
      | inr near ↦ elim (Bool-cases (room r rs location size end)) [
        | inl e ↦ subst goal (sym (try_after r rs location size end near e)) (
          ground arith,
          ground arith,
          λ b le. ground (arith, pending_mono rs location b (ground arith)),
        )
        | inr e ↦ subst goal (sym (try_fail r rs location size end near e)) (inl refl)
      ]
    ]

round_up :
    (a : ℕ) → a < 4_294_963_200 → round_up_to_alignment a 4_096 ≡ some ((a + 4_095) / 4_096 * 4_096)
unfolding round_up_to_alignment non_zero
round_up a h = ground arith

-- What the search finds from `location` on, by the code's own test.
abbrev Found : List BootloaderMemRegion → ℕ → ℕ → ℕ → Type 0
Found rs location size p = (p ≡ null) ⊎ ((p % 4_096 ≡ 0) × (location ≤ p) × AllApart p size rs)

-- No region meets the `size` bytes from `location` on.
abbrev pub AllOff : ℕ → ℕ → List BootloaderMemRegion → Type 0
AllOff location size [] = Unit {0}
AllOff location size (r ∷ rs) =
    ((end_of r < location) ⊎ (location + size < r.addr)) × AllOff location size rs

-- Null; or a page from `location` on, with `size` bytes that reach the end of the address space, where the
-- code does not look, or that no region meets.
abbrev pub IsSpace : List BootloaderMemRegion → ℕ → ℕ → ℕ → Type 0
IsSpace rs location size p =
    (p ≡ null) ⊎ ((p % 4_096 ≡ 0) × (location ≤ p) × ((u32_mod ≤ p + size) ⊎ AllOff p size rs))

AllApart-AllOff :
    (location size : ℕ) (rs : List BootloaderMemRegion)
    → location + size < u32_mod
    → AllApart location size rs
    → AllOff location size rs
AllApart-AllOff location size [] small all = tt
AllApart-AllOff location size (r ∷ rs) small (inl before, all) =
    (inl before, AllApart-AllOff location size rs small all)
AllApart-AllOff location size (r ∷ rs) small (inr behind, all) =
    (inr (omega arith), AllApart-AllOff location size rs small all)

Found-IsSpace :
    (rs : List BootloaderMemRegion) (location size p : ℕ)
    → Found rs location size p
    → IsSpace rs location size p
Found-IsSpace rs location size p (inl zero_is) = inl zero_is
Found-IsSpace rs location size p (inr (al, from, all)) =
    elim (Bool-cases (ltb (p + size) u32_mod)) [
      | inl low ↦ inr (al, from, inr (AllApart-AllOff p size rs (ground (arith, low)) all))
      | inr high ↦ inr (al, from, inl (ground (arith, high)))
    ]

module _ (rs : List BootloaderMemRegion) (end size : ℕ) (early : EndEarly rs) where
  Searches : ℕ → ℕ → Type 0
  Searches fuel location =
      (p : ℕ) × (find_space_in_area fuel rs location end size ≡ some p) × Found rs location size p

  search_step :
      (fuel location : ℕ) (t : Tried)
      → location < 4_294_963_200
      → try_location rs ((location + 4_095) / 4_096 * 4_096) size end ≡ t
      → Tries rs ((location + 4_095) / 4_096 * 4_096) size t
      → ((n : ℕ)
          → location < n
          → n < 4_294_963_200
          → pending rs n < pending rs location
          → Searches fuel n)
      → Searches (suc fuel) location
  unfolding find_space_in_area Tries Searches
  search_step fuel location (found p) low e (inl zero_is) next =
      (p, ground (arith, round_up location low, e), inl zero_is)
  search_step fuel location (found p) low e (inr (at, all)) next = (
    p,
    ground (arith, round_up location low, e),
    inr (omega arith, omega arith, subst (λ q. AllApart q size rs) (sym at) all),
  )
  search_step fuel location (retry n) low e (lt, bound, less) next =
      let (p, run, space) = next n (omega arith) (omega arith) (
        omega (
          arith,
          less n (omega arith),
          pending_mono rs location ((location + 4_095) / 4_096 * 4_096) (omega arith),
        )) in
      (
        p,
        ground (arith, round_up location low, e, run),
        Found-from location n p (omega arith) space,
      )
    where
      Found-from : (a b p : ℕ) → a ≤ b → Found rs b size p → Found rs a size p
      Found-from a b p le (inl zero_is) = inl zero_is
      Found-from a b p le (inr (al, from, all)) = inr (al, omega arith, all)

  search :
      (fuel location : ℕ)
      → location < 4_294_963_200
      → pending rs location < fuel
      → Searches fuel location
  unfolding find_space_in_area
  search zero location low enough = absurd (omega arith)
  search (suc fuel) location low enough =
      search_step fuel location _ low refl
        (try_location-Tries rs ((location + 4_095) / 4_096 * 4_096) size end early)
        (λ n lt b less. search fuel n b (omega arith))

  -- Where every unavailable region ends more than two pages before the end of the address space and the
  -- search begins before its last page, fuel for one more than the regions is enough for
  -- `find_space_in_area`. What it finds is null, or else the start of a page at or behind the start of
  -- the search, from which `size` bytes reach the end of the address space, or such that every region
  -- ends before it or begins behind `size` bytes from it on.
  pub find_space_in_area-IsSpace :
      (fuel location : ℕ)
      → location < 4_294_963_200
      → length rs < fuel
      → (p : ℕ) × (find_space_in_area fuel rs location end size ≡ some p)
        × IsSpace rs location size p
  unfolding Searches
  find_space_in_area-IsSpace fuel location low enough =
      let (p, run, space) = search fuel location low (omega (arith, pending-length rs location)) in
      (p, run, Found-IsSpace rs location size p space)
