-- ===== src/PhysMem/Start/Trim.antt =====
-- The loop of `try_add_available_memory_region` over the unavailable regions.
use feline_os.Base.{
  ℕ, zero, suc, ◌+◌, ◌-◌, ◌≤◌, ◌<◌, ◌≡◌, refl, ◌⊎◌, Option, none, some, List, [], ◌∷◌, arith,
  u32_mod,
}
use feline_os.Feline.{overlap, min, max}
use feline_os.Run.{Cmd, stuck}
use feline_os.PhysMem.Start.{
  BootloaderMemRegion, Adding, trim_region, trim_loop, try_add_available_memory_region,
}

-- One of the regions has a property.
abbrev pub Some : (BootloaderMemRegion → Type 0) → List BootloaderMemRegion → Type 0
Some P [] = ⊥
Some P (u ∷ us) = P u ⊎ Some P us

abbrev pub All : (BootloaderMemRegion → Type 0) → List BootloaderMemRegion → Type 0
All P [] = Unit {0}
All P (u ∷ us) = P u × All P us

-- Two regions with no address in common, not even the end of one.
abbrev pub Off : BootloaderMemRegion → BootloaderMemRegion → Type 0
Off a u = (a.addr + a.len < u.addr) ⊎ (u.addr + u.len < a.addr)

-- An unavailable region that keeps off an available one, or that begins no later and covers it or
-- leaves a page of it.
abbrev pub Clear : BootloaderMemRegion → BootloaderMemRegion → Type 0
Clear a u =
    (u.addr + u.len < u32_mod)
    × (Off a u
        ⊎ ((u.addr ≤ a.addr)
            × ((a.addr + a.len ≤ u.addr + u.len) ⊎ (u.addr + u.len + 4_096 ≤ a.addr + a.len))))

-- `r` is an end of `a` that keeps off `u`.
record IsRest (u a r : BootloaderMemRegion) : Type 0 where
  pub after : a.addr ≤ r.addr
  pub same_end : r.addr + r.len ≡ a.addr + a.len
  pub off : Off r u
  pub start : (r.addr ≡ a.addr) ⊎ (r.addr ≡ u.addr + u.len + 4_096)

abbrev Covers : BootloaderMemRegion → BootloaderMemRegion → Type 0
Covers a u = (u.addr ≤ a.addr) × (a.addr + a.len ≤ u.addr + u.len)

-- What is left of `a`.
Leaves : BootloaderMemRegion → BootloaderMemRegion → Option BootloaderMemRegion → Type 0
Leaves u a none = Covers a u
Leaves u a (some r) = IsRest u a r

abbrev Recursion : Type 0
Recursion = BootloaderMemRegion → Cmd Adding (Unit {0})

-- An end of `a` that keeps off all of `us`, and begins where `a` does or a page behind one of them.
pub record IsTrimmed (us : List BootloaderMemRegion) (a r : BootloaderMemRegion) : Type 0 where
  pub after : a.addr ≤ r.addr
  pub same_end : r.addr + r.len ≡ a.addr + a.len
  pub off : All (Off r) us
  pub start : (r.addr ≡ a.addr) ⊎ Some (λ u. r.addr ≡ u.addr + u.len + 4_096) us

-- What the loop leaves: nothing, where one of the regions ends no earlier than `a`, or the rest.
abbrev pub Trims :
    List BootloaderMemRegion → BootloaderMemRegion → Option BootloaderMemRegion → Type 0
Trims us a none = Some (λ u. a.addr + a.len ≤ u.addr + u.len) us
Trims us a (some r) = IsTrimmed us a r

-- Where the first unavailable region is inside the available one, begins in the first page of the memory
-- and is shorter than the address space less a page, the part before it has a length below zero, which
-- wraps around: the function calls itself with the same start and that length for ever, whatever the
-- fuel.
pub try_add_available_memory_region-spins :
    (fuel : ℕ) (u a : BootloaderMemRegion) (us : List BootloaderMemRegion) (s : Adding)
    → a.addr + a.len < u32_mod
    → a.addr < u.addr
    → u.addr < 4_096
    → u.addr + u.len < a.addr + a.len
    → u.len < 4_294_963_200
    → try_add_available_memory_region fuel (u ∷ us) a s ≡ stuck
unfolding try_add_available_memory_region trim_loop trim_region overlap min max
try_add_available_memory_region-spins zero u a us s small lt low inside bound = refl
try_add_available_memory_region-spins (suc fuel) u a us s small lt low inside bound =
    let a' : BootloaderMemRegion = record {
      addr = a.addr;
      len = u.addr + 4_294_967_296 - a.addr - 4_096;
    } in
    let rest =
      try_add_available_memory_region-spins fuel u a' us s (omega arith) lt low (omega arith)
        bound in
    ground (arith, rest)
