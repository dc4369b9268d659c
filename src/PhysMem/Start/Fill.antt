-- ===== src/PhysMem/Start/Fill.antt =====
-- The headers that `start_phys_mem_manager` fills in.
use feline_os.Base.{
  ℕ, zero, suc, ◌+◌, ◌≤◌, ◌<◌, ◌≡◌, false, Option, none, some, List, [], ◌∷◌, u32_mod,
}
use feline_os.Run.{Cmd, done}
use feline_os.PhysMem.{Pmm, page_int}
use feline_os.PhysMem.Chain.{Headers}
use feline_os.PhysMem.Start.{BootloaderMemRegion, Adding, clear_chunk}
use feline_os.PhysMem.Start.Slots.{IsFilled}
use feline_os.PhysMem.Start.Trim.{All, Clear, Trims}

-- The pages of a region are in the area of one of the first `k` slots.
abbrev IsCovered : Headers → ℕ → BootloaderMemRegion → Type 0
IsCovered f k r =
    (j : ℕ) × (j < k)
    × ((f (j + 1)).memory ≤ page_int r.addr)
    × (page_int r.addr + page_int r.len ≤ (f (j + 1)).memory + (f (j + 1)).size)

abbrev pub IsLeftCovered : Headers → ℕ → Option BootloaderMemRegion → Type 0
IsLeftCovered f k none = Unit {0}
IsLeftCovered f k (some r) = IsCovered f k r

-- What trimming by the unavailable regions `us` leaves of each of the available ones is nothing, or it is in the
-- area of one of the first `k` slots, with its start and its length rounded down to pages.
abbrev pub AreCovered : Headers → ℕ → List BootloaderMemRegion → List BootloaderMemRegion → Type 0
AreCovered f k us [] = Unit {0}
AreCovered f k us (a ∷ rs) =
    ((o : Option BootloaderMemRegion) × Trims us a o × IsLeftCovered f k o) × AreCovered f k us rs

-- The areas of the first `k` slots take in those that they had.
abbrev Grows : Headers → Headers → ℕ → Type 0
Grows f g k =
    (j : ℕ)
    → j < k
    → ((g (j + 1)).memory ≤ (f (j + 1)).memory)
      × ((f (j + 1)).memory + (f (j + 1)).size ≤ (g (j + 1)).memory + (g (j + 1)).size)

-- A command that leaves at most `n` more slots filled, and their areas no smaller.
abbrev Fills : ℕ → Cmd Adding (Unit {0}) → Adding → Type 0
Fills n m s =
    (t : Adding) × (m s ≡ done tt t)
    × IsFilled t.headers t.cur_header_offset
    × (s.cur_header_offset ≤ t.cur_header_offset)
    × (t.cur_header_offset ≤ s.cur_header_offset + n)
    × Grows s.headers t.headers s.cur_header_offset

-- Each available region ends in the address space and is one that the unavailable ones are clear of.
abbrev pub AllClear : List BootloaderMemRegion → List BootloaderMemRegion → Type 0
AllClear us rs = All (λ a. (a.addr + a.len < u32_mod) × All (Clear a) us) rs

-- The slots from `j + 1` on, `n` of them.
abbrev pub slots : ℕ → ℕ → List ℕ
slots j zero = []
slots j (suc n) = (j + 1) ∷ slots (j + 1) n

-- The headers from slot 1 on are `k` free ones in a chain.
abbrev pub AreFree : Headers → ℕ → Type 0
AreFree f k = (j : ℕ) → j < k → (f (j + 1)).in_use ≡ false

module _ {L V : Type 0} where
  abbrev fresh_chunk : Pmm L V → Pmm L V
  fresh_chunk s = record s { headers = clear_chunk s.headers; first_header = 1 }
