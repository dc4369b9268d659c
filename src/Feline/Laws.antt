-- ===== src/Feline/Laws.antt =====
-- Rounding, overlap and byte order.
use feline_os.Base.{
  ℕ, suc, ◌+◌, ◌-◌, ◌*◌, ◌/◌, ◌%◌, ◌≤◌, ◌<◌, ◌≡◌, ◌↔◌, true, some, arith, u32_mod, Bool-cases, inl,
  inr, ◌==◌,
}
use native.Mathlib.Nat.{mod-lt, div-add-mod', mul-mod_left}
use feline_os.Feline.{
  round_up_to_alignment, round_to_multiple_of, Range, overlap, min, max, reverse_endian16,
  reverse_endian32,
}

next_multiple :
    (addr align : ℕ) → 0 < align → addr + (align - addr % align) ≡ suc (addr / align) * align
next_multiple addr align pos = omega (arith, div-add-mod' addr align, mod-lt addr pos)

-- The two rounding functions agree wherever the alignment is not 0.
pub round_up_to_alignment-round_to_multiple_of :
    (value multiple : ℕ)
    → 0 < multiple
    → round_up_to_alignment value multiple ≡ some (round_to_multiple_of value multiple)
unfolding round_up_to_alignment round_to_multiple_of
round_up_to_alignment-round_to_multiple_of value multiple pos = ground arith

-- For an alignment that is not 0 and no overflow, `round_up_to_alignment` succeeds with a multiple of
-- the alignment that is at least the address and less than one alignment above it.
pub round_up_to_alignment_bounds :
    (addr align : ℕ)
    → 0 < align
    → addr + align < u32_mod
    → (r : ℕ) × (round_up_to_alignment addr align ≡ some r)
      × (r % align ≡ 0)
      × (addr ≤ r)
      × (r < addr + align)
unfolding round_up_to_alignment
round_up_to_alignment_bounds addr align pos small = elim (Bool-cases (addr % align == 0)) [
  | inl even ↦ (addr, ground arith, ground arith, omega arith, omega arith)
  | inr odd ↦ (
    addr + (align - addr % align),
    ground (arith, mod-lt addr pos),
    rw (next_multiple addr align pos) (mul-mod_left (suc (addr / align)) align),
    ground (arith, mod-lt addr pos),
    ground arith,
  )
]

-- `overlap` of two ranges, the second one not reversed, is true exactly when some point lies in both,
-- ends included; the first range may be given with its ends in either order.
pub overlap_iff :
    (a b : Range)
    → b.start ≤ b.end
    → (overlap a b ≡ true)
      ↔ ((x : ℕ) × (min a.start a.end ≤ x) × (x ≤ max a.start a.end) × (b.start ≤ x) × (x ≤ b.end))
unfolding overlap
overlap_iff a b h = (
  λ e. (max (min a.start a.end) b.start, ground arith, ground arith, ground arith, ground arith),
  λ (x, p, q, r, s). ground arith,
)

-- Reversing the bytes twice gives the word back.
pub reverse_endian32_twice :
    (value : ℕ) → value < u32_mod → reverse_endian32 (reverse_endian32 value) ≡ value
unfolding reverse_endian32
reverse_endian32_twice value h = omega arith

pub reverse_endian16_twice :
    (value : ℕ) → value < 65_536 → reverse_endian16 (reverse_endian16 value) ≡ value
unfolding reverse_endian16
reverse_endian16_twice value h = omega arith
