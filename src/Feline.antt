-- ===== src/Feline.antt =====
-- The arithmetic headers of system/libFeline/include/feline: align.h, rounding.h, minmax.h, ranges.h,
-- nonzero.h and reverse_endian.h. Words are numbers below 2 ^ 32. A mask with a run of ones and a
-- shift are written by `%`, `/` and `*`, and an `|=` of fields that share no bit by `+`.
pub mod Laws
use feline_os.Base.{
  ℕ, ◌+◌, ◌-◌, ◌*◌, ◌/◌, ◌%◌, ◌≤◌, ◌<◌, Bool, true, false, Option, none, some, ◌&&◌, ltb, leb, ◌==◌,
  if◌then◌else◌, wrap32, u32_mod,
}

-- `NonZero(val)`: none is the fatal error.
unfoldable pub non_zero : ℕ → Option ℕ
non_zero val = if val == 0 then none else some val

unfoldable pub round_up_to_alignment : ℕ → ℕ → Option ℕ
unfolding non_zero
round_up_to_alignment addr align = elim (non_zero align) [
  | none ↦ none
  | some a ↦ some (if addr % a == 0 then addr else wrap32 (wrap32 (addr + a) + u32_mod - addr % a))
]

unfoldable pub round_to_multiple_of : ℕ → ℕ → ℕ
round_to_multiple_of value multiple =
    if multiple == 0
    then value
    else let remainder = value % multiple in
      if remainder == 0 then value else wrap32 (wrap32 (value + multiple) + u32_mod - remainder)

unfoldable pub min : ℕ → ℕ → ℕ
min a b = if ltb b a then b else a

unfoldable pub max : ℕ → ℕ → ℕ
max a b = if ltb b a then a else b

pub record Range : Type 0 where
  pub start : ℕ
  pub end : ℕ

unfoldable pub overlap : Range → Range → Bool
unfolding min max
overlap a b = leb b.start (max a.start a.end) && leb (min a.start a.end) b.end

-- `(value & 0xff00) >> 8 | (value & 0x00ff) << 8`
unfoldable pub reverse_endian16 : ℕ → ℕ
reverse_endian16 value = value / 256 % 256 + value % 256 * 256

unfoldable pub reverse_endian32 : ℕ → ℕ
reverse_endian32 value =
    value / 16_777_216 % 256
    + value / 65_536 % 256 * 256
    + value / 256 % 256 * 65_536
    + value % 256 * 16_777_216
