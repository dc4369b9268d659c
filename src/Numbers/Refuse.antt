-- ===== src/Numbers/Refuse.antt =====
-- What `strtoul` gives.
use feline_os.Base.{
  ℕ, zero, suc, ◌+◌, ◌*◌, ◌≤◌, ◌<◌, ◌≡◌, refl, ap, ◌∙◌, Bool, true, false, Option, none, some, ltb,
  leb, ◌==◌, ◌||◌, if◌then◌else◌, wrap32, u32_mod, arith, Bool-cases, inl, inr,
}
use native.Mathlib.Nat.{mul-le-mul_left, mul-le-mul_right, le_trans}
use feline_os.Strings.{Bytes}
use feline_os.Numbers.Strtoul.{
  Errno, finish, parse_number, einval, erange, skip_space, read_sign, read_prefixes, digit_to_num,
  convert_loop, strtoul,
}

convert_loop-ends :
    (fuel base nptr result : ℕ) (m : Bytes)
    → base ≤ digit_to_num (m nptr)
    → convert_loop (suc fuel) base m nptr result ≡ some (some (result, nptr))
unfolding convert_loop
convert_loop-ends fuel base nptr result m le = ground (arith, le)

convert_loop-spins :
    (fuel base nptr : ℕ) (m : Bytes)
    → digit_to_num (m nptr) ≡ 0
    → 0 < base
    → convert_loop fuel base m nptr 0 ≡ none
unfolding convert_loop
convert_loop-spins zero base nptr m e lt = refl
convert_loop-spins (suc fuel) base nptr m e lt =
    ground (arith, e, lt, convert_loop-spins fuel base nptr m e lt)

pow_2 : ℕ → ℕ
pow_2 zero = 1
pow_2 (suc k) = 2 * pow_2 k

abbrev overflows : ℕ → ℕ → ℕ → Bool
overflows base digit result =
    leb u32_mod (result * base) || leb u32_mod (wrap32 (result * base) + digit)

convert_loop-digit :
    (fuel base nptr result : ℕ) (m : Bytes)
    → digit_to_num (m nptr) < base
    → convert_loop (suc fuel) base m nptr result ≡ (
        if overflows base (digit_to_num (m nptr)) result
        then some none
        else convert_loop fuel base m nptr
            (wrap32 (wrap32 (result * base) + digit_to_num (m nptr))))
unfolding convert_loop
convert_loop-digit fuel base nptr result m below = ground (arith, below)

-- A round at least doubles one more than the result.
grows : (r b d t : ℕ) → 0 < d → d < b → (r + 1) * (2 * t) ≤ (r * b + d + 1) * t
grows r b d t pos below =
    let doubled : r * 2 ≤ r * b = mul-le-mul_left r (omega arith) in
    let more : (2 * (r + 1)) * t ≤ (r * b + d + 1) * t = mul-le-mul_right t (omega arith) in
    let moved : (r + 1) * (2 * t) ≡ (2 * (r + 1)) * t = grind arith in rw moved more

no_overflow : (r b d : ℕ) → overflows b d r ≡ false → wrap32 (wrap32 (r * b) + d) ≡ r * b + d
no_overflow r b d e = ground (arith, e)

at_least_double : (r b d : ℕ) → 0 < d → d < b → u32_mod ≤ (r + 1) * 1 → overflows b d r ≡ true
at_least_double r b d pos below enough =
    let doubled : r * 2 ≤ r * b = mul-le-mul_left r (omega arith) in ground arith

convert_loop-overflows :
    (fuel base nptr result : ℕ) (m : Bytes)
    → 0 < digit_to_num (m nptr)
    → digit_to_num (m nptr) < base
    → u32_mod ≤ (result + 1) * pow_2 fuel
    → convert_loop (suc fuel) base m nptr result ≡ some none
unfolding pow_2
convert_loop-overflows zero base nptr result m pos below enough =
    simp
      (
        convert_loop-digit zero base nptr result m below,
        at_least_double result base (digit_to_num (m nptr)) pos below enough,
      )
      refl
convert_loop-overflows (suc fuel) base nptr result m pos below enough =
    elim (Bool-cases (overflows base (digit_to_num (m nptr)) result)) [
      | inl over ↦ convert_loop-digit (suc fuel) base nptr result m below ∙ simp over refl
      | inr fits ↦
          convert_loop-digit (suc fuel) base nptr result m below
          ∙ simp fits (
              convert_loop-overflows fuel base nptr
                (wrap32 (wrap32 (result * base) + digit_to_num (m nptr))) m pos below
                (rw (no_overflow result base (digit_to_num (m nptr)) fits) (
                  le_trans enough
                    (grows result base (digit_to_num (m nptr)) (pow_2 fuel) pos below))))
    ]

-- 33 doublings pass every word.
pow_2_mono : (k n : ℕ) → k ≤ n → pow_2 k ≤ pow_2 n
unfolding pow_2
pow_2_mono zero zero le = omega arith
pow_2_mono zero (suc n) le = omega (arith, pow_2_mono zero n (omega arith))
pow_2_mono (suc k) zero le = absurd (omega arith)
pow_2_mono (suc k) (suc n) le = omega (arith, pow_2_mono k n (omega arith))

rounds_enough : (fuel : ℕ) → 32 < fuel → u32_mod ≤ (0 + 1) * pow_2 fuel
unfolding pow_2
rounds_enough fuel lt = omega (arith, pow_2_mono 32 fuel (omega arith))

-- The base and the place of the digits, as `strtoul` sees them behind white space.
abbrev pub digits_at : Bytes → ℕ → ℕ → ℕ × ℕ
digits_at m base nptr = read_prefixes m base (read_sign m nptr).1

module _ (fuel original_nptr nptr base : ℕ) (m : Bytes)
    (skipped : skip_space fuel m original_nptr ≡ some nptr) where
  strtoul-finish :
      (r : Option (Option (ℕ × ℕ)))
      → convert_loop fuel (digits_at m base nptr).0 m (digits_at m base nptr).1 0 ≡ r
      → strtoul fuel m original_nptr base
        ≡ finish
            (if base == 1 || ltb 36 base then some einval else none)
            original_nptr
            (read_sign m nptr).0
            (digits_at m base nptr).1
            r
  unfolding strtoul parse_number
  strtoul-finish r e =
      ap (parse_number fuel m original_nptr base) skipped
      ∙ ap
          (finish (if base == 1 || ltb 36 base then some einval else none) original_nptr
            (read_sign m nptr).0 (digits_at m base nptr).1)
          e

same_place :
    (o : Option Errno) (start nptr result : ℕ) (negative : Bool)
    → finish o start negative nptr (some (some (result, nptr)))
      ≡ some (record { result = 0; errno = some einval; endptr = some start })
unfolding finish
same_place o start nptr result negative = ground arith

-- `strtoul` never gives a number but 0. Where the place behind white space, what it takes for a sign and
-- what it takes for a prefix holds no digit of the base, it ends with EINVAL and the start of the string for
-- `endptr`; where it holds the digit 0, `strtoul` does not end; and where it holds another digit, 34 rounds
-- are enough for it to end with ERANGE, whatever follows.
pub strtoul_cases :
    (fuel original_nptr nptr base : ℕ) (m : Bytes)
    → skip_space fuel m original_nptr ≡ some nptr
    → 33 < fuel
    → ((digits_at m base nptr).0 ≤ digit_to_num (m (digits_at m base nptr).1)
        → strtoul fuel m original_nptr base
          ≡ some (record { result = 0; errno = some einval; endptr = some original_nptr }))
      × (digit_to_num (m (digits_at m base nptr).1) ≡ 0
          → 0 < (digits_at m base nptr).0
          → strtoul fuel m original_nptr base ≡ none)
      × (0 < digit_to_num (m (digits_at m base nptr).1)
          → digit_to_num (m (digits_at m base nptr).1) < (digits_at m base nptr).0
          → strtoul fuel m original_nptr base
            ≡ some (record { result = 0; errno = some erange; endptr = none }))
unfolding finish
strtoul_cases zero original_nptr nptr base m skipped enough = absurd (omega arith)
strtoul_cases (suc fuel) original_nptr nptr base m skipped enough =
    let digits = digits_at m base nptr in
    (
      λ le.
          strtoul-finish (suc fuel) original_nptr nptr base m skipped (some (some (0, digits.1)))
            (convert_loop-ends fuel digits.0 digits.1 0 m le)
          ∙ same_place (if base == 1 || ltb 36 base then some einval else none) original_nptr
              digits.1 0 (read_sign m nptr).0,
      λ e lt.
          strtoul-finish (suc fuel) original_nptr nptr base m skipped none
            (convert_loop-spins (suc fuel) digits.0 digits.1 m e lt),
      λ pos below. strtoul-finish (suc fuel) original_nptr nptr base m skipped (some none) (
          convert_loop-overflows fuel digits.0 digits.1 0 m pos below
            (rounds_enough fuel (omega arith))),
    )
