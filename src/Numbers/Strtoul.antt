-- ===== src/Numbers/Strtoul.antt =====
-- system/libc/stdlib/strto.cpp: `strtoul`. Memory is a function from addresses to bytes, and a literal is
-- the list of its bytes. `unsigned long` has 32 bits, and `base` is not negative. Loops have fuel.
use feline_os.Base.{
  ℕ, zero, suc, ◌+◌, ◌-◌, ◌*◌, Bool, true, false, Option, none, some, List, [], ◌∷◌, ◌&&◌, ◌||◌,
  ltb, leb, ◌==◌, if◌then◌else◌, wrap32, u32_mod,
}
use feline_os.Strings.{Bytes}
use feline_os.Numbers.{isspace}

-- The values of `errno` that are set.
pub data Errno : Type 0 where
  einval erange : Errno

-- The result, what `errno` is set to, and what is written to `endptr`; none where nothing is.
pub record Parsed : Type 0 where
  pub result : ℕ
  pub errno : Option Errno
  pub endptr : Option ℕ

-- `std::strncmp(p, literal, n) != 0` for the `n` bytes of a literal.
unfoldable pub unequal : Bytes → ℕ → List ℕ → Bool
unequal m p [] = false
unequal m p (c ∷ cs) = if m p == c then unequal m (p + 1) cs else true

unfoldable pub skip_space : ℕ → Bytes → ℕ → Option ℕ
skip_space zero m nptr = none
skip_space (suc fuel) m nptr =
    let rest = skip_space fuel m (nptr + 1) in if isspace (m nptr) then rest else some nptr

-- Whether the number is negative, and the place behind the sign.
unfoldable pub read_sign : Bytes → ℕ → Bool × ℕ
unfolding unequal
read_sign m nptr =
    if unequal m nptr (45 ∷ [])
    then (true, nptr + 1)
    else if unequal m nptr (43 ∷ [])
    then (false, nptr + 1)
    else (false, nptr)

-- The three prefixes, one after another: the base and the place behind.
unfoldable pub read_hexadecimal : Bytes → ℕ × ℕ → ℕ × ℕ
unfolding unequal
read_hexadecimal m (base, nptr) =
    if (base == 16 || base == 0)
      && (unequal m nptr (48 ∷ 120 ∷ []) || unequal m nptr (48 ∷ 88 ∷ []))
    then (16, nptr + 2)
    else (base, nptr)

unfoldable pub read_binary : Bytes → ℕ × ℕ → ℕ × ℕ
unfolding unequal
read_binary m (base, nptr) =
    if (base == 2 || base == 0) && (unequal m nptr (48 ∷ 98 ∷ []) || unequal m nptr (48 ∷ 66 ∷ []))
    then (2, nptr + 2)
    else (base, nptr)

unfoldable pub read_octal : Bytes → ℕ × ℕ → ℕ × ℕ
unfolding unequal
read_octal m (base, nptr) =
    if (base == 8 || base == 0) && unequal m nptr (48 ∷ []) then (8, nptr + 1) else (base, nptr)

unfoldable pub digit_to_num : ℕ → ℕ
digit_to_num digit =
    if leb 48 digit && leb digit 57
    then digit - 48
    else if leb 97 digit && leb digit 122
    then digit - 97 + 10
    else if leb 65 digit && leb digit 90
    then digit - 65 + 10
    else 36

-- The conversion from `result` on: the result and the place behind the digits, or `none` for an overflow.
unfoldable pub convert_loop : ℕ → ℕ → Bytes → ℕ → ℕ → Option (Option (ℕ × ℕ))
convert_loop zero base m nptr result = none
convert_loop (suc fuel) base m nptr result =
    let digit = digit_to_num (m nptr) in
    let sum = wrap32 (result * base) + digit in
    let rest = convert_loop fuel base m nptr (wrap32 sum) in
    if ltb digit base
    then if leb u32_mod (result * base) || leb u32_mod sum then some none else rest
    else some (some (result, nptr))

-- What follows the conversion.
unfoldable pub finish : Option Errno → ℕ → Bool → ℕ → Option (Option (ℕ × ℕ)) → Option Parsed
finish errno original_nptr negative begining_of_digits none = none
finish errno original_nptr negative begining_of_digits (some none) =
    some (record { result = 0; errno = some erange; endptr = none })
finish errno original_nptr negative begining_of_digits (some (some (result, nptr))) =
    if nptr == begining_of_digits
    then some (record { result = 0; errno = some einval; endptr = some original_nptr })
    else some (record {
      result = if negative then wrap32 (u32_mod - result) else result;
      errno = errno;
      endptr = some nptr;
    })

-- The base and the place of the digits behind a sign.
unfoldable pub read_prefixes : Bytes → ℕ → ℕ → ℕ × ℕ
unfolding read_hexadecimal read_binary read_octal
read_prefixes m base nptr = read_octal m (read_binary m (read_hexadecimal m (base, nptr)))

-- Behind white space.
unfoldable pub parse_number : ℕ → Bytes → ℕ → ℕ → Option ℕ → Option Parsed
parse_number fuel m original_nptr base none = none
parse_number fuel m original_nptr base (some nptr) =
    let sign = read_sign m nptr in
    let digits = read_prefixes m base sign.1 in
    finish (if base == 1 || ltb 36 base then some einval else none) original_nptr sign.0 digits.1
      (convert_loop fuel digits.0 m digits.1 0)

unfoldable pub strtoul : ℕ → Bytes → ℕ → ℕ → Option Parsed
strtoul fuel m original_nptr base =
    parse_number fuel m original_nptr base (skip_space fuel m original_nptr)
