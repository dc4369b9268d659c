-- ===== src/Printf.antt =====
-- system/libc/stdio/printf.cpp: `vprintf`, for i386, and the templates of
-- system/libFeline/include/feline/str.h that write to a buffer. A format is the list of its characters; its
-- end is the null character. A signed number is its two's complement pattern. The flags `0` and `-`
-- set nothing, so `padded` and `left_justified` stay false. `intStrBuf` begins at address 0 of a memory
-- that goes on behind its 256 bytes. What goes to `putchar` and `__internal_writeStr` is gathered in
-- `output`. None is a missing argument, or a loop beyond its fuel.
pub mod Convert
pub mod Loop
pub mod Text
pub mod Output
use feline_os.Base.{
  ℕ, zero, suc, ◌+◌, ◌-◌, ◌*◌, ◌%◌, ◌^◌, Bool, true, false, Option, none, some, List, [], ◌∷◌, ◌++◌,
  length, not, ◌&&◌, ◌||◌, ltb, leb, ◌==◌, if◌then◌else◌, wrap32,
}
use feline_os.Numbers.{isdigit, write_digits, u64_mod}
use feline_os.Strings.{Bytes, poke, strlen}

-- An argument behind the format: a number of any size, or the characters of a string.
pub data VaArg : Type 0 where
  number : ℕ → VaArg
  string : List ℕ → VaArg

-- The variables of `vprintf` that outlive a conversion.
pub record Printing : Type 0 where
  pub int_str_buf : Bytes
  pub written : ℕ
  pub min_width : ℕ
  pub width : ℕ
  pub length_char : ℕ
  pub parameters : List VaArg
  pub output : List ℕ

abbrev pub int_max : ℕ
int_max = 2_147_483_647

-- `ntostr(num, str, base)` at an address: 16 digits and a null.
unfoldable pub poke_all : List ℕ → ℕ → Bytes → Bytes
unfolding poke
poke_all [] p m = m
poke_all (c ∷ cs) p m = poke_all cs (p + 1) (poke m p c)

unfoldable pub ntostr_at : ℕ → ℕ → ℕ → Bytes → Bytes
unfolding poke_all write_digits
ntostr_at num ptr base m = poke_all (write_digits 16 num base 1 []) ptr (poke m (ptr + 16) 0)

-- The loop of `xtostr` over 20 characters: a `char` above '9' is moved to the letters.
unfoldable pub shift_letters : ℕ → ℕ → ℕ → Bytes → Bytes
unfolding poke
shift_letters zero to_letter ptr m = m
shift_letters (suc n) to_letter ptr m =
    let c = m ptr in
    shift_letters n to_letter (ptr + 1)
      (if ltb 57 c && ltb c 128 then poke m ptr ((c + to_letter) % 256) else m)

unfoldable pub xtostr_at : ℕ → ℕ → Bool → Bytes → Bytes
unfolding ntostr_at shift_letters
xtostr_at num ptr upper m = shift_letters 20 (if upper then 7 else 39) ptr (ntostr_at num ptr 16 m)

-- Whether `alt_form` and `always_signed` are set, and what follows the flags.
unfoldable pub get_flags : Bool → Bool → List ℕ → Bool × Bool × List ℕ
get_flags alt_form always_signed [] = (alt_form, always_signed, [])
get_flags alt_form always_signed (c ∷ cs) =
    if c == 35
    then get_flags true always_signed cs
    else if c == 48 || c == 45
    then get_flags alt_form always_signed cs
    else if c == 43
    then get_flags alt_form true cs
    else (alt_form, always_signed, c ∷ cs)

-- The explicit width, on top of `min_width`.
unfoldable pub get_width : ℕ → List ℕ → ℕ × List ℕ
unfolding isdigit
get_width min_width [] = (min_width, [])
get_width min_width (c ∷ cs) =
    let rest = get_width (wrap32 (wrap32 (min_width * 10) + (c - 48))) cs in
    if isdigit c then rest else (min_width, c ∷ cs)

-- The length specifier: a single `h` or `l` leaves `length` as it was.
unfoldable pub get_length : ℕ → List ℕ → ℕ × List ℕ
get_length length_char [] = (0, [])
get_length length_char (c ∷ cs) =
    if c == 104 || c == 108
    then doubled c cs
    else if c == 76 || c == 106 || c == 122 || c == 116
    then (c, cs)
    else (0, c ∷ cs)
  where
    doubled : ℕ → List ℕ → ℕ × List ℕ
    doubled x [] = (length_char, [])
    doubled x (d ∷ ds) =
        if d == x then ((if x == 104 then 72 else 113), ds) else (length_char, d ∷ ds)
