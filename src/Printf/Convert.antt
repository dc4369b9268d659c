-- ===== src/Printf/Convert.antt =====
-- system/libc/stdio/printf.cpp: the conversions of `vprintf`.
use feline_os.Base.{
  ℕ, ◌+◌, ◌-◌, ◌%◌, ◌^◌, Bool, true, false, Option, none, some, List, [], ◌∷◌, ◌++◌, length, not,
  ◌&&◌, ◌||◌, ltb, leb, ◌==◌, if◌then◌else◌, wrap32,
}
use feline_os.Numbers.{u64_mod}
use feline_os.Strings.{Bytes, poke, strlen}
use feline_os.Printf.{VaArg, number, string, Printing, poke_all, ntostr_at, xtostr_at}

-- `va_arg` of a number and of a string.
unfoldable pub take_number : List VaArg → Option (ℕ × List VaArg)
take_number [] = none
take_number (number n ∷ rest) = some (n, rest)
take_number (string cs ∷ rest) = none

unfoldable pub take_string : List VaArg → Option (List ℕ × List VaArg)
take_string [] = none
take_string (number n ∷ rest) = none
take_string (string cs ∷ rest) = some (cs, rest)

-- A signed number of `w` bits: whether it is below 0, and its `std::abs` as an `unsigned long long`. The
-- least `int` and the least `long` have none, and are widened as they are.
unfoldable pub signed_parts : ℕ → ℕ → Bool × ℕ
signed_parts w raw =
    let n = raw % 2 ^ w in
    if ltb n (2 ^ (w - 1))
    then (false, n)
    else (true, (if leb 32 w && n == 2 ^ (w - 1) then u64_mod - n else 2 ^ w - n))

-- What `%d` reads by the length: the sign and the number that goes to `itostr`, or none without a case.
-- `z` is unsigned; `j` has no `std::abs`.
unfoldable pub signed_number : ℕ → ℕ → Option (Bool × ℕ)
unfolding signed_parts
signed_number length_char raw =
    if length_char == 72
    then some (signed_parts 8 raw)
    else if length_char == 104
    then some (signed_parts 16 raw)
    else if length_char == 0 || length_char == 108 || length_char == 116
    then some (signed_parts 32 raw)
    else if length_char == 113
    then some (signed_parts 64 raw)
    else if length_char == 122
    then some (false, wrap32 raw)
    else if length_char == 106
    then some ((signed_parts 64 raw).0, raw % u64_mod)
    else none

-- What `%o`, `%u`, `%x`, `%X` and `%b` read: `t` is a signed type, which is widened with its sign.
unfoldable pub unsigned_number : ℕ → ℕ → Option ℕ
unsigned_number length_char raw =
    if length_char == 72
    then some (raw % 256)
    else if length_char == 104
    then some (raw % 65_536)
    else if length_char == 0 || length_char == 108 || length_char == 122
    then some (wrap32 raw)
    else if length_char == 113 || length_char == 106
    then some (raw % u64_mod)
    else if length_char == 116
    then some (
        if ltb (wrap32 raw) 2_147_483_648 then wrap32 raw else u64_mod - 4_294_967_296 + wrap32 raw)
    else none

-- A conversion, from the start of the buffer: where its digits begin, and the state. None of the lengths
-- in a `switch` reads no argument and writes nothing.
unfoldable pub convert_signed : Bool → Printing → Option (ℕ × Printing)
unfolding take_number signed_number ntostr_at poke
convert_signed always_signed s = elim (signed_number s.length_char 0) [
  | none ↦ some (0, s)
  | some _ ↦ elim (take_number s.parameters) [
    | none ↦ none
    | some (raw, rest) ↦ elim (signed_number s.length_char raw) [
      | none ↦ none
      | some (negative, num) ↦
          let at = if negative || always_signed then 1 else 0 in
          let m =
            if negative
            then poke s.int_str_buf 0 45
            else if always_signed
            then poke s.int_str_buf 0 43
            else s.int_str_buf in
          some (at, record s { int_str_buf = ntostr_at num at 10 m; parameters = rest })
    ]
  ]
]

-- `%o`, `%u`, `%x`, `%X` and `%b`: `prefix` is what comes before the digits, and `write` writes them.
unfoldable pub convert_unsigned :
    List ℕ → (ℕ → ℕ → Bytes → Bytes) → Printing → Option (ℕ × Printing)
unfolding take_number unsigned_number poke_all
convert_unsigned prefix write s =
    let at = length prefix in
    let m = poke_all prefix 0 s.int_str_buf in
    elim (unsigned_number s.length_char 0) [
      | none ↦ some (at, record s { int_str_buf = m })
      | some _ ↦ elim (take_number s.parameters) [
        | none ↦ none
        | some (raw, rest) ↦ elim (unsigned_number s.length_char raw) [
          | none ↦ none
          | some num ↦ some (at, record s { int_str_buf = write num at m; parameters = rest })
        ]
      ]
    ]

-- `width = strlen(bufPtr)`
unfoldable pub set_width : ℕ → Option (ℕ × Printing) → Option Printing
unfolding strlen
set_width fuel none = none
set_width fuel (some (at, s)) = elim (strlen fuel at s.int_str_buf) [
  | none ↦ none
  | some n ↦ some (record s { width = n })
]

unfoldable pub convert_string : Printing → Option Printing
unfolding take_string poke_all
convert_string s = elim (take_string s.parameters) [
  | none ↦ none
  | some (cs, rest) ↦
      some (record s { int_str_buf = poke_all (cs ++ 0 ∷ []) 0 s.int_str_buf; parameters = rest })
]

-- A character, without a null behind it.
unfoldable pub convert_char : Printing → Option Printing
unfolding take_number poke
convert_char s = elim (take_number s.parameters) [
  | none ↦ none
  | some (c, rest) ↦
      some (record s { int_str_buf = poke s.int_str_buf 0 (c % 256); parameters = rest })
]

-- `%p` has the prefix unless `alt_form` is set.
unfoldable pub convert_pointer : Bool → Printing → Option (ℕ × Printing)
unfolding take_number xtostr_at poke_all
convert_pointer alt_form s = elim (take_number s.parameters) [
  | none ↦ none
  | some (raw, rest) ↦
      let prefix = if alt_form then [] else 48 ∷ 120 ∷ [] in
      some (
        length prefix,
        record s {
          int_str_buf =
              xtostr_at (wrap32 raw) (length prefix) false (poke_all prefix 0 s.int_str_buf);
          parameters = rest;
        },
      )
]

-- What comes of a conversion specifier.
pub data Converted : Type 0 where
  unsupported failed : Converted
  converted : Printing → Converted

abbrev pub from_option : Option Printing → Converted
from_option none = failed
from_option (some s) = converted s

-- The `switch` over the specifier. `%jx` does not ask for lower case.
unfoldable pub convert : ℕ → ℕ → Bool → Bool → Printing → Converted
unfolding convert_signed convert_unsigned set_width convert_string convert_char convert_pointer
convert fuel specifier alt_form always_signed s =
    let prefix : ℕ → List ℕ = λ c. if alt_form then 48 ∷ c ∷ [] else [] in
    if specifier == 99
    then from_option (convert_char s)
    else if specifier == 115
    then from_option (convert_string s)
    else if specifier == 100 || specifier == 105
    then from_option (set_width fuel (convert_signed always_signed s))
    else if specifier == 111
    then from_option (
        set_width fuel
          (convert_unsigned (if alt_form then 48 ∷ [] else []) (λ num at. ntostr_at num at 8) s))
    else if specifier == 117
    then from_option (
        set_width fuel (
          convert_unsigned (if always_signed && not (s.length_char == 76) then 43 ∷ [] else [])
            (λ num at. ntostr_at num at 10) s))
    else if specifier == 120
    then from_option (
        set_width fuel
          (convert_unsigned (prefix 120) (λ num at. xtostr_at num at (s.length_char == 106)) s))
    else if specifier == 88
    then from_option
        (set_width fuel (convert_unsigned (prefix 88) (λ num at. xtostr_at num at true) s))
    else if specifier == 98
    then from_option
        (set_width fuel (convert_unsigned (prefix 98) (λ num at. ntostr_at num at 2) s))
    else if specifier == 112
    then from_option (set_width fuel (convert_pointer alt_form s))
    else unsupported
