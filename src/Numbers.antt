-- ===== src/Numbers.antt =====
-- Numbers and characters: system/libFeline/src/string/itostr.cpp, and isdigit.cpp, isprint.cpp and
-- isspace.cpp of system/libc/ctype. A `KString` is the list of its characters. Numbers of the type
-- `unsigned long long` are below 2 ^ 64.
pub mod Count
pub mod Value
pub mod Strtoul
pub mod Refuse
use feline_os.Base.{
  ℕ, zero, suc, ◌+◌, ◌*◌, ◌/◌, ◌%◌, ◌≡◌, ◌<◌, ◌≤◌, refl, Bool, true, false, Option, none, some,
  List, [], ◌∷◌, ◌&&◌, ◌||◌, ltb, leb, ◌==◌, if◌then◌else◌, length, arith,
}

abbrev pub u64_mod : ℕ
u64_mod = 18_446_744_073_709_551_616

-- The loop that counts digits, from `n` on.
unfoldable pub count_digits : ℕ → ℕ → ℕ → ℕ → ℕ → Option ℕ
count_digits zero num base n str_len = none
count_digits (suc fuel) num base n str_len =
    let rest = count_digits fuel num base (n * base % u64_mod) (str_len + 1) in
    if leb n num then rest else some str_len

-- The loop that writes digits from the right, `offset` of them, before those in `str`.
unfoldable pub write_digits : ℕ → ℕ → ℕ → ℕ → List ℕ → List ℕ
write_digits zero num base todivby str = str
write_digits (suc offset) num base todivby str =
    write_digits offset num base (todivby * base % u64_mod) (((num / todivby) % base + 48) ∷ str)

abbrev pub zeros : ℕ → List ℕ
zeros zero = []
zeros (suc n) = 48 ∷ zeros n

-- `ntostr(num, base, min_width)`; none where the loop that counts does not end.
unfoldable pub ntostr : ℕ → ℕ → ℕ → ℕ → Option (List ℕ)
unfolding count_digits write_digits
ntostr fuel num base min_width =
    if ltb base 2 || ltb 16 base
    then some []
    else if num == 0
    then some (zeros min_width)
    else elim (count_digits fuel num base 1 0) [
      | none ↦ none
      | some str_len ↦
          let width = if ltb str_len min_width then min_width else str_len in
          some (write_digits width num base 1 [])
    ]

-- `ntostr(num, str, base)`: the 16 digits; none is the result -1.
unfoldable pub ntostr_buffer : ℕ → ℕ → Option (List ℕ)
unfolding write_digits
ntostr_buffer num base =
    if ltb base 2 || ltb 16 base then none else some (write_digits 16 num base 1 [])

-- Characters from '0', 48, to '9', 57, but for these two.
unfoldable pub isdigit : ℕ → Bool
isdigit c = ltb 48 c && ltb c 57

unfoldable pub isprint : ℕ → Bool
isprint c = leb 32 c && leb c 126

unfoldable pub isspace : ℕ → Bool
isspace c = c == 32 || c == 12 || c == 10 || c == 13 || c == 9 || c == 11
