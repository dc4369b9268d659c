-- ===== src/Strings.antt =====
-- system/libc/string: memory and strings. Memory is a function from an address to a byte. A loop that has
-- no bound but the end of a string has fuel, and gives `none` when the fuel ends. The results that
-- only hand a pointer argument back are left out.
pub mod Copy
pub mod Compare
use feline_os.Base.{
  ℕ, zero, suc, ◌+◌, ◌-◌, ◌%◌, Bool, true, false, Option, none, some, ltb, ◌==◌, if◌then◌else◌,
  wrap32, u32_mod,
}

abbrev pub Bytes : Type 0
Bytes = ℕ → ℕ

unfoldable pub poke : Bytes → ℕ → ℕ → Bytes
poke m p v q = if p == q then v else m q

pub data Order : Type 0 where
  less equal greater : Order

-- Loop from `i` on, with `n` rounds to go.
unfoldable pub memset_loop : ℕ → ℕ → ℕ → ℕ → Bytes → Bytes
unfolding poke
memset_loop zero i buf value m = m
memset_loop (suc n) i buf value m = memset_loop n (i + 1) buf value (poke m (buf + i) (value % 256))

unfoldable pub memset : ℕ → ℕ → ℕ → Bytes → Bytes
unfolding memset_loop
memset bufptr value size m = memset_loop size 0 bufptr value m

unfoldable pub copy_up : ℕ → ℕ → ℕ → ℕ → Bytes → Bytes
unfolding poke
copy_up zero i dst src m = m
copy_up (suc n) i dst src m = copy_up n (i + 1) dst src (poke m (dst + i) (m (src + i)))

unfoldable pub memcpy : ℕ → ℕ → ℕ → Bytes → Bytes
unfolding copy_up
memcpy dst src size m = copy_up size 0 dst src m

unfoldable pub copy_down : ℕ → ℕ → ℕ → Bytes → Bytes
unfolding poke
copy_down zero dst src m = m
copy_down (suc i) dst src m = copy_down i dst src (poke m (dst + i) (m (src + i)))

unfoldable pub memmove : ℕ → ℕ → ℕ → Bytes → Bytes
unfolding copy_up copy_down
memmove dst src size m = if ltb dst src then copy_up size 0 dst src m else copy_down size dst src m

unfoldable pub memcmp_loop : ℕ → ℕ → ℕ → ℕ → Bytes → Order
memcmp_loop zero i a b m = equal
memcmp_loop (suc n) i a b m =
    let rest = memcmp_loop n (i + 1) a b m in
    if ltb (m (a + i)) (m (b + i))
    then less
    else if ltb (m (b + i)) (m (a + i))
    then greater
    else rest

unfoldable pub memcmp : ℕ → ℕ → ℕ → Bytes → Order
unfolding memcmp_loop
memcmp a b size m = memcmp_loop size 0 a b m

-- A `char` is signed: its order is that of the byte with its top bit turned over.
unfoldable pub char_lt : ℕ → ℕ → Bool
char_lt x y = ltb ((x + 128) % 256) ((y + 128) % 256)

unfoldable pub strncmp_loop : ℕ → ℕ → ℕ → ℕ → Bytes → Order
unfolding char_lt
strncmp_loop zero i lhs rhs m = equal
strncmp_loop (suc n) i lhs rhs m =
    let rest = strncmp_loop n (i + 1) lhs rhs m in
    if char_lt (m (lhs + i)) (m (rhs + i))
    then less
    else if char_lt (m (rhs + i)) (m (lhs + i))
    then greater
    else rest

unfoldable pub strncmp : ℕ → ℕ → ℕ → Bytes → Order
unfolding strncmp_loop
strncmp lhs rhs size m = strncmp_loop size 0 lhs rhs m

-- The loop of `strcmp`, which its counter ends after 2 ^ 32 - 1 rounds.
unfoldable pub strcmp_loop : ℕ → ℕ → ℕ → ℕ → Bytes → Order
unfolding char_lt
strcmp_loop zero i lhs rhs m = equal
strcmp_loop (suc n) i lhs rhs m =
    let rest = strcmp_loop n (i + 1) lhs rhs m in
    if char_lt (m (lhs + i)) (m (rhs + i))
    then less
    else if char_lt (m (rhs + i)) (m (lhs + i))
    then greater
    else if m (rhs + i) == 0
    then equal
    else rest

unfoldable pub strcmp : ℕ → ℕ → Bytes → Order
unfolding strcmp_loop
strcmp lhs rhs m = strcmp_loop 4_294_967_295 0 lhs rhs m

unfoldable pub strlen_from : ℕ → ℕ → ℕ → Bytes → Option ℕ
strlen_from zero len str m = none
strlen_from (suc fuel) len str m =
    let rest = strlen_from fuel (len + 1) str m in if m (str + len) == 0 then some len else rest

unfoldable pub strlen : ℕ → ℕ → Bytes → Option ℕ
unfolding strlen_from
strlen fuel str m = strlen_from fuel 0 str m

unfoldable pub strnlen_from : ℕ → ℕ → ℕ → Bytes → ℕ
strnlen_from zero len str m = len
strnlen_from (suc n) len str m =
    let rest = strnlen_from n (len + 1) str m in if m (str + len) == 0 then len else rest

unfoldable pub strnlen : ℕ → ℕ → Bytes → ℕ
unfolding strnlen_from
strnlen str maxlen m = strnlen_from maxlen 0 str m

-- The loop of `strcpy`: the byte before has been copied, and is looked at in the source again.
unfoldable pub strcpy_from : ℕ → ℕ → ℕ → ℕ → Bytes → Option Bytes
unfolding poke
strcpy_from zero count dest src m = none
strcpy_from (suc fuel) count dest src m =
    let rest = strcpy_from fuel (count + 1) dest src (poke m (dest + count) (m (src + count))) in
    if m (src + (count - 1)) == 0 then some m else rest

unfoldable pub strcpy : ℕ → ℕ → ℕ → Bytes → Option Bytes
unfolding strcpy_from poke
strcpy fuel dest src m =
    let m' = poke m dest (m src) in if m' src == 0 then some m' else strcpy_from fuel 1 dest src m'

unfoldable pub strncpy_from : ℕ → ℕ → ℕ → ℕ → Bytes → Bytes
unfolding poke memset
strncpy_from zero count dest src m = m
strncpy_from (suc n) count dest src m =
    let rest = strncpy_from n (count + 1) dest src (poke m (dest + count) (m (src + count))) in
    if m (src + count) == 0 then memset (dest + count) 0 (suc n) m else rest

unfoldable pub strncpy : ℕ → ℕ → ℕ → Bytes → Bytes
unfolding strncpy_from
strncpy dest src n m = strncpy_from n 0 dest src m

-- The loop of `strlcpy`, `strncat` and `strlcat`: the memory, and the count where a null byte was copied.
unfoldable pub copy_string : ℕ → ℕ → ℕ → ℕ → Bytes → Option ℕ × Bytes
unfolding poke
copy_string zero count dest src m = (none, m)
copy_string (suc n) count dest src m =
    let m' = poke m (dest + count) (m (src + count)) in
    let rest = copy_string n (count + 1) dest src m' in
    if m' (dest + count) == 0 then (some count, m') else rest

unfoldable pub strlcpy : ℕ → ℕ → ℕ → ℕ → Bytes → Option (ℕ × Bytes)
unfolding copy_string strlen
strlcpy fuel dest src n m =
    let (r, m') = copy_string n 0 dest src m in
    elim r [
      | some count ↦ some (count, m')
      | none ↦ elim (strlen fuel src m') [ none ↦ none | some len ↦ some (len, m') ]
    ]

unfoldable pub strcat : ℕ → ℕ → ℕ → Bytes → Option Bytes
unfolding strlen strcpy
strcat fuel dest src m = elim (strlen fuel dest m) [
  | none ↦ none
  | some len ↦ strcpy fuel (dest + len) src m
]

unfoldable pub strncat : ℕ → ℕ → ℕ → ℕ → Bytes → Option Bytes
unfolding strlen copy_string poke
strncat fuel dest src n m = elim (strlen fuel dest m) [
  | none ↦ none
  | some len ↦
      let (r, m') = copy_string n 0 (dest + len) src m in
      elim r [ some _ ↦ some m' | none ↦ some (poke m' (dest + len + n) 0) ]
]

-- `n - strlen(dest) - 1` wraps.
unfoldable pub strlcat : ℕ → ℕ → ℕ → ℕ → Bytes → Option (ℕ × Bytes)
unfolding strlen copy_string
strlcat fuel dest src n m = elim (strlen fuel dest m) [
  | none ↦ none
  | some len ↦
      let max = wrap32 (n + u32_mod + u32_mod - len - 1) in
      let (r, m') = copy_string max 0 (dest + len) src m in
      elim r [ some count ↦ some (len + count, m') | none ↦ some (max, m') ]
]

-- The loop of `strstr`: `haystack` does not move.
unfoldable pub strstr_loop : ℕ → ℕ → ℕ → ℕ → Bytes → Option ℕ
unfolding strncmp
strstr_loop zero haystack needle needle_len m = none
strstr_loop (suc fuel) haystack needle needle_len m =
    let rest = strstr_loop fuel haystack needle needle_len m in
    if m haystack == 0
    then some 0
    else elim (strncmp haystack needle needle_len m) [ equal ↦ some haystack | _ ↦ rest ]

unfoldable pub strstr : ℕ → ℕ → ℕ → Bytes → Option ℕ
unfolding strstr_loop strlen
strstr fuel haystack needle m =
    if needle == 0
    then some haystack
    else if m needle == 0
    then some haystack
    else if haystack == 0
    then some 0
    else elim (strlen fuel needle m) [
      | none ↦ none
      | some needle_len ↦ strstr_loop fuel haystack needle needle_len m
    ]
