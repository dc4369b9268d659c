-- ===== src/Logger/Debug.antt =====
-- system/libFeline/src/logging/logger.cpp: `hex`, `bin` and `strDebug`, and the `KString xtostr` of
-- system/libFeline/include/feline/str.h. On i386 `char` is signed: a character from 128 on becomes a number
-- of 64 bits by its sign. None is a loop that does not end.
use feline_os.Base.{
  ℕ, ◌+◌, ◌≤◌, ◌<◌, ◌≡◌, refl, ap, ◌∙◌, Bool, false, Option, none, some, List, [], ◌∷◌, ◌++◌, map,
  length, ◌&&◌, ltb, leb, ◌==◌, if◌then◌else◌, arith,
}
use feline_os.Numbers.{ntostr, isprint}
use feline_os.Numbers.Count.{ntostr-spins}
use feline_os.Logger.{dec}

abbrev pub to_letter : Bool → ℕ → ℕ
to_letter upper c = if ltb 57 c then c + (if upper then 7 else 39) else c

-- `KString::append`, one string behind another.
infixr 60 ◌+s◌
abbrev pub ◌+s◌ : Option (List ℕ) → Option (List ℕ) → Option (List ℕ)
none +s b = none
some a +s none = none
some a +s some b = some (a ++ b)

-- The loop of `xtostr` over the digits.
abbrev map_chars : (ℕ → ℕ) → Option (List ℕ) → Option (List ℕ)
map_chars f none = none
map_chars f (some str) = some (map f str)

abbrev pub xtostr : ℕ → ℕ → Bool → ℕ → Option (List ℕ)
xtostr fuel num upper min_width = map_chars (to_letter upper) (ntostr fuel num 16 min_width)

unfoldable pub hex : ℕ → ℕ → ℕ → Option (List ℕ)
hex fuel n min_width = some (48 ∷ 120 ∷ []) +s xtostr fuel n false min_width

unfoldable pub bin : ℕ → ℕ → ℕ → Option (List ℕ)
bin fuel n min_width = some (48 ∷ 98 ∷ []) +s ntostr fuel n 2 min_width

-- A `char` as an `unsigned long long`.
abbrev pub extend_char : ℕ → ℕ
extend_char c = if ltb c 128 then c else c + 18_446_744_073_709_551_360

-- What the loop of `strDebug` appends for a character.
unfoldable pub safe_char : ℕ → ℕ → Option (List ℕ)
safe_char fuel c =
    if isprint c
    then some (c ∷ [])
    else if c == 0
    then some (92 ∷ 48 ∷ [])
    else if c == 9
    then some (92 ∷ 116 ∷ [])
    else if c == 13
    then some (92 ∷ 114 ∷ [])
    else if c == 10
    then some (92 ∷ 110 ∷ [])
    else if c == 27
    then some (92 ∷ 101 ∷ [])
    else (some (92 ∷ 120 ∷ []) +s xtostr fuel (extend_char c) false 1)

unfoldable pub safe_str : ℕ → List ℕ → Option (List ℕ)
safe_str fuel [] = some []
safe_str fuel (c ∷ cs) = safe_char fuel c +s safe_str fuel cs

-- "[len=", the length, ",characters=", the characters in quotes, "]".
unfoldable pub str_debug : ℕ → List ℕ → Option (List ℕ)
str_debug fuel str =
    some (91 ∷ 108 ∷ 101 ∷ 110 ∷ 61 ∷ [])
    +s dec fuel (length str) 1
    +s some (44 ∷ 99 ∷ 104 ∷ 97 ∷ 114 ∷ 97 ∷ 99 ∷ 116 ∷ 101 ∷ 114 ∷ 115 ∷ 61 ∷ 34 ∷ [])
    +s safe_str fuel str
    +s some (34 ∷ 93 ∷ [])

append-none : (o : Option (List ℕ)) → (o +s none) ≡ none
append-none none = refl
append-none (some a) = refl

safe_char-spins : (fuel c : ℕ) → 128 ≤ c → safe_char fuel c ≡ none
unfolding safe_char isprint
safe_char-spins fuel c high =
    let big : extend_char c ≡ c + 18_446_744_073_709_551_360 = ground (arith, high) in
    let ends : ntostr fuel (extend_char c) 16 1 ≡ none =
      ntostr-spins (extend_char c) fuel 1 (omega (arith, big)) in
    let other : (n : ℕ) → n < 128 → (c == n) ≡ false = λ n lt. ground (arith, high, lt) in
    let hidden : (leb 32 c && leb c 126) ≡ false = ground (arith, high) in
    simp
      (
        hidden,
        other 0 (omega arith),
        other 9 (omega arith),
        other 13 (omega arith),
        other 10 (omega arith),
        other 27 (omega arith),
      )
      (ap (λ o. some (92 ∷ 120 ∷ []) +s map_chars (to_letter false) o) ends)

safe_str-spins :
    (fuel c : ℕ) (before after : List ℕ) → 128 ≤ c → safe_str fuel (before ++ (c ∷ after)) ≡ none
unfolding safe_str
safe_str-spins fuel c [] after high =
    ap (λ o. o +s safe_str fuel after) (safe_char-spins fuel c high)
safe_str-spins fuel c (b ∷ before) after high =
    ap (λ o. safe_char fuel b +s o) (safe_str-spins fuel c before after high)
    ∙ append-none (safe_char fuel b)

-- On i386 `strDebug` does not end for a string with a character from 128 on.
pub str_debug-spins :
    (fuel c : ℕ) (before after : List ℕ) → 128 ≤ c → str_debug fuel (before ++ (c ∷ after)) ≡ none
unfolding str_debug
str_debug-spins fuel c before after high =
    let str = before ++ (c ∷ after) in
    let middle = some (44 ∷ 99 ∷ 104 ∷ 97 ∷ 114 ∷ 97 ∷ 99 ∷ 116 ∷ 101 ∷ 114 ∷ 115 ∷ 61 ∷ 34 ∷ []) in
    let start = some (91 ∷ 108 ∷ 101 ∷ 110 ∷ 61 ∷ []) in
    ap (λ o. start +s dec fuel (length str) 1 +s middle +s o +s some (34 ∷ 93 ∷ []))
      (safe_str-spins fuel c before after high)
    ∙ ap (λ o. start +s o) (append-none (dec fuel (length str) 1))
