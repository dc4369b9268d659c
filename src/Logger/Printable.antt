-- ===== src/Logger/Printable.antt =====
-- The output of `strDebug` for characters below 128.
use feline_os.Base.{
  ℕ, zero, suc, ◌+◌, ◌*◌, ◌/◌, ◌%◌, ◌<◌, ◌≡◌, refl, ap, ◌∙◌, Bool, true, false, Option, none, some,
  List, [], ◌∷◌, ◌++◌, length, ◌&&◌, ltb, ◌==◌, arith, Bool-cases, inl, inr, u32_mod,
}
use feline_os.Numbers.{u64_mod, ntostr, isprint, count_digits, write_digits}
use feline_os.Logger.{dec}
use feline_os.Logger.Digits.{dec-digits}
use feline_os.Logger.Debug.{safe_char, safe_str, str_debug, ◌+s◌}

abbrev pub are_printable : List ℕ → Bool
are_printable [] = true
are_printable (c ∷ cs) = isprint c && are_printable cs

abbrev pub are_ascii : List ℕ → Bool
are_ascii [] = true
are_ascii (c ∷ cs) = ltb c 128 && are_ascii cs

-- The string is found, and has only printable characters.
abbrev pub Prints : Option (List ℕ) → Type 0
Prints o = (str : List ℕ) × (o ≡ some str) × (are_printable str ≡ true)

both : (a b : Bool) → (a && b) ≡ true → (a ≡ true) × (b ≡ true)
both true b h = (refl, h)
both false b h = cc

are_printable-append :
    (a b : List ℕ) → are_printable a ≡ true → are_printable b ≡ true → are_printable (a ++ b) ≡ true
are_printable-append [] b h k = k
are_printable-append (c ∷ cs) b h k =
    let (shown, rest) = both (isprint c) (are_printable cs) h in
    simp shown (are_printable-append cs b rest k)

Prints-append : (a b : Option (List ℕ)) → Prints a → Prints b → Prints (a +s b)
Prints-append a b (x, is_x, shown_x) (y, is_y, shown_y) =
    (x ++ y, simp (is_x, is_y) refl, are_printable-append x y shown_x shown_y)

abbrev is_fine : Option (List ℕ) → Bool
is_fine none = false
is_fine (some str) = are_printable str

is_fine-Prints : (o : Option (List ℕ)) → is_fine o ≡ true → Prints o
is_fine-Prints none h = cc
is_fine-Prints (some str) h = (str, refl, h)

abbrev all_below : (ℕ → Bool) → ℕ → Bool
all_below p zero = true
all_below p (suc n) = p n && all_below p n

all_below-holds : (p : ℕ → Bool) (n c : ℕ) → all_below p n ≡ true → c < n → p c ≡ true
all_below-holds p zero c h lt = absurd (omega arith)
all_below-holds p (suc n) c h lt =
    let (here, below) = both (p n) (all_below p n) h in
    elim (Bool-cases (c == n)) [
      | inl same ↦ let e : c ≡ n = ground (arith, same) in rw e here
      | inr other ↦ all_below-holds p n c below (ground (arith, lt, other))
    ]

safe_chars : all_below (λ c. is_fine (safe_char 11 c)) 128 ≡ true
unfolding safe_char isprint ntostr count_digits write_digits
safe_chars = refl

digit-isprint : (n : ℕ) → isprint (n % 10 + 48) ≡ true
unfolding isprint
digit-isprint n = ground arith

write_digits-are_printable :
    (offset num todivby : ℕ) (str : List ℕ)
    → are_printable str ≡ true
    → are_printable (write_digits offset num 10 todivby str) ≡ true
unfolding write_digits
write_digits-are_printable zero num todivby str h = h
write_digits-are_printable (suc offset) num todivby str h =
    write_digits-are_printable offset num (todivby * 10 % u64_mod)
      (((num / todivby) % 10 + 48) ∷ str) (simp (digit-isprint (num / todivby)) h)

zero_is : are_printable (48 ∷ []) ≡ true
unfolding isprint
zero_is = refl

start_is : are_printable (91 ∷ 108 ∷ 101 ∷ 110 ∷ 61 ∷ []) ≡ true
unfolding isprint
start_is = refl

middle_is :
    are_printable (44 ∷ 99 ∷ 104 ∷ 97 ∷ 114 ∷ 97 ∷ 99 ∷ 116 ∷ 101 ∷ 114 ∷ 115 ∷ 61 ∷ 34 ∷ []) ≡ true
unfolding isprint
middle_is = refl

end_is : are_printable (34 ∷ 93 ∷ []) ≡ true
unfolding isprint
end_is = refl

dec-Prints : (n : ℕ) → n < u32_mod → Prints (dec 11 n 1)
dec-Prints n lt =
    let (str, run, made) = dec-digits n lt in
    (
      str,
      run,
      elim made [
        | inl is_zero ↦ ap are_printable is_zero ∙ zero_is
        | inr (width, is_digits) ↦
            ap are_printable is_digits ∙ write_digits-are_printable width n 1 [] refl
      ],
    )

safe_str-Prints : (str : List ℕ) → are_ascii str ≡ true → Prints (safe_str 11 str)
unfolding safe_str
safe_str-Prints [] h = ([], refl, refl)
safe_str-Prints (c ∷ cs) h =
    let (small, rest) = both (ltb c 128) (are_ascii cs) h in
    Prints-append (safe_char 11 c) (safe_str 11 cs)
      (is_fine-Prints (safe_char 11 c)
        (all_below-holds (λ k. is_fine (safe_char 11 k)) 128 c safe_chars (ground (arith, small))))
      (safe_str-Prints cs rest)

-- For a string of characters below 128, `strDebug` ends, and gives a string of printable characters, whatever
-- is in the one that it is given.
pub str_debug-Prints :
    (str : List ℕ) → are_ascii str ≡ true → length str < u32_mod → Prints (str_debug 11 str)
unfolding str_debug
str_debug-Prints str h lt =
    Prints-append _ _ (91 ∷ 108 ∷ 101 ∷ 110 ∷ 61 ∷ [], refl, start_is)
      (Prints-append _ _ (dec-Prints (length str) lt) (
        Prints-append _ _
          (
            44 ∷ 99 ∷ 104 ∷ 97 ∷ 114 ∷ 97 ∷ 99 ∷ 116 ∷ 101 ∷ 114 ∷ 115 ∷ 61 ∷ 34 ∷ [],
            refl,
            middle_is,
          )
          (Prints-append _ _ (safe_str-Prints str h) (34 ∷ 93 ∷ [], refl, end_is))))
