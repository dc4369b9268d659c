-- ===== src/Printf/Output.antt =====
-- What the conversions of strings and numbers put out.
use feline_os.Base.{
  plus_zero, plus_suc, zero_plus, ℕ, zero, suc, ◌+◌, ◌-◌, ◌*◌, ◌/◌, ◌%◌, ◌≤◌, ◌<◌, ◌≡◌, ◌≢◌, refl,
  sym, ap, ap₂, ◌∙◌, subst, false, Option, none, some, List, [], ◌∷◌, ◌++◌, length, arith, ltb,
  wrap32, u32_mod,
}
use feline_os.Strings.{Bytes, poke, strlen, strlen_from}
use feline_os.Numbers.{write_digits, isdigit, u64_mod}
use feline_os.Numbers.Value.{value, write_digits-length, sixteen_digits-value}
use feline_os.Printf.{
  number, string, Printing, int_max, poke_all, ntostr_at, get_flags, get_width, get_length,
}
use feline_os.Printf.Convert.{
  take_string, take_number, unsigned_number, convert_string, convert_unsigned, set_width, convert,
  from_option, unsupported, failed, converted,
}
use feline_os.Printf.Loop.{
  Printed, returned, bytes_at, write_buffer, write_percent, conversion, behind_percent,
  vprintf_loop, printing, vprintf,
}

abbrev pub NoNull : List ℕ → Type 0
NoNull [] = Unit {0}
NoNull (c ∷ cs) = (c ≢ 0) × NoNull cs

poke_all-before : (ds : List ℕ) (p q : ℕ) (m : Bytes) → q < p → poke_all ds p m q ≡ m q
unfolding poke_all poke
poke_all-before [] p q m lt = refl
poke_all-before (d ∷ ds) p q m lt =
    poke_all-before ds (p + 1) q (poke m p d) (omega arith) ∙ ground arith

poke_all-after : (ds : List ℕ) (p q : ℕ) (m : Bytes) → p + length ds ≤ q → poke_all ds p m q ≡ m q
unfolding poke_all poke
poke_all-after [] p q m le = refl
poke_all-after (d ∷ ds) p q m le =
    poke_all-after ds (p + 1) q (poke m p d) (omega arith) ∙ ground arith

bytes_at-poke_all :
    (ds : List ℕ) (p : ℕ) (m : Bytes) → bytes_at (length ds) p (poke_all ds p m) ≡ ds
unfolding bytes_at poke_all poke
bytes_at-poke_all [] p m = refl
bytes_at-poke_all (d ∷ ds) p m =
    ap₂ (λ (x : ℕ) xs. x ∷ xs)
      (poke_all-before ds (p + 1) p (poke m p d) (omega arith) ∙ ground arith)
      (bytes_at-poke_all ds (p + 1) (poke m p d))

cons-head : {x y : ℕ} {xs ys : List ℕ} → x ∷ xs ≡ y ∷ ys → x ≡ y
cons-head e = cc

cons-tail : {x y : ℕ} {xs ys : List ℕ} → x ∷ xs ≡ y ∷ ys → xs ≡ ys
cons-tail e = cc

-- A string in memory that a null ends.
strlen_from-bytes :
    (ds : List ℕ) (fuel len : ℕ) (m : Bytes)
    → bytes_at (length ds) len m ≡ ds
    → NoNull ds
    → m (len + length ds) ≡ 0
    → length ds < fuel
    → strlen_from fuel len 0 m ≡ some (len + length ds)
unfolding strlen_from bytes_at
strlen_from-bytes ds zero len m e nn end lt = absurd (omega arith)
strlen_from-bytes [] (suc fuel) len m e nn end lt =
    let null : m len ≡ 0 = subst (λ q. m q ≡ 0) (plus_zero len) end in ground (arith, null)
strlen_from-bytes (d ∷ ds) (suc fuel) len m e (nz, nn) end lt =
    let here : m len ≡ d = cons-head e in
    let rest =
      strlen_from-bytes ds fuel (len + 1) m (cons-tail e) nn
        (subst (λ q. m q ≡ 0) (plus_suc len (length ds)) end) (omega arith) in
    ground (arith, here, rest)

-- A buffer that holds the string, with a null behind it.
Holds : List ℕ → Bytes → Type 0
Holds ds m = (bytes_at (length ds) 0 m ≡ ds) × (m (length ds) ≡ 0)

-- `write_buffer` of such a buffer without a width.
write_buffer-string :
    (size : ℕ) (ds : List ℕ) (s : Printing) (next : Printing → Option Printed)
    → NoNull ds
    → Holds ds s.int_str_buf
    → length ds < size
    → s.min_width ≡ 0
    → s.written + length ds ≤ int_max
    → write_buffer size s next
      ≡ next (record s { output = s.output ++ ds; written = s.written + length ds })
unfolding write_buffer strlen Holds
write_buffer-string size ds s next nn (shown, end) lt none_asked room =
    let n : strlen_from size 0 0 s.int_str_buf ≡ some (length ds) =
      strlen_from-bytes ds size 0 s.int_str_buf shown nn
        (ap s.int_str_buf (zero_plus (length ds)) ∙ end) lt
      ∙ ap some (zero_plus (length ds)) in
    let unpadded : ltb s.width s.min_width ≡ false = ground arith in
    let fits : ltb (int_max - s.written) (length ds) ≡ false = ground arith in
    ground (arith, unpadded, n, fits, shown)

-- A string with its null, written to the start of a buffer.
bytes_at-prefix :
    (xs : List ℕ) (y p : ℕ) (m : Bytes)
    → bytes_at (length (xs ++ y ∷ [])) p m ≡ xs ++ y ∷ []
    → (bytes_at (length xs) p m ≡ xs) × (m (p + length xs) ≡ y)
unfolding bytes_at
bytes_at-prefix [] y p m e = (refl, ap m (plus_zero p) ∙ cons-head e)
bytes_at-prefix (x ∷ xs) y p m e =
    let (rest, end) = bytes_at-prefix xs y (p + 1) m (cons-tail e) in
    (ap₂ (λ (z : ℕ) zs. z ∷ zs) (cons-head e) rest, ap m (plus_suc p (length xs)) ∙ end)

Holds-string : (cs : List ℕ) (m : Bytes) → Holds cs (poke_all (cs ++ 0 ∷ []) 0 m)
unfolding Holds
Holds-string cs m =
    let (shown, end) =
      bytes_at-prefix cs 0 0 (poke_all (cs ++ 0 ∷ []) 0 m) (bytes_at-poke_all (cs ++ 0 ∷ []) 0 m) in
    (shown, ap (poke_all (cs ++ 0 ∷ []) 0 m) (sym (zero_plus (length cs))) ∙ end)

-- `%s` prints its argument as it is and returns its length, for a string without a null that fits in the
-- buffer of 256 bytes with the null behind it.
pub vprintf-string :
    (size : ℕ) (cs : List ℕ)
    → NoNull cs
    → length cs < 256
    → 256 ≤ size
    → vprintf size (37 ∷ 115 ∷ []) (string cs ∷ []) ≡ some (returned (length cs) cs)
unfolding vprintf vprintf_loop behind_percent conversion get_flags get_width isdigit get_length
    convert convert_string take_string
vprintf-string size cs nn small enough =
    let s : Printing = record (printing []) { int_str_buf = poke_all (cs ++ 0 ∷ []) 0 (λ _. 0) } in
    write_buffer-string size cs s (vprintf_loop size 2 []) nn (Holds-string cs (λ _. 0))
      (omega arith) refl (omega arith)
    ∙ ap₂ (λ n o. some (returned n o)) (omega arith) refl

digits-NoNull :
    (num base offset d : ℕ) (str : List ℕ)
    → NoNull str
    → NoNull (write_digits offset num base d str)
unfolding write_digits
digits-NoNull num base zero d str nn = nn
digits-NoNull num base (suc o) d str nn =
    digits-NoNull num base o (d * base % u64_mod) ((num / d % base + 48) ∷ str) (omega arith, nn)

Holds-ntostr :
    (num base : ℕ) (m : Bytes) → Holds (write_digits 16 num base 1 []) (ntostr_at num 0 base m)
unfolding Holds ntostr_at poke
Holds-ntostr num base m =
    let ds = write_digits 16 num base 1 [] in
    let m' = poke m 16 0 in
    let n : length ds ≡ 16 = write_digits-length num base 16 1 [] in
    (bytes_at-poke_all ds 0 m', poke_all-after ds 0 (length ds) m' (omega arith) ∙ ap m' n ∙ refl)

set_width-string :
    (size : ℕ) (ds : List ℕ) (s : Printing)
    → NoNull ds
    → Holds ds s.int_str_buf
    → length ds < size
    → set_width size (some (0, s)) ≡ some (record s { width = length ds })
unfolding set_width strlen Holds
set_width-string size ds s nn (shown, end) lt =
    let n : strlen_from size 0 0 s.int_str_buf ≡ some (length ds) =
      strlen_from-bytes ds size 0 s.int_str_buf shown nn
        (ap s.int_str_buf (zero_plus (length ds)) ∙ end) lt
      ∙ ap some (zero_plus (length ds)) in
    ground (arith, n)

-- `%u` prints an `unsigned int` as 16 decimal digits, which stand for it, and returns 16.
pub vprintf-unsigned :
    (size n : ℕ)
    → n < u32_mod
    → 256 ≤ size
    → (digits : List ℕ) × (vprintf size (37 ∷ 117 ∷ []) (number n ∷ []) ≡ some (returned 16 digits))
      × (length digits ≡ 16)
      × (value 10 0 digits ≡ n)
unfolding vprintf vprintf_loop behind_percent conversion get_flags get_width isdigit get_length
    convert convert_unsigned take_number unsigned_number poke_all
vprintf-unsigned size n small enough =
    let num = wrap32 n in
    let ds = write_digits 16 num 10 1 [] in
    let s : Printing = record (printing []) { int_str_buf = ntostr_at num 0 10 (λ _. 0) } in
    let nn = digits-NoNull num 10 16 1 [] tt in
    let holds = Holds-ntostr num 10 (λ _. 0) in
    let sixteen : length ds ≡ 16 = write_digits-length num 10 16 1 [] in
    let wide = set_width-string size ds s nn holds (omega arith) in
    let next = vprintf_loop size 2 [] in
    (
      ds,
      ap
            (λ o. elim (from_option o) [
              | unsupported ↦
                  vprintf_loop size 2 (117 ∷ []) (write_percent (printing (number n ∷ [])))
              | failed ↦ none
              | converted u ↦ write_buffer size u next
            ])
            wide
          ∙ write_buffer-string size ds (record s { width = length ds }) next nn holds (omega arith)
              refl (omega arith)
          ∙ ap (λ k. some (returned k ds)) (omega arith),
      sixteen,
      sixteen_digits-value num 10 (omega arith) (omega arith) (omega arith) ∙ omega arith,
    )
