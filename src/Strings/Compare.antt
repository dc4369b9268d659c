-- ===== src/Strings/Compare.antt =====
-- What `memcmp`, `strlen`, `strncmp` and `strstr` answer.
use feline_os.Base.{
  ℕ, zero, suc, ◌+◌, ◌≤◌, ◌<◌, ◌≡◌, ◌≢◌, ◌⊎◌, inl, inr, refl, ◌∙◌, false, none, some, ltb, ◌==◌,
  if◌then◌else◌, arith, Bool-cases,
}
use feline_os.Strings.{
  Bytes, Order, less, equal, greater, memcmp, memcmp_loop, strlen, strlen_from, strnlen,
  strnlen_from, strncmp, strstr, strstr_loop,
}

-- Byte strings `x` and `y` agree below `k`, and differ there.
pub record IsDifference (x y : ℕ → ℕ) (k : ℕ) : Type 0 where
  pub same : (j : ℕ) → j < k → x j ≡ y j
  pub differ : x k ≢ y k

memcmp_loop-cases :
    (n i a b : ℕ) (m : Bytes)
    → ((j : ℕ) → j < i → m (a + j) ≡ m (b + j))
    → ((memcmp_loop n i a b m ≡ equal) × ((j : ℕ) → j < i + n → m (a + j) ≡ m (b + j)))
      ⊎ ((k : ℕ) × (k < i + n)
          × IsDifference (λ j. m (a + j)) (λ j. m (b + j)) k
          × (memcmp_loop n i a b m ≡ (if ltb (m (a + k)) (m (b + k)) then less else greater)))
unfolding memcmp_loop
memcmp_loop-cases zero i a b m h = inl (refl, λ j lt. h j (omega arith))
memcmp_loop-cases (suc n) i a b m h = elim (Bool-cases (m (a + i) == m (b + i))) [
  | inr e ↦ inr (i, omega arith, record { same = h; differ = λ s. ground arith }, ground arith)
  | inl e ↦
      let h' : (j : ℕ) → j < i + 1 → m (a + j) ≡ m (b + j) =
        λ j lt. elim (Bool-cases (j == i)) [ inl s ↦ ground arith | inr s ↦ h j (ground arith) ] in
      elim (memcmp_loop-cases n (i + 1) a b m h') [
        | inl (r, all) ↦ inl (ground arith, λ j lt. all j (omega arith))
        | inr (k, lt, d, r) ↦ inr (k, omega arith, d, ground arith)
      ]
]

-- `memcmp` is the lexicographic order of bytes: it says that the areas are equal when all their bytes
-- are, and otherwise goes by the first byte that differs.
pub memcmp_cases :
    (a b n : ℕ) (m : Bytes)
    → ((memcmp a b n m ≡ equal) × ((j : ℕ) → j < n → m (a + j) ≡ m (b + j)))
      ⊎ ((k : ℕ) × (k < n)
          × IsDifference (λ j. m (a + j)) (λ j. m (b + j)) k
          × (memcmp a b n m ≡ (if ltb (m (a + k)) (m (b + k)) then less else greater)))
unfolding memcmp
memcmp_cases a b n m = elim (memcmp_loop-cases n 0 a b m (λ j lt. absurd (omega arith))) [
  | inl (r, all) ↦ inl (r, λ j lt. all j (omega arith))
  | inr (k, lt, d, r) ↦ inr (k, omega arith, d, r)
]

strlen_from-first :
    (fuel len str k : ℕ) (m : Bytes)
    → len ≤ k
    → k < len + fuel
    → m (str + k) ≡ 0
    → ((j : ℕ) → len ≤ j → j < k → m (str + j) ≢ 0)
    → strlen_from fuel len str m ≡ some k
unfolding strlen_from
strlen_from-first zero len str k m le lt z nz = absurd (omega arith)
strlen_from-first (suc fuel) len str k m le lt z nz = elim (Bool-cases (len == k)) [
  | inl e ↦ ground arith
  | inr e ↦
      let here = nz len (omega arith) (ground arith) in
      let rest =
        strlen_from-first fuel (len + 1) str k m (ground arith) (omega arith) z
          (λ j a b. nz j (omega arith) b) in
      ground arith
]

-- With fuel beyond the first null byte of a string, `strlen` ends and gives its place.
pub strlen-first :
    (fuel str k : ℕ) (m : Bytes)
    → k < fuel
    → m (str + k) ≡ 0
    → ((j : ℕ) → j < k → m (str + j) ≢ 0)
    → strlen fuel str m ≡ some k
unfolding strlen
strlen-first fuel str k m lt z nz =
    strlen_from-first fuel 0 str k m (omega arith) (omega arith) z (λ j a b. nz j b)

strnlen_from-strlen_from :
    (n len str k : ℕ) (m : Bytes)
    → len ≤ k
    → m (str + k) ≡ 0
    → ((j : ℕ) → len ≤ j → j < k → m (str + j) ≢ 0)
    → strnlen_from n len str m ≡ (if ltb k (len + n) then k else len + n)
unfolding strnlen_from
strnlen_from-strlen_from zero len str k m le z nz = ground arith
strnlen_from-strlen_from (suc n) len str k m le z nz = elim (Bool-cases (len == k)) [
  | inl e ↦ ground arith
  | inr e ↦
      let here = nz len (omega arith) (ground arith) in
      let rest =
        strnlen_from-strlen_from n (len + 1) str k m (ground arith) z
          (λ j a b. nz j (omega arith) b) in
      ground arith
]

-- `strnlen` is the least of the string's length and its bound.
pub strnlen-strlen :
    (fuel str maxlen k : ℕ) (m : Bytes)
    → k < fuel
    → m (str + k) ≡ 0
    → ((j : ℕ) → j < k → m (str + j) ≢ 0)
    → (strlen fuel str m ≡ some k) × (strnlen str maxlen m ≡ (if ltb k maxlen then k else maxlen))
unfolding strnlen
strnlen-strlen fuel str maxlen k m lt z nz = (
  strlen-first fuel str k m lt z nz,
  strnlen_from-strlen_from maxlen 0 str k m (omega arith) z (λ j a b. nz j b) ∙ ground arith,
)

not_equal {ℓ} : {A : Type ℓ} (o : Order) (x y : A) → o ≢ equal → (elim o [ equal ↦ x | _ ↦ y ]) ≡ y
not_equal less x y h = refl
not_equal equal x y h = absurd (h refl)
not_equal greater x y h = refl

strstr_loop-spins :
    (fuel haystack needle n : ℕ) (m : Bytes)
    → m haystack ≢ 0
    → strncmp haystack needle n m ≢ equal
    → strstr_loop fuel haystack needle n m ≡ none
unfolding strstr_loop
strstr_loop-spins zero haystack needle n m nz ne = refl
strstr_loop-spins (suc fuel) haystack needle n m nz ne =
    let full : (m haystack == 0) ≡ false = ground arith in
    simp full (
      not_equal (strncmp haystack needle n m) (some haystack) _ ne
      ∙ strstr_loop-spins fuel haystack needle n m nz ne)

-- `strstr` does not move along its haystack: where a string that is not empty does not begin with the
-- needle, `strstr` does not end, whether the needle is found further on or not.
pub strstr-spins :
    (fuel haystack needle k : ℕ) (m : Bytes)
    → haystack ≢ 0
    → needle ≢ 0
    → m haystack ≢ 0
    → m needle ≢ 0
    → strlen fuel needle m ≡ some k
    → strncmp haystack needle k m ≢ equal
    → strstr fuel haystack needle m ≡ none
unfolding strstr
strstr-spins fuel haystack needle k m h0 n0 mh mn len ne =
    let e1 : (needle == 0) ≡ false = ground arith in
    let e2 : (m needle == 0) ≡ false = ground arith in
    let e3 : (haystack == 0) ≡ false = ground arith in
    simp (e1, e2, e3, len) (strstr_loop-spins fuel haystack needle k m mh ne)
